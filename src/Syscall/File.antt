-- ===== src/Syscall/File.antt =====
-- kernel/syscalls/sys_file.cpp and sys_stat.cpp. Where a call looks up a path, `none` is a path that does not fit the
-- arrays of fs/vfs.cpp.
use keon_os.Base.{
  ℕ, zero, suc, ◌+◌, ◌/◌, ◌%◌, Bool, true, false, ◌&&◌, ◌||◌, Option, none, some, List, [], ◌∷◌,
  ◌++◌, length, get_or, set, take, ltb, leb, ◌==◌, if◌then◌else◌, ◌>>=◌,
}
use keon_os.Vfs.{
  Fs, Dirent, minus_one, vfs_open, vfs_read, vfs_write, vfs_readdir, vfs_close, vfs_unlink,
  vfs_create, vfs_mkdir,
}
use keon_os.Syscall.{u32, Info, Machine, Kernel, copy_from_user, copy_to_user, user_path, little}

abbrev pub max_files : ℕ
max_files = 16

-- The first of `n` places from `i` on that has no node.
unfoldable pub free_place : ℕ → ℕ → List ℕ → Option ℕ
free_place zero i table = none
free_place (suc n) i table =
    let rest = free_place n (i + 1) table in if get_or table i 0 == 0 then some i else rest

-- `fd < 16 && fd_table[fd]`
unfoldable pub is_open : {S : Type 0} → ℕ → Machine S → Bool
is_open fd m =
    if leb max_files fd then false else if get_or m.fd_table fd 0 == 0 then false else true

-- The name of a `vfs_dirent` is taken to have zeros behind its end.
unfoldable pub padded : ℕ → List ℕ → List ℕ
padded zero bs = []
padded (suc n) [] = 0 ∷ padded n []
padded (suc n) (b ∷ bs) = b ∷ padded n bs

abbrev pub dirent_bytes : Dirent → List ℕ
dirent_bytes d = padded 128 d.name ++ (little 4 d.inode ++ little 4 d.kind)

-- `S_IFDIR | 0755`, `S_IFCHR | 0600` and `S_IFREG | 0644`.
abbrev pub mode_of : ℕ → ℕ
mode_of kind = if kind == 2 then 0x41ed else if kind == 3 then 0x2180 else 0x81a4

-- The bytes of `struct stat`.
abbrev pub stat_bytes : Info → List ℕ
stat_bytes i =
    little 8 1
    ++ (little 8 i.inode
        ++ (little 4 (mode_of i.kind)
            ++ (little 4 1
                ++ (little 8 0
                    ++ (little 8 0
                        ++ (little 8 i.size
                            ++ (little 8 512
                                ++ (little 8 ((i.size + 511) % u32 / 512) ++ little 24 0))))))))

-- The loop of `sys_read` over the input, with the polls that are left: `none` is a thread that still waits.
unfoldable pub read_input : ℕ → List ℕ → Bool → Option (List ℕ × List ℕ)
read_input zero polls some_read = some ([], polls)
read_input (suc n) [] some_read = none
read_input (suc n) (c ∷ polls) some_read =
    let rest = read_input n polls true in
    let wait = read_input (suc n) polls false in
    if c == 0
    then (if some_read then some ([], polls) else wait)
    else if c == 10
    then some (c ∷ [], polls)
    else elim rest [ some r ↦ some (c ∷ r.0, r.1) | none ↦ none ]

module _ {S : Type 0} (fs : Fs S) (k : Kernel S) where
  -- A copy of a result into user memory.
  unfoldable pub give : ℕ → List ℕ → ℕ → Machine S → Machine S × ℕ
  give u bytes result m =
      let c = copy_to_user k.accessible u bytes m.memory in
      (record m { memory = c.0 }, if c.1 then result else minus_one)

  unfoldable pub read_console : ℕ → ℕ → Machine S → Option (Machine S × ℕ)
  read_console buf size m = do
    r ← read_input (if ltb 256 size then 256 else size) m.input false
    let m' = record m { input = r.1 }
    some (if length r.0 == 0 then (m', 0) else give buf r.0 (length r.0) m')

  -- The rest of `sys_read`, for a file.
  unfoldable pub read_file : ℕ → ℕ → ℕ → Machine S → Machine S × ℕ
  read_file fd buf size m =
      let offset = get_or m.fd_offset fd 0 in
      let r = vfs_read fs (get_or m.fd_table fd 0) offset (size % u32) m.files in
      let n = length r.1 in
      let m' = record m { files = r.0 } in
      let c = copy_to_user k.accessible buf r.1 m.memory in
      if is_open fd m && k.kmalloc size
      then (if n == 0
          then (m', 0)
          else if c.1
          then (record m' { memory = c.0; fd_offset = set m.fd_offset fd ((offset + n) % u32) }, n)
          else (record m' { memory = c.0 }, minus_one))
      else (m, minus_one)

  unfoldable pub sys_read : ℕ → ℕ → ℕ → Machine S → Option (Machine S × ℕ)
  sys_read fd buf size m =
      if fd == 0 then read_console buf size m else some (read_file fd buf size m)

  unfoldable pub write_console : ℕ → ℕ → Machine S → Machine S × ℕ
  write_console buf size m =
      let n = if ltb 256 size then 256 else size in
      elim (copy_from_user k.accessible n buf m.memory) [
        | some bs ↦ (record m { console = m.console ++ bs }, n)
        | none ↦ (m, minus_one)
      ]

  unfoldable pub write_file : ℕ → ℕ → ℕ → Machine S → Machine S × ℕ
  write_file fd buf size m =
      let offset = get_or m.fd_offset fd 0 in
      if is_open fd m
      then (if k.kmalloc size
          then elim (copy_from_user k.accessible size buf m.memory) [
            | some bs ↦
                let r =
                  vfs_write fs (get_or m.fd_table fd 0) offset (take (size % u32) bs) m.files in
                (
                  record m { files = r.0; fd_offset = set m.fd_offset fd ((offset + r.1) % u32) },
                  r.1,
                )
            | none ↦ (m, minus_one)
          ]
          else (m, minus_one))
      else (m, minus_one)

  unfoldable pub sys_write : ℕ → ℕ → ℕ → Machine S → Machine S × ℕ
  sys_write fd buf size m =
      if fd == 1 || fd == 2 then write_console buf size m else write_file fd buf size m

  -- The end of `sys_open`, for a node that was found.
  unfoldable pub install : ℕ → Machine S → Machine S × ℕ
  install node m = elim (free_place 13 3 m.fd_table) [
    | some i ↦ (record m { fd_table = set m.fd_table i node; fd_offset = set m.fd_offset i 0 }, i)
    | none ↦ (record m { files = vfs_close fs node m.files }, minus_one)
  ]

  -- The node of a path, which is created if the flags say so and there is none.
  unfoldable pub open_or_create : List ℕ → ℕ → S → Option (S × ℕ)
  open_or_create path flags s = do
    r ← vfs_open fs k.cwd_node path s
    (if r.1 == 0 && flags % 2 == 1 then vfs_create fs k.cwd_node path (flags % u32) r.0 else some r)

  unfoldable pub sys_open : ℕ → ℕ → Machine S → Option (Machine S × ℕ)
  sys_open path_ptr flags m = elim (user_path k.accessible path_ptr m.memory) [
    | none ↦ some (m, minus_one)
    | some path ↦ do
      r ← open_or_create path flags m.files
      let m' = record m { files = r.0 }
      some (if r.1 == 0 then (m', minus_one) else install r.1 m')
  ]

  unfoldable pub sys_close : ℕ → Machine S → Machine S × ℕ
  sys_close fd m =
      if ltb fd 3
      then (m, minus_one)
      else if is_open fd m
      then (
        record m {
          files = vfs_close fs (get_or m.fd_table fd 0) m.files;
          fd_table = set m.fd_table fd 0;
          fd_offset = set m.fd_offset fd 0;
        },
        0,
      )
      else (m, minus_one)

  -- What `sys_mkdir` and `sys_unlink` do alike, with the call on the path.
  unfoldable pub with_path : ℕ → (List ℕ → S → Option (S × ℕ)) → Machine S → Option (Machine S × ℕ)
  with_path path_ptr act m = elim (user_path k.accessible path_ptr m.memory) [
    | none ↦ some (m, minus_one)
    | some path ↦ do r ← act path m.files; some (record m { files = r.0 }, r.1)
  ]

  unfoldable pub sys_mkdir : ℕ → ℕ → Machine S → Option (Machine S × ℕ)
  sys_mkdir path_ptr mode = with_path path_ptr (λ path. vfs_mkdir fs k.cwd_node path (mode % u32))

  unfoldable pub sys_unlink : ℕ → Machine S → Option (Machine S × ℕ)
  sys_unlink path_ptr =
      with_path path_ptr
        (λ path s. do r ← vfs_unlink fs k.cwd_node path s; some (r.0, if r.1 then 0 else minus_one))

  unfoldable pub sys_readdir : ℕ → ℕ → ℕ → Machine S → Machine S × ℕ
  sys_readdir fd index dirent_ptr m =
      let r = vfs_readdir fs (get_or m.fd_table fd 0) (index % u32) m.files in
      if is_open fd m
      then elim r.1 [
        | none ↦ (record m { files = r.0 }, 0)
        | some de ↦ give dirent_ptr (dirent_bytes de) 1 (record m { files = r.0 })
      ]
      else (m, minus_one)

  -- `sys_stat` calls `finddir` of the root before it opens the path.
  unfoldable pub sys_stat : ℕ → ℕ → Machine S → Option (Machine S × ℕ)
  sys_stat path_ptr statbuf_ptr m = elim (user_path k.accessible path_ptr m.memory) [
    | none ↦ some (m, minus_one)
    | some path ↦ do
      r ← vfs_open fs k.cwd_node path (fs.finddir fs.root path m.files).0
      let found = k.info r.1 r.0
      some (
          if r.1 == 0
          then (record m { files = r.0 }, minus_one)
          else give statbuf_ptr (stat_bytes found) 0 (record m { files = vfs_close fs r.1 r.0 }))
  ]

  unfoldable pub sys_fstat : ℕ → ℕ → Machine S → Machine S × ℕ
  sys_fstat fd statbuf_ptr m =
      if is_open fd m
      then give statbuf_ptr (stat_bytes (k.info (get_or m.fd_table fd 0) m.files)) 0 m
      else (m, minus_one)
