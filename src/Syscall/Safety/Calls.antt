-- ===== src/Syscall/Safety/Calls.antt =====
-- What each call of sys_file.cpp and sys_stat.cpp keeps.
use keon_os.Base.{
  ℕ, ◌+◌, ◌%◌, inl, inr, refl, false, ◌&&◌, ◌||◌, Option, some, List, ◌++◌, length, get_or, set,
  take, ltb, ◌==◌, if◌then◌else◌, ◌>>=◌, Bool-cases, Option-cases,
}
use keon_os.Vfs.{
  Fs, minus_one, vfs_open, vfs_close, vfs_read, vfs_write, vfs_readdir, vfs_unlink, vfs_mkdir,
}
use keon_os.Syscall.{u32, Machine, Kernel, copy_from_user, copy_to_user, user_path}
use keon_os.Syscall.File.{
  read_input, free_place, give, read_console, read_file, sys_read, write_console, write_file,
  sys_write, install, open_or_create, sys_open, sys_close, with_path, sys_mkdir, sys_unlink,
  sys_readdir, sys_stat, sys_fstat, is_open, dirent_bytes, stat_bytes,
}
use keon_os.Syscall.Safety.{
  Kept, Keeps, same, give-Kept, if-Kept, if-Keeps, bind-Keeps, files_only, input_only, copied,
  at_offset, in_table,
}

module _ {S : Type 0} (fs : Fs S) (k : Kernel S) where
  read_file-Kept : (fd buf size : ℕ) (m : Machine S) → Kept k m (read_file fs k fd buf size m).0
  unfolding read_file
  read_file-Kept fd buf size m =
      let r = vfs_read fs (get_or m.fd_table fd 0) (get_or m.fd_offset fd 0) (size % u32) m.files in
      let memory' = (copy_to_user k.accessible buf r.1 m.memory).0 in
      let written = copied fs k m r.0 buf r.1 in
      elim (Bool-cases (is_open fd m && k.kmalloc size)) [
        | inr closed ↦ rw (closed) (same fs k m)
        | inl opened ↦ elim (Bool-cases (length r.1 == 0)) [
          | inl nothing ↦ rw (opened, nothing) (files_only fs k m r.0)
          | inr some_bytes ↦ elim (Bool-cases (copy_to_user k.accessible buf r.1 m.memory).1) [
            | inl done ↦
                rw (opened, some_bytes, done)
                  (at_offset fs k m (record m { files = r.0; memory = memory' }) fd
                    ((get_or m.fd_offset fd 0 + length r.1) % u32) written)
            | inr failed ↦ rw (opened, some_bytes, failed) written
          ]
        ]
      ]

  pub sys_read-Keeps : (fd buf size : ℕ) (m : Machine S) → Keeps k m (sys_read fs k fd buf size m)
  unfolding sys_read read_console
  sys_read-Keeps fd buf size m =
      if-Keeps fs k (fd == 0) m (read_console fs k buf size m) (some (read_file fs k fd buf size m))
        (bind-Keeps fs k m (read_input (if ltb 256 size then 256 else size) m.input false)
          (λ r. some (
            if length r.0 == 0
            then (record m { input = r.1 }, 0)
            else give fs k buf r.0 (length r.0) (record m { input = r.1 })))
          (λ r.
            if-Kept fs k (length r.0 == 0) m (record m { input = r.1 }, 0)
              (give fs k buf r.0 (length r.0) (record m { input = r.1 })) (input_only fs k m r.1)
              (give-Kept fs k buf r.0 (length r.0) m (record m { input = r.1 })
                (input_only fs k m r.1))))
        (read_file-Kept fd buf size m)

  console_only : (m : Machine S) (cs : List ℕ) → Kept k m (record m { console = cs })
  console_only m cs = record { kernel_memory = λ a h. refl }

  write_console-Kept : (buf size : ℕ) (m : Machine S) → Kept k m (write_console fs k buf size m).0
  unfolding write_console
  write_console-Kept buf size m =
      elim (Option-cases
        (copy_from_user k.accessible (if ltb 256 size then 256 else size) buf m.memory)) [
          | inr (bs, e) ↦ rw (write_console, e) (console_only m (m.console ++ bs))
          | inl e ↦ rw (write_console, e) (same fs k m)
        ]

  write_file-Kept : (fd buf size : ℕ) (m : Machine S) → Kept k m (write_file fs k fd buf size m).0
  unfolding write_file
  write_file-Kept fd buf size m = elim (Bool-cases (is_open fd m)) [
    | inr closed ↦ rw closed (same fs k m)
    | inl opened ↦ elim (Bool-cases (k.kmalloc size)) [
      | inr full ↦ rw (opened, full) (same fs k m)
      | inl room ↦
          rw (opened, room)
            (elim (Option-cases (copy_from_user k.accessible size buf m.memory)) [
              | inl e ↦ rw e (same fs k m)
              | inr (bs, e) ↦ rw e (
                  let r =
                    vfs_write fs (get_or m.fd_table fd 0) (get_or m.fd_offset fd 0)
                      (take (size % u32) bs) m.files in
                  at_offset fs k m (record m { files = r.0 }) fd
                    ((get_or m.fd_offset fd 0 + r.1) % u32) (files_only fs k m r.0))
            ])
    ]
  ]

  pub sys_write-Kept : (fd buf size : ℕ) (m : Machine S) → Kept k m (sys_write fs k fd buf size m).0
  unfolding sys_write
  sys_write-Kept fd buf size m =
      if-Kept fs k (fd == 1 || fd == 2) m (write_console fs k buf size m)
        (write_file fs k fd buf size m) (write_console-Kept buf size m)
        (write_file-Kept fd buf size m)

  install-Kept : (node : ℕ) (m m' : Machine S) → Kept k m m' → Kept k m (install fs k node m').0
  unfolding install
  install-Kept node m m' h = elim (Option-cases (free_place 13 3 m'.fd_table)) [
    | inr (i, e) ↦
        rw (install, e)
          (at_offset fs k m (record m' { fd_table = set m'.fd_table i node }) i 0
            (in_table fs k m m' i node h))
    | inl e ↦ rw (install, e) (record { kernel_memory = h.kernel_memory })
  ]

  pub sys_open-Keeps :
      (path_ptr flags : ℕ) (m : Machine S) → Keeps k m (sys_open fs k path_ptr flags m)
  unfolding sys_open
  sys_open-Keeps path_ptr flags m = elim (Option-cases (user_path k.accessible path_ptr m.memory)) [
    | inl e ↦ rw (Keeps, sys_open, e) (same fs k m)
    | inr (path, e) ↦
        rw (Keeps, sys_open, e)
          (bind-Keeps fs k m (open_or_create fs k path flags m.files)
            (λ r. some (
              if r.1 == 0
              then (record m { files = r.0 }, minus_one)
              else install fs k r.1 (record m { files = r.0 })))
            (λ r.
              if-Kept fs k (r.1 == 0) m (record m { files = r.0 }, minus_one)
                (install fs k r.1 (record m { files = r.0 })) (files_only fs k m r.0)
                (install-Kept r.1 m (record m { files = r.0 }) (files_only fs k m r.0))))
  ]

  pub sys_close-Kept : (fd : ℕ) (m : Machine S) → Kept k m (sys_close fs k fd m).0
  unfolding sys_close
  sys_close-Kept fd m = elim (Bool-cases (ltb fd 3)) [
    | inl standard ↦ rw standard (same fs k m)
    | inr file ↦ elim (Bool-cases (is_open fd m)) [
      | inr closed ↦ rw (file, closed) (same fs k m)
      | inl opened ↦
          rw (file, opened)
            (let s = vfs_close fs (get_or m.fd_table fd 0) m.files in
              at_offset fs k m (record m { files = s; fd_table = set m.fd_table fd 0 }) fd 0
                (in_table fs k m (record m { files = s }) fd 0 (files_only fs k m s)))
    ]
  ]

  with_path-Keeps :
      (path_ptr : ℕ) (act : List ℕ → S → Option (S × ℕ)) (m : Machine S)
      → Keeps k m (with_path fs k path_ptr act m)
  unfolding with_path
  with_path-Keeps path_ptr act m = elim (Option-cases (user_path k.accessible path_ptr m.memory)) [
    | inl e ↦ rw (Keeps, with_path, e) (same fs k m)
    | inr (path, e) ↦
        rw (Keeps, with_path, e)
          (bind-Keeps fs k m (act path m.files) (λ r. some (record m { files = r.0 }, r.1))
            (λ r. files_only fs k m r.0))
  ]

  pub sys_readdir-Kept :
      (fd index dirent_ptr : ℕ) (m : Machine S)
      → Kept k m (sys_readdir fs k fd index dirent_ptr m).0
  unfolding sys_readdir
  sys_readdir-Kept fd index dirent_ptr m =
      let r = vfs_readdir fs (get_or m.fd_table fd 0) (index % u32) m.files in
      elim (Bool-cases (is_open fd m)) [
        | inr closed ↦ rw closed (same fs k m)
        | inl opened ↦ rw opened (elim (Option-cases r.1) [
          | inl e ↦ rw e (files_only fs k m r.0)
          | inr (de, e) ↦ rw e (
              give-Kept fs k dirent_ptr (dirent_bytes de) 1 m (record m { files = r.0 })
                (files_only fs k m r.0))
        ])
      ]

  pub sys_mkdir-Keeps :
      (path_ptr mode : ℕ) (m : Machine S) → Keeps k m (sys_mkdir fs k path_ptr mode m)
  unfolding sys_mkdir
  sys_mkdir-Keeps path_ptr mode =
      with_path-Keeps path_ptr (λ path. vfs_mkdir fs k.cwd_node path (mode % u32))

  pub sys_unlink-Keeps : (path_ptr : ℕ) (m : Machine S) → Keeps k m (sys_unlink fs k path_ptr m)
  unfolding sys_unlink
  sys_unlink-Keeps path_ptr =
      with_path-Keeps path_ptr
        (λ path s. do r ← vfs_unlink fs k.cwd_node path s; some (r.0, if r.1 then 0 else minus_one))

  pub sys_stat-Keeps :
      (path_ptr statbuf_ptr : ℕ) (m : Machine S) → Keeps k m (sys_stat fs k path_ptr statbuf_ptr m)
  unfolding sys_stat
  sys_stat-Keeps path_ptr statbuf_ptr m =
      elim (Option-cases (user_path k.accessible path_ptr m.memory)) [
        | inl e ↦ rw (Keeps, sys_stat, e) (same fs k m)
        | inr (path, e) ↦
            rw (Keeps, sys_stat, e)
              (bind-Keeps fs k m (vfs_open fs k.cwd_node path (fs.finddir fs.root path m.files).0)
                (λ r. some (
                  if r.1 == 0
                  then (record m { files = r.0 }, minus_one)
                  else give fs k statbuf_ptr (stat_bytes (k.info r.1 r.0)) 0
                      (record m { files = vfs_close fs r.1 r.0 })))
                (λ r.
                  if-Kept fs k (r.1 == 0) m (record m { files = r.0 }, minus_one)
                    (give fs k statbuf_ptr (stat_bytes (k.info r.1 r.0)) 0
                      (record m { files = vfs_close fs r.1 r.0 }))
                    (files_only fs k m r.0)
                    (give-Kept fs k statbuf_ptr (stat_bytes (k.info r.1 r.0)) 0 m
                      (record m { files = vfs_close fs r.1 r.0 })
                      (files_only fs k m (vfs_close fs r.1 r.0)))))
      ]

  pub sys_fstat-Kept :
      (fd statbuf_ptr : ℕ) (m : Machine S) → Kept k m (sys_fstat fs k fd statbuf_ptr m).0
  unfolding sys_fstat
  sys_fstat-Kept fd statbuf_ptr m = elim (Bool-cases (is_open fd m)) [
    | inr closed ↦ rw closed (same fs k m)
    | inl opened ↦ rw opened (
        give-Kept fs k statbuf_ptr (stat_bytes (k.info (get_or m.fd_table fd 0) m.files)) 0 m m
          (same fs k m))
  ]
