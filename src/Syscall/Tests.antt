-- ===== src/Syscall/Tests.antt =====
-- Runs of the calls, and their theorems, in a thread without open files. User memory is below 4 MB, with the path
-- `/f` at 1000; the root is node 1 and its file `f` is node 2, which has the bytes 7, 8, 9.
use keon_os.Base.{
  ℕ, ◌+◌, ◌-◌, ◌≡◌, ◌⊎◌, refl, false, ◌&&◌, some, none, List, [], ◌∷◌, length, set, replicate, ltb,
  leb, ◌==◌, if◌then◌else◌, ◌>>=◌, arith,
}
use keon_os.Vfs.{
  Fs, minus_one, same_bytes, skip_slashes, component, enter, walk, start, vfs_open, vfs_close,
  vfs_read,
}
use keon_os.Syscall.{Machine, Kernel, copy_from_user, copy_to_user, c_string, user_path}
use keon_os.Syscall.File.{
  free_place, is_open, install, open_or_create, read_file, sys_open, sys_close, sys_read, sys_write,
  sys_readdir, sys_fstat,
}
use keon_os.Syscall.Dispatch.{SyscallFn}
use keon_os.Syscall.Descriptors.{Opened, sys_open_lem}
use keon_os.Syscall.Close.{sys_close-fails_after, sys_close-sys_open}

abbrev tree : Fs ℕ
tree = record {
  root = 1;
  parent = λ node s. 1;
  open_node = λ node s. s + 1;
  close_node = λ node s. s - 1;
  finddir = λ node name s. (s, if node == 1 && same_bytes name (102 ∷ []) then 2 else 0);
  read = λ node offset size s. (s, if offset == 0 then 7 ∷ 8 ∷ 9 ∷ [] else []);
  write = λ node offset bytes s. (s, length bytes);
  readdir = λ node index s. (s, none);
  create = λ node name flags s. (s, 0);
  mkdir = λ node name mode s. (s, 0);
  unlink = λ node name s. (s, false);
}

abbrev kernel : Kernel ℕ
kernel = record {
  accessible = λ a. ltb a 0x40_0000;
  kmalloc = λ size. leb size 0x1000;
  cwd_node = 1;
  info = λ node s. record { inode = node; size = 3; kind = 1 };
}

abbrev user_memory : ℕ → ℕ
user_memory a = if a == 1000 then 47 else if a == 1001 then 102 else 0

abbrev fresh : Machine ℕ
fresh = record {
  fd_table = replicate 16 0;
  fd_offset = replicate 16 0;
  memory = user_memory;
  console = [];
  input = [];
  files = 10;
}

abbrev with_file : Machine ℕ
with_file = record fresh { fd_table = set fresh.fd_table 3 2 }

sys_open_run : sys_open tree kernel 1000 0 fresh ≡ some (with_file, 3)
unfolding sys_open user_path copy_from_user c_string open_or_create install free_place vfs_open walk
    start enter component skip_slashes same_bytes ◌>>=◌
sys_open_run = refl

-- The bytes 7, 8 and 9 come to 2000, and the offset is 3.
sys_read_run : (read_file tree kernel 3 2000 100 with_file).1 ≡ 3
unfolding read_file is_open vfs_read copy_to_user
sys_read_run = refl

sys_open_lem_example :
    ((user_path kernel.accessible 1000 fresh.memory ≡ none)
      × (sys_open tree kernel 1000 0 fresh ≡ some (fresh, minus_one)))
    ⊎ ((path : List ℕ) × (user_path kernel.accessible 1000 fresh.memory ≡ some path)
        × Opened tree kernel path 0 fresh (sys_open tree kernel 1000 0 fresh))
sys_open_lem_example = sys_open_lem tree kernel 1000 0 fresh

sys_close-sys_open_example :
    ((sys_close tree kernel 3 with_file).1 ≡ 0)
    × ((sys_close tree kernel 3 with_file).0.fd_table ≡ fresh.fd_table)
    × ((path : List ℕ) × (s : ℕ) × (node : ℕ) × (user_path kernel.accessible 1000 fresh.memory
          ≡ some path)
        × (open_or_create tree kernel path 0 fresh.files ≡ some (s, node))
        × ((sys_close tree kernel 3 with_file).0.files ≡ vfs_close tree node s))
sys_close-sys_open_example =
    sys_close-sys_open tree kernel 1000 0 3 fresh with_file refl sys_open_run
      (λ e. absurd (omega (arith, e)))

sys_close-fails_after_example :
    (sys_read tree kernel 3 2000 8 (sys_close tree kernel 3 with_file).0
      ≡ some ((sys_close tree kernel 3 with_file).0, minus_one))
    × (sys_write tree kernel 3 2000 8 (sys_close tree kernel 3 with_file).0
        ≡ ((sys_close tree kernel 3 with_file).0, minus_one))
    × (sys_readdir tree kernel 3 0 2000 (sys_close tree kernel 3 with_file).0
        ≡ ((sys_close tree kernel 3 with_file).0, minus_one))
    × (sys_fstat tree kernel 3 2000 (sys_close tree kernel 3 with_file).0
        ≡ ((sys_close tree kernel 3 with_file).0, minus_one))
    × (sys_close tree kernel 3 (sys_close tree kernel 3 with_file).0
        ≡ ((sys_close tree kernel 3 with_file).0, minus_one))
unfolding sys_close is_open
sys_close-fails_after_example = sys_close-fails_after tree kernel 3 2000 8 0 with_file refl

abbrev no_others : ℕ → SyscallFn ℕ
no_others num a b c m = some (m, 0)
