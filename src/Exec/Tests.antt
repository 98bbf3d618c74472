-- ===== src/Exec/Tests.antt =====
-- A segment of 8 bytes at 0x400010, of which the file has 3, in a machine of 64 frames.
use keon_os.Base.{ℕ, ◌+◌, ◌-◌, false, none, [], ◌∷◌, ◌==◌, if◌then◌else◌}
use keon_os.Paging.Empty.{empty}
use keon_os.Vfs.{Fs, same_bytes}
use keon_os.Exec.{World, Phdr}
use keon_os.Exec.Load.{Threads}

-- The root 1 has a file `p`, node 2, of three bytes.
abbrev tree : Fs ℕ
tree = record {
  root = 1;
  parent = λ node s. 1;
  open_node = λ node s. s + 1;
  close_node = λ node s. s - 1;
  finddir = λ node name s. (s, if same_bytes name (112 ∷ []) then 2 else 0);
  read = λ node offset size s. (s, if node == 2 then 7 ∷ 8 ∷ 9 ∷ [] else []);
  write = λ node offset bytes s. (s, 0);
  readdir = λ node index s. (s, none);
  create = λ node name flags s. (s, 0);
  mkdir = λ node name mode s. (s, 0);
  unlink = λ node name s. (s, false);
}

abbrev world : World ℕ
world = record { files = 0; mmu = empty; memory = λ a. 255; faulted = false }

abbrev segment : Phdr
segment = record { p_type = 1; p_offset = 0; p_vaddr = 0x40_0010; p_filesz = 3; p_memsz = 8 }

-- A count of threads.
abbrev threads : Threads ℕ
threads = record {
  add = λ entry path t. (t + 1, 0x9000);
  kill = λ thread low high t. t - 1;
  start = λ thread low high heap t. (t, 5);
}
