-- ===== src/Syscall.antt =====
-- The system calls on files and their dispatch, kernel/syscalls/syscalls.cpp, sys_file.cpp and sys_stat.cpp: the
-- current thread's files, and the copies between user memory and the kernel.
pub mod File
pub mod Break
pub mod Dispatch
pub mod Descriptors
pub mod Close
pub mod Safety
mod Tests
use keon_os.Base.{
  ℕ, zero, suc, ◌+◌, ◌-◌, ◌*◌, ◌/◌, ◌%◌, ◌^◌, Bool, true, false, Option, none, some, List, [], ◌∷◌,
  ◌++◌, length, ltb, leb, ◌==◌, if◌then◌else◌,
}

abbrev pub u32 : ℕ
u32 = 2 ^ 32

abbrev pub u64 : ℕ
u64 = 2 ^ 64

-- What `stat` takes of a node.
pub record Info : Type 0 where
  pub inode : ℕ
  pub size : ℕ
  pub kind : ℕ

-- `fd_table` and `fd_offset` of the current thread, user memory by its addresses, the console's characters, what
-- each poll of keyboard and serial line gives (0 for nothing), and the state of the file systems.
pub record Machine (S : Type 0) : Type 0 where
  pub fd_table : List ℕ
  pub fd_offset : List ℕ
  pub memory : ℕ → ℕ
  pub console : List ℕ
  pub input : List ℕ
  pub files : S

-- `paging_is_user_accessible`, whether `kmalloc` has a block of a size, the working directory and the numbers in a
-- node.
pub record Kernel (S : Type 0) : Type 0 where
  pub accessible : ℕ → Bool
  pub kmalloc : ℕ → Bool
  pub cwd_node : ℕ
  pub info : ℕ → S → Info

-- The bytes at the `n` addresses from `u` on, if all of them are the user's.
unfoldable pub copy_from_user : (ℕ → Bool) → ℕ → ℕ → (ℕ → ℕ) → Option (List ℕ)
copy_from_user ok zero u memory = some []
copy_from_user ok (suc n) u memory =
    let rest = copy_from_user ok n (u + 1) memory in
    if ok (u % u64)
    then elim rest [ some bs ↦ some (memory (u % u64) ∷ bs) | none ↦ none ]
    else none

abbrev pub store : ℕ → ℕ → (ℕ → ℕ) → ℕ → ℕ
store at v memory a = if a == at then v else memory a

-- The bytes before the first address that is not the user's are written also when the copy fails.
unfoldable pub copy_to_user : (ℕ → Bool) → ℕ → List ℕ → (ℕ → ℕ) → (ℕ → ℕ) × Bool
copy_to_user ok u [] memory = (memory, true)
copy_to_user ok u (b ∷ bs) memory =
    let rest = copy_to_user ok (u + 1) bs (store (u % u64) b memory) in
    if ok (u % u64) then rest else (memory, false)

-- A buffer as a C string.
unfoldable pub c_string : List ℕ → List ℕ
c_string [] = []
c_string (b ∷ bs) = let rest = c_string bs in if b == 0 then [] else b ∷ rest

-- The path at an address: 255 bytes are copied, and the last byte of the buffer is 0.
unfoldable pub user_path : (ℕ → Bool) → ℕ → (ℕ → ℕ) → Option (List ℕ)
user_path ok path_ptr memory = elim (copy_from_user ok 255 path_ptr memory) [
  | some bs ↦ some (c_string bs)
  | none ↦ none
]

-- `n` bytes of a number, the low one first.
abbrev pub little : ℕ → ℕ → List ℕ
little zero w = []
little (suc n) w = (w % 256) ∷ little n (w / 256)
