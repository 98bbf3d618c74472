-- ===== src/Syscall/Safety.antt =====
-- What no system call on files changes, kernel/syscalls/syscalls.cpp, sys_file.cpp and sys_stat.cpp.
pub mod Calls
pub mod Handler
use keon_os.Base.{
  ℕ, zero, suc, ◌+◌, ◌-◌, ◌*◌, ◌/◌, ◌%◌, ◌^◌, ◌≡◌, inl, inr, refl, sym, ap, ◌∙◌, Bool, true, false,
  ◌&&◌, ◌||◌, Option, none, some, List, [], ◌∷◌, ◌++◌, length, get_or, set, take, ltb, leb, ◌==◌,
  if◌then◌else◌, ◌>>=◌, Bool-cases, Option-cases, arith,
}
use mathlib.Core.Bool.{false≢true}
use keon_os.Vfs.{
  Fs, minus_one, vfs_open, vfs_close, vfs_read, vfs_write, vfs_readdir, vfs_unlink, vfs_create,
  vfs_mkdir,
}
use keon_os.Syscall.{u32, u64, Machine, Kernel, store, copy_from_user, copy_to_user, user_path}
use keon_os.Syscall.File.{
  read_input, free_place, give, read_console, read_file, sys_read, write_console, write_file,
  sys_write, install, open_or_create, sys_open, sys_close, with_path, sys_mkdir, sys_unlink,
  sys_readdir, sys_stat, sys_fstat, is_open, dirent_bytes, stat_bytes,
}
use keon_os.Syscall.Dispatch.{SyscallFn, is_other, syscall_table, syscall_handler}

-- `copy_to_user` writes to no address that is not the user's.
copy_to_user-keeps :
    (ok : ℕ → Bool) (bytes : List ℕ) (u a : ℕ) (memory : ℕ → ℕ)
    → ok a ≡ false
    → (copy_to_user ok u bytes memory).0 a ≡ memory a
unfolding copy_to_user
copy_to_user-keeps ok [] u a memory h = refl
copy_to_user-keeps ok (b ∷ bs) u a memory h = elim (Bool-cases (ok (u % u64))) [
  | inr closed ↦ rw closed refl
  | inl granted ↦ elim (Bool-cases (a == u % u64)) [
    | inl same ↦
        let here : a ≡ u % u64 = ground (arith, same) in
        absurd (false≢true (sym h ∙ ap ok here ∙ granted))
    | inr apart ↦
        let kept = copy_to_user-keeps ok bs (u + 1) a (store (u % u64) b memory) h in
        let stored : store (u % u64) b memory a ≡ memory a = rw apart refl in
        rw granted (kept ∙ stored)
  ]
]

-- Memory that is not the user's is as it was.
pub record Kept {S : Type 0} (k : Kernel S) (m m' : Machine S) : Type 0 where
  pub kernel_memory : (a : ℕ) → k.accessible a ≡ false → m'.memory a ≡ m.memory a

-- The same of the outcome of a call, which may have none.
abbrev pub Keeps : {S : Type 0} → Kernel S → Machine S → Option (Machine S × ℕ) → Type 0
Keeps k m none = Unit {0}
Keeps k m (some r) = Kept k m r.0

module _ {S : Type 0} (fs : Fs S) (k : Kernel S) where
  pub same : (m : Machine S) → Kept k m m
  same m = record { kernel_memory = λ a h. refl }

  pub give-Kept :
      (u : ℕ) (bytes : List ℕ) (r : ℕ) (m m' : Machine S)
      → Kept k m m'
      → Kept k m (give fs k u bytes r m').0
  unfolding give
  give-Kept u bytes r m m' h = record {
    kernel_memory = λ a closed.
        copy_to_user-keeps k.accessible bytes u a m'.memory closed ∙ h.kernel_memory a closed;
  }

  -- A choice keeps what both its branches keep.
  pub if-Kept :
      (b : Bool) (m : Machine S) (x y : Machine S × ℕ)
      → Kept k m x.0
      → Kept k m y.0
      → Kept k m (if b then x else y).0
  if-Kept true m x y hx hy = hx
  if-Kept false m x y hx hy = hy

  pub if-Keeps :
      (b : Bool) (m : Machine S) (x y : Option (Machine S × ℕ))
      → Keeps k m x
      → Keeps k m y
      → Keeps k m (if b then x else y)
  if-Keeps true m x y hx hy = hx
  if-Keeps false m x y hx hy = hy

  pub bind-Keeps :
      {A : Type 0} (m : Machine S) (x : Option A) (g : A → Option (Machine S × ℕ))
      → ((r : A) → Keeps k m (g r))
      → Keeps k m (x >>= g)
  unfolding ◌>>=◌
  bind-Keeps m none g h = tt
  bind-Keeps m (some r) g h = h r

  -- Only the files, the input or the console differ.
  pub files_only : (m : Machine S) (s : S) → Kept k m (record m { files = s })
  files_only m s = record { kernel_memory = λ a h. refl }

  pub input_only : (m : Machine S) (polls : List ℕ) → Kept k m (record m { input = polls })
  input_only m polls = record { kernel_memory = λ a h. refl }

  -- The memory after a copy to the user, with the files and perhaps an offset changed.
  pub copied :
      (m : Machine S) (s : S) (u : ℕ) (bytes : List ℕ)
      → Kept k m (record m { files = s; memory = (copy_to_user k.accessible u bytes m.memory).0 })
  copied m s u bytes = record {
    kernel_memory = λ a closed. copy_to_user-keeps k.accessible bytes u a m.memory closed;
  }

  pub at_offset :
      (m m' : Machine S) (fd v : ℕ)
      → Kept k m m'
      → Kept k m (record m' { fd_offset = set m'.fd_offset fd v })
  at_offset m m' fd v h = record { kernel_memory = h.kernel_memory }

  pub in_table :
      (m m' : Machine S) (fd v : ℕ)
      → Kept k m m'
      → Kept k m (record m' { fd_table = set m'.fd_table fd v })
  in_table m m' fd v h = record { kernel_memory = h.kernel_memory }
