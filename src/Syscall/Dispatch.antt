-- ===== src/Syscall/Dispatch.antt =====
-- `syscall_table` and `syscall_handler` of kernel/syscalls/syscalls.cpp. The calls that are not on files
-- (uptime, getpid, sleep, sbrk, load_library, kill, exit, vga, reboot, ps) are the argument `other`.
use keon_os.Base.{ℕ, ◌-◌, Bool, ◌||◌, Option, none, some, ltb, ◌==◌, if◌then◌else◌}
use keon_os.Vfs.{Fs}
use keon_os.Syscall.{u64, Machine, Kernel}
use keon_os.Syscall.File.{
  sys_read, sys_write, sys_open, sys_close, sys_mkdir, sys_unlink, sys_readdir, sys_stat, sys_fstat,
}

-- A call, on its first three arguments; the others are not used.
abbrev pub SyscallFn : Type 0 → Type 0
SyscallFn S = ℕ → ℕ → ℕ → Machine S → Option (Machine S × ℕ)

-- The numbers of the calls that are not on files.
unfoldable pub is_other : ℕ → Bool
is_other num =
    num == 5
    || num == 10
    || num == 11
    || num == 12
    || num == 20
    || num == 37
    || num == 60
    || num == 100
    || num == 161
    || num == 200

-- `-ENOSYS` as a `uint64_t`.
abbrev pub no_such_call : ℕ
no_such_call = u64 - 38

module _ {S : Type 0} (fs : Fs S) (k : Kernel S) (other : ℕ → SyscallFn S) where
  unfoldable pub syscall_table : ℕ → Option (SyscallFn S)
  syscall_table num =
      if num == 0
      then some (λ a b c m. sys_read fs k a b c m)
      else if num == 1
      then some (λ a b c m. some (sys_write fs k a b c m))
      else if num == 2
      then some (λ a b c m. sys_open fs k a b m)
      else if num == 3
      then some (λ a b c m. some (sys_close fs k a m))
      else if num == 4
      then some (λ a b c m. sys_mkdir fs k a b m)
      else if num == 6
      then some (λ a b c m. sys_unlink fs k a m)
      else if num == 7
      then some (λ a b c m. some (sys_readdir fs k a b c m))
      else if num == 8
      then some (λ a b c m. sys_stat fs k a b m)
      else if num == 9
      then some (λ a b c m. some (sys_fstat fs k a b m))
      else if is_other num
      then some (other num)
      else none

  unfoldable pub syscall_handler : ℕ → SyscallFn S
  syscall_handler num a b c m =
      if ltb num 256
      then elim (syscall_table num) [ some fn ↦ fn a b c m | none ↦ some (m, no_such_call) ]
      else some (m, no_such_call)
