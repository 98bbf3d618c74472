-- ===== src/Syscall/Safety/Handler.antt =====
-- `syscall_handler` of kernel/syscalls/syscalls.cpp keeps what its calls keep.
use keon_os.Base.{ℕ, Option, none, some}
use keon_os.Syscall.{Kernel}
use keon_os.Syscall.Dispatch.{SyscallFn}
use keon_os.Syscall.Safety.{Keeps}

-- A call that the table may have for a number.
abbrev FnKeeps : {S : Type 0} → Kernel S → Option (SyscallFn S) → Type 0
FnKeeps k none = Unit {0}
FnKeeps k (some fn) = (a b c : ℕ) (m : _) → Keeps k m (fn a b c m)
