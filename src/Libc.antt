-- ===== src/Libc.antt =====
-- The kernel's own C library, libc/string and libc/stdlib: bytes at addresses.
pub mod Memory
pub mod Strings
mod Numbers
use keon_os.Base.{ℕ, ◌==◌, if◌then◌else◌}

abbrev pub Memory : Type 0
Memory = ℕ → ℕ

abbrev pub poke : Memory → ℕ → ℕ → Memory
poke m a v b = if b == a then v else m b
