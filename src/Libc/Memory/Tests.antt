-- ===== src/Libc/Memory/Tests.antt =====
-- Runs of the memory functions over a memory in which each byte is its address.
use keon_os.Base.{◌%◌, ◌≡◌, refl}
use keon_os.Libc.{Memory}
use keon_os.Libc.Memory.{minus, memmove, memcmp, copy_down}
use keon_os.Libc.Memory.Copy.{Moved, memmove_lem}

abbrev counted : Memory
counted a = a % 256

memmove_run : memmove 12 10 4 counted 14 ≡ 12
unfolding memmove copy_down
memmove_run = refl

memcmp_run : memcmp 10 12 4 counted ≡ minus
unfolding memcmp
memcmp_run = refl

memmove_lem_example : Moved 4 12 10 counted (memmove 12 10 4 counted)
memmove_lem_example = memmove_lem 4 12 10 counted
