-- ===== src/Syscall/Break/Tests.antt =====
-- A run of `sys_sbrk` of kernel/syscalls/sys_mem.cpp where the page of the break has a frame.
use keon_os.Base.{true}
use keon_os.Paging.{Mmu, paging_map_page}
use keon_os.Paging.Empty.{empty}
use keon_os.Syscall.Break.{UserSpace}
use keon_os.Syscall.Break.Moved.{Moved}

abbrev mapped : Mmu
mapped = paging_map_page 0x40_0000 0x5000 7 empty

abbrev program : UserSpace
program = record { mmu = mapped; is_user = true; user_heap_break = 0x40_0123 }
