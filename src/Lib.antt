-- ===== src/Lib.antt =====
-- keonOS: the parts of the kernel that manage memory, threads and files, and the theorems that
-- make them correct.
--
-- Numbers are natural numbers; where the code computes in a `uint64_t`, a `size_t` or a `uint32_t`,
-- the wrap is written out as `% 2 ^ w`. A function that changes state takes the state and returns
-- the new one. Each spin lock makes the calls under it atomic, so a call is one step.
--
-- Heap (mm/heap.cpp): `Heap.antt` has the chain of `heap_block` headers as a list in the order of
-- the `next` links, with `kheap_init`, `kmalloc`, `kfree` and `kheap_get_stats`. `VMM::sbrk` is an
-- argument of `kmalloc`, over a state of its own; what the heap relies on is the hypothesis
-- `Heap.Malloc.Grows`. `Heap/Layout.antt` says where blocks lie, `Heap/Malloc.antt` and
-- `Heap/Free.antt` are about the two operations.
--
-- Pfa (kernel/arch/x86_64/paging.cpp, up to line 181): `Pfa.antt` has the bitmap of frames and its
-- operations, `Pfa/Multiboot.antt` the initialisation from the boot loader's memory map.
-- `Pfa/Bitmap.antt` reads the bitmap as a set, `Pfa/Alloc.antt` is about the search,
-- `Pfa/Count.antt` the invariant, and `Pfa/Multiboot/Init.antt` the state after boot.
--
-- Paging (kernel/arch/x86_64/paging.cpp, from line 187): `Paging.antt` has the four-level tables by
-- their physical addresses, `get_pte` and the calls over it; it takes frames from Pfa.
-- `Paging/Walk.antt` reads a table as a tree of paths, `Paging/Link.antt` has the two kinds of
-- writes, `Paging/Descent.antt` and `Paging/Prepare.antt` the loop of `get_pte`,
-- `Paging/Translate.antt` the translation, `Paging/Indices.antt` and `Paging/Store.antt` pages and
-- last entries, and `Paging/Map.antt`, `Paging/Frames.antt` and `Paging/Unmap.antt` the two calls. The TLB is
-- left out. `Paging/Fresh.antt` is about the frame that `pfa_alloc_frame` clears, `Paging/Extend.antt` about pages in a
-- row that get such frames, and `Paging/User.antt` about pages that a user may reach. `Paging/Empty.antt` is a state for runs.
--
-- Vmm (mm/vmm.cpp): `Vmm.antt` has the kernel's break over the page tables; `Vmm/Sbrk.antt` is
-- about the break that `VMM::sbrk` moves and the heap over it, `Vmm/Pages.antt` about the pages that it maps.
--
-- Keyboard (drivers/keyboard.cpp): `Keyboard.antt` has the translation of scan codes and the ring of
-- characters, with the calls into the scheduler; `Keyboard/Queue.antt` reads the ring as a
-- queue.
--
-- Vfs (fs/vfs.cpp, include/fs/vfs_node.h): `Vfs.antt` has the walk of `vfs_open` and the calls over nodes. The
-- virtual methods of `VFSNode` are the record `Vfs.Fs` of functions over an unknown state.
-- `Vfs/Resolve.antt` has the walk over a list of names. `Vfs/Nodes.antt` has the directories that
-- the kernel makes, with `Vfs/Nodes/Listing.antt`, and `Vfs/Keonfs.antt` (fs/ramfs_vfs.cpp) the
-- archive in memory, with `Vfs/Keonfs/Bounds.antt`.
--
-- Fat32 (fs/fat32_vfs.cpp): `Fat32.antt` has the allocation table, over a disk of sectors of words;
-- `Fat32/Table.antt` reads it as a map, `Fat32/Allocate.antt` and `Fat32/Chain.antt` are about the
-- search for a free cluster and the freeing of a chain. `Fat32/File.antt` has `FAT32_File`:
-- `Fat32/File/Read.antt` and `Fat32/File/Whole.antt` are about reading, `Fat32/File/Bytes.antt`
-- about bytes in a sector. `Fat32/Name.antt` has the 8.3 names, with `Fat32/Name/Round.antt`.
-- `Fat32/Dir.antt` has the look-up and the listing of `FAT32_Directory`, `Fat32/Dir/Find.antt`
-- the list of entries behind the look-up, `Fat32/Dir/Change.antt` create, mkdir and unlink, and
-- `Fat32/Dir/Change/Create.antt` the entry that create writes. `kmalloc` of a buffer for a
-- cluster succeeds, as the code takes it to.
--
-- Syscall (kernel/syscalls): `Syscall.antt` has the state of a thread's files and the copies between user memory
-- and the kernel, `Syscall/File.antt` the calls of sys_file.cpp and sys_stat.cpp over Vfs,
-- `Syscall/Dispatch.antt` the table and the handler of syscalls.cpp, with the calls that are not
-- on files as an argument. `Syscall/Safety.antt` and its children are about what calls
-- keep, `Syscall/Descriptors.antt` and `Syscall/Close.antt` about descriptors. `Syscall/Break.antt` has sys_sbrk of sys_mem.cpp over Paging,
-- `Syscall/Break/Grown.antt` is about its loop and `Syscall/Break/Moved.antt` about its answers.
--
-- Vga (drivers/vga.cpp): `Vga.antt` has the text screen, and `Vga/Inside.antt` is about the cells and the
-- cursor. The ports keep only the place of the cursor.
--
-- Exec (kernel/exec/kex_loader.cpp): `Exec.antt` has the headers and the loading of one segment,
-- `Exec/Load.antt` kex_load, `Exec/Library.antt` kdl_load with its relocations. They use the files of
-- Vfs and the page tables of Paging; what they ask of threads is the record
-- `Exec.Load.Threads`. Memory is the bytes at virtual addresses, and a write to a page that is not mapped is a fault.
-- That two pages share a frame does not show in it: the loaders map new frames, which nothing else uses. `Exec/Pages.antt` is about the pages of a segment, `Exec/Segment.antt` about memory behind it,
-- `Exec/Reject.antt` about files that are not loaded.
--
-- Libc (libc/string, libc/stdlib): `Libc/Memory.antt` has memcpy, memmove, memset and memcmp on bytes at
-- addresses; `Libc/Memory/Copy.antt` and `Libc/Memory/Compare.antt` are about them. `Libc/Strings.antt` has
-- the string functions; `Libc/Strings/Copy.antt` and `Libc/Strings/Order.antt` are about
-- strlen, strcpy, strcat and strcmp. `Libc/Numbers.antt` has strtoul of libc/stdlib, with `Libc/Numbers/Parse.antt`, and
-- `Libc/Numbers/Print.antt` ulltoa, utoa and itoa: `Libc/Numbers/Digits.antt`,
-- `Libc/Numbers/Write.antt` and `Libc/Numbers/Turn.antt` are about their loops,
-- `Libc/Numbers/Round.antt` about strtoul behind ulltoa.
--
-- Thread (kernel/arch/x86_64/thread.cpp, drivers/timer.cpp): `Thread.antt` has the circle of
-- threads, `yield`, and the calls that change the circle. The circle is a list from any of its
-- threads on; pointers are addresses. `Thread/Ring.antt` has the facts about walks,
-- `Thread/Choice.antt` the choice of `yield`, `Thread/Fairness.antt` that it reaches each ready
-- thread, `Thread/Invariant.antt` and `Thread/Reach.antt` the invariant, `Thread/Bury.antt` and `Thread/Exit.antt` the death of
-- threads. A tick that comes between the unlock of `thread_exit` and its `yield` is not modelled: it would walk from the current
-- thread along the links of the zombie list. The
-- registers that `switch_context` saves and the fields of `thread_t` that these functions do not
-- read (the saved stack pointer, the memory layout, the file table) are left out.
--
-- Loops run over lists or counted rounds, but for these kinds, which take fuel. The string loops, and those of
-- `strtoul`, have the number of bytes that they may read; the loop of `vfs_open` has the length of
-- the path and one more, and that of `FAT32_File::read` the number of bytes and one more;
-- ulltoa has the number of digits, for which 64 is enough;
-- the loops over a chain of clusters have the number of rounds, for which one more than the
-- length of the chain is enough where a theorem below is about them, and the result `none`
-- when the fuel is used up; so has the loop over the dynamic table of a library, which ends at
-- an entry that the file holds.
--
-- Not modelled: the drivers' port input and output, the boot assembly, the i386 code, the shell, printing, the
-- system calls on processes and on the screen, the block device node of the VFS, and the ext4
-- file system.
mod Base
pub mod Heap
pub mod Pfa
pub mod Thread
pub mod Paging
pub mod Vmm
pub mod Libc
pub mod Keyboard
pub mod Fat32
pub mod Vfs
pub mod Syscall
pub mod Exec
pub mod Vga
