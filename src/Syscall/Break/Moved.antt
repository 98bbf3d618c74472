-- ===== src/Syscall/Break/Moved.antt =====
-- The answers of `sys_sbrk` of kernel/syscalls/sys_mem.cpp, with the pages behind them.
use keon_os.Base.{ℕ, ◌+◌, ◌%◌, ◌<◌, ◌≤◌, ◌≡◌, ◌⊎◌, false}
use keon_os.Pfa.{page_size, u64}
use keon_os.Paging.{Mmu}
use keon_os.Paging.Frames.{page_start}
use keon_os.Paging.Fresh.{Exhausted}
use keon_os.Paging.User.{IsPresent}
use keon_os.Vmm.{minus_one}
use keon_os.Syscall.Break.{UserSpace}

-- Every page from that of the old break up to the new one is present.
abbrev pub Backed : ℕ → ℕ → Mmu → Type 0
Backed old new m = (p : ℕ) → p % page_size ≡ 0 → page_start old ≤ p → p < new → IsPresent m p

-- The break, the result and the pages, after a call that fails or succeeds.
abbrev pub Moved : ℕ → UserSpace → UserSpace × ℕ → Type 0
Moved increment u r =
    let new = (u.user_heap_break + increment) % u64 in
    ((r.1 ≡ minus_one)
      × (r.0.user_heap_break ≡ u.user_heap_break)
      × ((u.is_user ≡ false) ⊎ Exhausted r.0.mmu))
    ⊎ ((r.1 ≡ u.user_heap_break)
        × (((increment ≡ 0) × (r.0 ≡ u))
            ⊎ ((r.0.user_heap_break ≡ new)
                × (Exhausted r.0.mmu ⊎ Backed u.user_heap_break new r.0.mmu))))
