-- ===== src/Paging/Store.antt =====
-- What a write to a last entry does to the addresses that the tables of
-- kernel/arch/x86_64/paging.cpp give.
use keon_os.Base.{ℕ, ◌≡◌, inl, inr, sym, ap, ◌∙◌, some, if◌then◌else◌, Bool-cases}
use mathlib.Core.Bool.{false≢true}
use keon_os.Paging.{
  Mmu, frame_of, write_entry, current_pml4, upper_indices, pt_index, paging_get_physical_address,
}
use keon_os.Paging.Walk.{follow, leaf}
use keon_os.Paging.Link.{put_walk, put-Apart, put-leaf_here, put-leaf_other}
use keon_os.Paging.Descent.{Sound}
use keon_os.Paging.Translate.{entry, target, paging_get_physical_address_lem}
use keon_os.Paging.Indices.{same_page, same_page-indices, indices-same_page, three_indices}

-- The physical address that `paging_get_physical_address` returns.
abbrev pub gives : Mmu → ℕ → ℕ
gives m a = (paging_get_physical_address a m).1

pub gives-target :
    (root a : ℕ) (m : Mmu) → current_pml4 m ≡ root → gives m a ≡ target (entry a root m) a
gives-target root a m same =
    ap (λ r. r.1) (paging_get_physical_address_lem a m) ∙ ap (λ k. target (entry a k m) a) same

pub same_root : (m m' : Mmu) → m'.cr3 ≡ m.cr3 → current_pml4 m' ≡ current_pml4 m
unfolding current_pml4
same_root m m' e = ap frame_of e

-- A write to the last entry for `virt`.
module _ (root t e virt : ℕ) (m : Mmu) (s : Sound root m)
    (at : follow (upper_indices virt) root m.tables ≡ some t) where
  abbrev pub stored : Mmu
  stored = write_entry t (pt_index virt) e m

  pub stored-Sound : Sound root stored
  unfolding write_entry
  stored-Sound =
      let three = three_indices virt in
      record {
        apart = put-Apart root t (pt_index virt) e (upper_indices virt) m.tables s.apart three at;
        backed = λ p u l there. s.backed p u l (
            sym
              (put_walk root t (pt_index virt) e (upper_indices virt) m.tables s.apart three at p l)
            ∙ there);
        pfa = s.pfa;
        null = s.null;
      }

  pub stored-entry :
      (a : ℕ) → entry a root stored ≡ (if same_page a virt then e else entry a root m)
  unfolding write_entry
  stored-entry a = elim (Bool-cases (same_page a virt)) [
    | inl same ↦
        let (up, low) = same_page-indices a virt same in
        rw same (
          ap (λ p. leaf p (pt_index a) root stored.tables) up
          ∙ ap (λ j. leaf (upper_indices virt) j root stored.tables) low
          ∙ put-leaf_here root t (pt_index virt) e (upper_indices virt) m.tables s.apart
              (three_indices virt) at)
    | inr other ↦ rw other (
        put-leaf_other root t (pt_index virt) e (upper_indices virt) m.tables s.apart
          (three_indices virt) at (upper_indices a) (pt_index a) (three_indices a)
          (λ up low. let same = indices-same_page a virt up low in absurd (false≢true (cc))))
  ]

pub Sound-counted :
    (root n : ℕ) (m : Mmu) → Sound root m → Sound root (record m { mapped_pages = n })
Sound-counted root n m s = record { apart = s.apart; backed = s.backed; pfa = s.pfa; null = s.null }
