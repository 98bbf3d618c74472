-- ===== src/Paging/Descent.antt =====
-- `get_pte` of kernel/arch/x86_64/paging.cpp on tables that form a tree.
use keon_os.Base.{
  ℕ, zero, suc, set_bit, test_bit-set_bit, test_bit-set_bit_ne, ◌*◌, ◌/◌, ◌≤◌, ◌<◌, ◌≡◌, ◌≢◌, inl,
  inr, refl, sym, ap, ◌∙◌, true, false, ◌&&◌, some, List, [], ◌∷◌, ◌++◌, length, ◌==◌, Bool-cases,
  arith,
}
use mathlib.Core.Bool.{false≢true}
use keon_os.Pfa.{page_size, frame_used}
use keon_os.Pfa.Count.{Inv, Takes}
use keon_os.Paging.{Mmu, is_present, frame_of, is_user, is_rw, widen, table_entry, write_entry}
use keon_os.Paging.Walk.{follow, Apart, leaf, put, clear, follow_agree, leaf-same, Apart-ne}
use keon_os.Paging.Link.{Linkable, linked, linked-some, linked-Apart, linked-leaf, linked-new}

pub frame_of-set_bit : (k e : ℕ) → k ≤ 2 → frame_of (set_bit k e) ≡ frame_of e
unfolding set_bit
frame_of-set_bit zero e l = omega arith
frame_of-set_bit (suc zero) e l = omega arith
frame_of-set_bit (suc (suc zero)) e l = omega arith
frame_of-set_bit (suc (suc (suc k))) e l = absurd (omega arith)

pub widen-frame_of : (flags e : ℕ) → frame_of (widen flags e) ≡ frame_of e
unfolding widen
widen-frame_of flags e = elim (Bool-cases (is_user flags)) [
  | inl u ↦ elim (Bool-cases (is_rw flags)) [
    | inl w ↦
        rw (u, w)
          (frame_of-set_bit 1 (set_bit 2 e) (omega arith) ∙ frame_of-set_bit 2 e (omega arith))
    | inr w ↦ rw (u, w) (frame_of-set_bit 2 e (omega arith))
  ]
  | inr u ↦ elim (Bool-cases (is_rw flags)) [
    | inl w ↦ rw (u, w) (frame_of-set_bit 1 e (omega arith))
    | inr w ↦ rw (u, w) refl
  ]
]

pub is_present-widen : (flags e : ℕ) → is_present (widen flags e) ≡ is_present e
unfolding widen
is_present-widen flags e = elim (Bool-cases (is_user flags)) [
  | inl u ↦ elim (Bool-cases (is_rw flags)) [
    | inl w ↦
        rw (u, w)
          (test_bit-set_bit_ne 0 1 (set_bit 2 e) (omega arith)
            ∙ test_bit-set_bit_ne 0 2 e (omega arith))
    | inr w ↦ rw (u, w) (test_bit-set_bit_ne 0 2 e (omega arith))
  ]
  | inr u ↦ elim (Bool-cases (is_rw flags)) [
    | inl w ↦ rw (u, w) (test_bit-set_bit_ne 0 1 e (omega arith))
    | inr w ↦ rw (u, w) refl
  ]
]

-- A link has its present bit and the address of its table.
pub table_entry_lem :
    (flags f : ℕ)
    → (is_present (table_entry flags (f * page_size)) ≡ true)
      × (frame_of (table_entry flags (f * page_size)) ≡ f * page_size)
unfolding table_entry
table_entry_lem flags f =
    let z = f * page_size in
    let e = set_bit 1 (set_bit 0 z) in
    let present : is_present e ≡ true =
      test_bit-set_bit_ne 0 1 (set_bit 0 z) (omega arith) ∙ test_bit-set_bit 0 z in
    let aligned : frame_of z ≡ z = omega arith in
    let address : frame_of e ≡ z =
      frame_of-set_bit 1 (set_bit 0 z) (omega arith)
      ∙ frame_of-set_bit 0 z (omega arith)
      ∙ aligned in
    elim (Bool-cases (is_user flags)) [
      | inl u ↦ rw u (
        test_bit-set_bit_ne 0 2 e (omega arith) ∙ present,
        frame_of-set_bit 2 e (omega arith) ∙ address,
      )
      | inr u ↦ rw u (present, address)
    ]

-- The tables form a tree, each in a frame in use, and frame 0 is in use.
pub record Sound (root : ℕ) (m : Mmu) : Type 0 where
  pub apart : Apart root m.tables
  pub backed :
      (p : List ℕ) (t : ℕ)
      → length p ≤ 3
      → follow p root m.tables ≡ some t
      → frame_used m.pfa.bitmap (t / page_size) ≡ true
  pub pfa : Inv m.pfa
  pub null : frame_used m.pfa.bitmap 0 ≡ true

-- What stays when a walk prepares the upper tables.
pub record Kept (root : ℕ) (m m' : Mmu) : Type 0 where
  pub sound : Sound root m'
  pub leaves :
      (q : List ℕ) (j : ℕ) → length q ≡ 3 → leaf q j root m'.tables ≡ leaf q j root m.tables
  pub cr3 : m'.cr3 ≡ m.cr3
  pub mapped_pages : m'.mapped_pages ≡ m.mapped_pages

pub Kept-trans : (root : ℕ) (a b c : Mmu) → Kept root a b → Kept root b c → Kept root a c
Kept-trans root a b c ab bc = record {
  sound = bc.sound;
  leaves = λ q j l. bc.leaves q j l ∙ ab.leaves q j l;
  cr3 = bc.cr3 ∙ ab.cr3;
  mapped_pages = bc.mapped_pages ∙ ab.mapped_pages;
}

-- An existing entry gets flags.
module _ (flags root t i : ℕ) (p : List ℕ) (m : Mmu) (s : Sound root m)
    (at : follow p root m.tables ≡ some t) (short : length p < 3) where
  abbrev pub widened : Mmu
  widened = write_entry t i (widen flags (m.tables t i)) m

  pub widen_walk : (q : List ℕ) → follow q root widened.tables ≡ follow q root m.tables
  unfolding write_entry
  widen_walk q =
      follow_agree m.tables widened.tables
        (λ u j. entry is_present u j (is_present-widen flags (m.tables t i)))
        (λ u j. entry frame_of u j (widen-frame_of flags (m.tables t i))) q root
    where
      entry :
          {A : Type 0} (f : ℕ → A) (u j : ℕ)
          → f (widen flags (m.tables t i)) ≡ f (m.tables t i)
          → f (put t i (widen flags (m.tables t i)) m.tables u j) ≡ f (m.tables u j)
      entry f u j e = elim (Bool-cases (u == t && j == i)) [
        | inl hit ↦
            let (here, index) : (u ≡ t) × (j ≡ i) = ground arith in
            rw hit (e ∙ ap f (ap (λ k. m.tables k i) (sym here) ∙ ap (m.tables u) (sym index)))
        | inr other ↦ rw other refl
      ]

  pub widened-Kept : Kept root m widened
  unfolding write_entry
  widened-Kept = record {
    sound = record {
      apart = λ q r u lq lr eq er.
          s.apart q r u lq lr (sym (widen_walk q) ∙ eq) (sym (widen_walk r) ∙ er);
      backed = λ q u l e. s.backed q u l (sym (widen_walk q) ∙ e);
      pfa = s.pfa;
      null = s.null;
    };
    leaves = λ q j l. leaf-same q j root m.tables widened.tables (widen_walk q) (λ u there.
        let elsewhere : u ≢ t =
          Apart-ne root m.tables p q t u s.apart (omega arith) (omega arith) at there in
        let other : (u == t && j == i) ≡ false = ground (arith, elsewhere) in rw other refl);
    cr3 = refl;
    mapped_pages = refl;
  }

-- A new table from the allocator is linked.
module _ (flags root t i f : ℕ) (p : List ℕ) (m a : Mmu) (s : Sound root m)
    (at : follow p root m.tables ≡ some t) (short : length p < 3)
    (gap : is_present (m.tables t i) ≡ false) (got : Takes m.pfa f a.pfa)
    (cleared : a.tables ≡ clear (f * page_size) m.tables) (same_cr3 : a.cr3 ≡ m.cr3)
    (same_count : a.mapped_pages ≡ m.mapped_pages) where
  abbrev pub joined : Mmu
  joined = write_entry t i (table_entry flags (f * page_size)) a

  table_entry-Linkable :
      Linkable root t i (f * page_size) (table_entry flags (f * page_size)) p m.tables
  table_entry-Linkable = record {
    at = at;
    short = short;
    gap = gap;
    fresh = λ r u l there same.
        let number : u / page_size ≡ f = omega arith in
        let used : frame_used m.pfa.bitmap f ≡ true = rw (sym number) (s.backed r u l there) in
        let free = got.was_free in absurd (false≢true (cc));
    present = (table_entry_lem flags f).0;
    address = (table_entry_lem flags f).1;
  }

  still_used : (g : ℕ) → frame_used m.pfa.bitmap g ≡ true → frame_used a.pfa.bitmap g ≡ true
  still_used g used = elim (Bool-cases (f == g)) [
    | inl here ↦ got.used g ∙ rw here refl
    | inr there ↦ got.used g ∙ rw there used
  ]

  joined_tables :
      joined.tables ≡ linked t i (f * page_size) (table_entry flags (f * page_size)) m.tables
  unfolding write_entry
  joined_tables = ap (put t i (table_entry flags (f * page_size))) cleared

  joined_walk :
      (q : List ℕ)
      → follow q root joined.tables
        ≡ follow q root (linked t i (f * page_size) (table_entry flags (f * page_size)) m.tables)
  joined_walk q = ap (follow q root) joined_tables

  joined-backed :
      (q : List ℕ) (u : ℕ)
      → length q ≤ 3
      → follow q root joined.tables ≡ some u
      → frame_used a.pfa.bitmap (u / page_size) ≡ true
  joined-backed q u l there =
      elim (linked-some root t i (f * page_size) (table_entry flags (f * page_size)) p m.tables
        s.apart table_entry-Linkable q u l (sym (joined_walk q) ∙ there)) [
          | inl old ↦ still_used (u / page_size) (s.backed q u l old)
          | inr (_, new) ↦
              let number : u / page_size ≡ f = omega arith in
              let here : (f == f) ≡ true = ground arith in rw number (got.used f ∙ rw here refl)
        ]

  pub joined-Kept : Kept root m joined
  unfolding write_entry
  joined-Kept =
      let z = f * page_size in
      let e = table_entry flags z in
      record {
        sound = record {
          apart = λ q r u lq lr eq er.
              linked-Apart root t i z e p m.tables s.apart table_entry-Linkable q r u lq lr
                (sym (joined_walk q) ∙ eq) (sym (joined_walk r) ∙ er);
          backed = joined-backed;
          pfa = got.inv;
          null = still_used 0 s.null;
        };
        leaves = λ q j l.
            ap (leaf q j root) joined_tables
            ∙ linked-leaf root t i z e p m.tables s.apart table_entry-Linkable q j l;
        cr3 = same_cr3;
        mapped_pages = same_count;
      }

  pub joined-at : follow (p ++ i ∷ []) root joined.tables ≡ some (f * page_size)
  joined-at =
      joined_walk (p ++ i ∷ [])
      ∙ linked-new root t i (f * page_size) (table_entry flags (f * page_size)) p m.tables s.apart
          table_entry-Linkable
