-- ===== src/Fat32/Allocate.antt =====
-- `allocate_cluster` of fs/fat32_vfs.cpp.
use keon_os.Base.{
  ℕ, zero, suc, ◌+◌, ◌-◌, ◌*◌, ◌%◌, ◌^◌, ◌≤◌, ◌<◌, ◌≡◌, ◌≢◌, ◌⊎◌, inl, inr, refl, sym, ap, ◌∙◌,
  Option, none, some, ltb, ◌==◌, if◌then◌else◌, Bool-cases, arith,
}
use mathlib.Core.Path.{subst}
use keon_os.Fat32.{
  Fat32, u32, last_cluster, write_word, fat_sector, fat_word, get_next_cluster, free_entry,
  allocate_from, allocate_cluster,
}
use keon_os.Fat32.Table.{IsMounted, IsInside, fat_sector_lem, next-write}

-- The first free entry of the `n` from `j` on, or that there is none.
abbrev Searched : ℕ → ℕ → (ℕ → ℕ) → Option ℕ → Type 0
Searched n j entries r =
    ((r ≡ none) × ((k : ℕ) → j ≤ k → k < j + n → entries k % 2 ^ 28 ≢ 0))
    ⊎ ((k : ℕ) × (r ≡ some k)
        × (j ≤ k)
        × (k < j + n)
        × (entries k % 2 ^ 28 ≡ 0)
        × ((l : ℕ) → j ≤ l → l < k → entries l % 2 ^ 28 ≢ 0))

free_entry_lem : (n j : ℕ) (entries : ℕ → ℕ) → Searched n j entries (free_entry n j entries)
unfolding free_entry
free_entry_lem zero j entries = inl (refl, λ k low high e. omega arith)
free_entry_lem (suc n) j entries = elim (Bool-cases (entries j % 2 ^ 28 == 0)) [
  | inl free ↦
      rw free
        (inr (j, refl, omega arith, omega arith, ground (arith, free), λ l low high e. omega arith))
  | inr used ↦
      let here : entries j % 2 ^ 28 ≢ 0 = ground (arith, used) in
      elim (free_entry_lem n (j + 1) entries) [
        | inl (e, all) ↦
            rw (used, e) (inl (refl, λ k low high. at_or_behind k here low (all k) high))
        | inr (k, e, low, high, free, first) ↦
            rw (used, e)
              (inr (
                k,
                refl,
                omega arith,
                omega arith,
                free,
                λ l from to. at_or_behind l here from (λ past below. first l past to) (omega arith),
              ))
      ]
]
  where
    at_or_behind :
        (k : ℕ)
        → entries j % 2 ^ 28 ≢ 0
        → j ≤ k
        → (j + 1 ≤ k → k < j + 1 + n → entries k % 2 ^ 28 ≢ 0)
        → k < j + suc n
        → entries k % 2 ^ 28 ≢ 0
    at_or_behind k here low behind high = elim (Bool-cases (j == k)) [
      | inl same ↦
          let e : j ≡ k = ground (arith, same) in subst (λ i. entries i % 2 ^ 28 ≢ 0) e here
      | inr other ↦ behind (ground (arith, other)) (omega arith)
    ]

-- The entry `k` of the sector `i` of the table.
next-at :
    (i k : ℕ) (f : Fat32)
    → IsMounted f
    → i < f.table_size_32
    → k < 128
    → get_next_cluster (i * 128 + k) f
      ≡ f.disk ((f.partition_lba + f.reserved_sector_count + i) % u32) k % 2 ^ 28
unfolding get_next_cluster
next-at i k f m li lk =
    let low = m.low in
    let (sector, word) = fat_sector_lem (i * 128 + k) f m (omega arith) in
    let s : fat_sector (i * 128 + k) f ≡ (f.partition_lba + f.reserved_sector_count + i) % u32 =
      omega (arith, sector) in
    let w : fat_word (i * 128 + k) ≡ k = omega (arith, word) in rw (s, w) refl

-- The search took the first free entry from `first` on and before `past`, or found none.
abbrev pub Allocated : ℕ → ℕ → Fat32 → Fat32 × ℕ → Type 0
Allocated first past f r =
    ((r ≡ (f, 0)) × ((e : ℕ) → first ≤ e → e < past → get_next_cluster e f ≢ 0))
    ⊎ ((first ≤ r.1)
        × (r.1 < past)
        × (get_next_cluster r.1 f ≡ 0)
        × ((e : ℕ) → first ≤ e → e < r.1 → get_next_cluster e f ≢ 0)
        × ((e : ℕ)
            → IsInside e f
            → get_next_cluster e r.0 ≡ (if r.1 == e then last_cluster else get_next_cluster e f)))

allocate-miss :
    (n i : ℕ) (f : Fat32)
    → free_entry 128 0 (f.disk ((f.partition_lba + f.reserved_sector_count + i) % u32)) ≡ none
    → allocate_from (suc n) i f ≡ allocate_from n (i + 1) f
unfolding allocate_from
allocate-miss n i f e = rw (allocate_from, e) refl

allocate-hit :
    (n i k : ℕ) (f : Fat32)
    → free_entry 128 0 (f.disk ((f.partition_lba + f.reserved_sector_count + i) % u32)) ≡ some k
    → allocate_from (suc n) i f ≡ (
      write_word ((f.partition_lba + f.reserved_sector_count + i) % u32) k last_cluster f,
      (i * 128 + k) % u32,
    )
unfolding allocate_from
allocate-hit n i k f e = rw (allocate_from, e) refl

-- Entries of the sector `i`, by their place in it.
by_place :
    (i past : ℕ) (f : Fat32)
    → ((k : ℕ) → k < past → get_next_cluster (i * 128 + k) f ≢ 0)
    → (e : ℕ) → i * 128 ≤ e
    → e < i * 128 + past
    → get_next_cluster e f ≢ 0
by_place i past f all e low high =
    let place : i * 128 + (e - i * 128) ≡ e = omega arith in
    subst (λ k. get_next_cluster k f ≢ 0) place (all (e - i * 128) (omega arith))

used_here :
    (i past : ℕ) (f : Fat32)
    → IsMounted f
    → i < f.table_size_32
    → past ≤ 128
    → ((k : ℕ)
        → k < past
        → f.disk ((f.partition_lba + f.reserved_sector_count + i) % u32) k % 2 ^ 28 ≢ 0)
    → (e : ℕ) → i * 128 ≤ e
    → e < i * 128 + past
    → get_next_cluster e f ≢ 0
used_here i past f m li lp all =
    by_place i past f
      (λ k lk zero_there. all k lk (sym (next-at i k f m li (omega arith)) ∙ zero_there))

Allocated-hit :
    (i k past : ℕ) (f : Fat32)
    → IsMounted f
    → i < f.table_size_32
    → past ≡ f.table_size_32 * 128
    → k < 128
    → f.disk ((f.partition_lba + f.reserved_sector_count + i) % u32) k % 2 ^ 28 ≡ 0
    → ((l : ℕ)
        → l < k
        → f.disk ((f.partition_lba + f.reserved_sector_count + i) % u32) l % 2 ^ 28 ≢ 0)
    → Allocated (i * 128) past f (
      write_word ((f.partition_lba + f.reserved_sector_count + i) % u32) k last_cluster f,
      (i * 128 + k) % u32,
    )
Allocated-hit i k past f m li lp lk free first =
    let few = m.few in
    let low = m.low in
    let c = i * 128 + k in
    let number : c % u32 ≡ c = omega arith in
    let (sector, word) = fat_sector_lem c f m (omega arith) in
    let s : (f.partition_lba + f.reserved_sector_count + i) % u32 ≡ fat_sector c f =
      omega (arith, sector) in
    let w : k ≡ fat_word c = omega (arith, word) in
    let state : write_word ((f.partition_lba + f.reserved_sector_count + i) % u32) k last_cluster f
        ≡ write_word (fat_sector c f) (fat_word c) last_cluster f =
      ap (λ t. write_word t k last_cluster f) s
      ∙ ap (λ j. write_word (fat_sector c f) j last_cluster f) w in
    subst (λ (r : Fat32 × ℕ). Allocated (i * 128) past f r)
      (sym (
        ap (λ (g : Fat32). (g, c % u32)) state
        ∙ ap (λ (j : ℕ). (write_word (fat_sector c f) (fat_word c) last_cluster f, j)) number))
      (inr (
        omega arith,
        omega arith,
        next-at i k f m li lk ∙ free,
        used_here i k f m li (omega arith) first,
        λ e le. next-write c e last_cluster f m (omega arith) le,
      ))

Allocated-earlier :
    (i past : ℕ) (f : Fat32) (r : Fat32 × ℕ)
    → ((e : ℕ) → i * 128 ≤ e → e < i * 128 + 128 → get_next_cluster e f ≢ 0)
    → Allocated ((i + 1) * 128) past f r
    → Allocated (i * 128) past f r
Allocated-earlier i past f r used (inl (same, all)) = inl (
  same,
  λ e low high. elim (Bool-cases (ltb e (i * 128 + 128))) [
    | inl here ↦ used e low (ground (arith, here))
    | inr later ↦ all e (ground (arith, later)) high
  ],
)
Allocated-earlier i past f r used (inr (from, to, free, first, state)) = inr (
  omega arith,
  to,
  free,
  λ e low high. elim (Bool-cases (ltb e (i * 128 + 128))) [
    | inl here ↦ used e low (ground (arith, here))
    | inr later ↦ first e (ground (arith, later)) high
  ],
  state,
)

allocate_from_lem :
    (n i : ℕ) (f : Fat32)
    → IsMounted f
    → i + n ≡ f.table_size_32
    → Allocated (i * 128) (f.table_size_32 * 128) f (allocate_from n i f)
allocate_from_lem zero i f m l = unfold allocate_from in inl (refl, λ e low high _. omega arith)
allocate_from_lem (suc n) i f m l =
    let lba = (f.partition_lba + f.reserved_sector_count + i) % u32 in
    let past = f.table_size_32 * 128 in
    elim (free_entry_lem 128 0 (f.disk lba)) [
      | inl (none_here, all) ↦
          let used =
            used_here i 128 f m (omega arith) (omega arith)
              (λ k lk. all k (omega arith) (omega arith)) in
          subst (Allocated (i * 128) past f) (sym (allocate-miss n i f none_here)) (
            Allocated-earlier i past f (allocate_from n (i + 1) f) used
              (allocate_from_lem n (i + 1) f m (omega arith)))
      | inr (k, found, low, high, free, first) ↦
          subst (Allocated (i * 128) past f) (sym (allocate-hit n i k f found)) (
            Allocated-hit i k past f m (omega arith) refl (omega arith) free
              (λ j lj. first j (omega arith) lj))
    ]

-- `allocate_cluster` on a mounted volume. It takes the first free entry of the table, marks it as
-- the end of a chain, changes no other entry, and returns its number; or no entry is free, the volume is
-- unchanged, and it returns 0.
pub allocate_cluster_lem :
    (f : Fat32) → IsMounted f → Allocated 0 (f.table_size_32 * 128) f (allocate_cluster f)
unfolding allocate_cluster
allocate_cluster_lem f m = allocate_from_lem f.table_size_32 0 f m (omega arith)
