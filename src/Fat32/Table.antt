-- ===== src/Fat32/Table.antt =====
-- The table of fs/fat32_vfs.cpp as a map from clusters to entries.
use keon_os.Base.{
  ℕ, ◌+◌, ◌*◌, ◌/◌, ◌%◌, ◌^◌, ◌≤◌, ◌<◌, ◌≡◌, inl, inr, refl, ap, ◌∙◌, true, false, ◌&&◌, ◌==◌,
  if◌then◌else◌, Bool-cases, arith,
}
use keon_os.Fat32.{Fat32, u32, write_word, fat_sector, fat_word, get_next_cluster, set_next_cluster}

-- The table lies below sector 2^32 and has at most 2^28 entries.
pub record IsMounted (f : Fat32) : Type 0 where
  pub low : f.partition_lba + f.reserved_sector_count + f.table_size_32 ≤ u32
  pub few : f.table_size_32 * 128 ≤ 2 ^ 28

abbrev pub IsInside : ℕ → Fat32 → Type 0
IsInside c f = c < f.table_size_32 * 128

pub fat_sector_lem :
    (c : ℕ) (f : Fat32)
    → IsMounted f
    → IsInside c f
    → (fat_sector c f ≡ f.partition_lba + f.reserved_sector_count + c / 128)
      × (fat_word c ≡ c % 128)
unfolding fat_sector fat_word
fat_sector_lem c f m l = let low = m.low in let few = m.few in (omega arith, omega arith)

-- An entry after a write to the entry of the cluster `c`.
pub next-write :
    (c d v : ℕ) (f : Fat32)
    → IsMounted f
    → IsInside c f
    → IsInside d f
    → get_next_cluster d (write_word (fat_sector c f) (fat_word c) v f)
      ≡ (if c == d then v % 2 ^ 28 else get_next_cluster d f)
unfolding get_next_cluster write_word
next-write c d v f m lc ld =
    let f' = write_word (fat_sector c f) (fat_word c) v f in
    let (sc, wc) = fat_sector_lem c f m lc in
    let (sd, wd) = fat_sector_lem d f m ld in
    let same_sector : fat_sector d f' ≡ fat_sector d f = unfold fat_sector in refl in
    elim (Bool-cases (c == d)) [
      | inl same ↦
          let hit : (fat_sector d f == fat_sector c f && fat_word d == fat_word c) ≡ true =
            ground (arith, same, sc, wc, sd, wd) in
          rw (same, same_sector, hit) refl
      | inr other ↦
          let miss : (fat_sector d f == fat_sector c f && fat_word d == fat_word c) ≡ false =
            ground (arith, other, sc, wc, sd, wd) in
          rw (other, same_sector, miss) refl
    ]

-- On a mounted volume `set_next_cluster` changes the entry of its cluster and no other: reading that
-- one returns the low 28 bits of the value, and reading any other returns what it did.
pub get_next_cluster-set_next_cluster :
    (c d next : ℕ) (f : Fat32)
    → IsMounted f
    → IsInside c f
    → IsInside d f
    → get_next_cluster d (set_next_cluster c next f)
      ≡ (if c == d then next % 2 ^ 28 else get_next_cluster d f)
unfolding set_next_cluster
get_next_cluster-set_next_cluster c d next f m lc ld =
    let twice : next % 2 ^ 28 % 2 ^ 28 ≡ next % 2 ^ 28 = omega arith in
    next-write c d (next % 2 ^ 28) f m lc ld
    ∙ ap (λ k. if c == d then k else get_next_cluster d f) twice
