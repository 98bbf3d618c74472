-- ===== src/Fat32/Chain.antt =====
-- `free_cluster_chain` of fs/fat32_vfs.cpp on a chain that ends.
use keon_os.Base.{
  ℕ, zero, suc, ◌≤◌, ◌<◌, ◌≡◌, ◌⊎◌, inl, inr, refl, sym, ◌∙◌, Bool, true, false, ◌&&◌, ◌||◌, some,
  List, [], ◌∷◌, length, ltb, ◌==◌, if◌then◌else◌, Bool-cases, arith,
}
use mathlib.Core.Path.{subst}
use keon_os.Fat32.{
  Fat32, end_of_chain, write_word, fat_sector, fat_word, get_next_cluster, free_chain,
  free_cluster_chain,
}
use keon_os.Fat32.Table.{IsMounted, IsInside, next-write}

abbrev pub member : ℕ → List ℕ → Bool
member e [] = false
member e (d ∷ ds) = d == e || member e ds

-- From the cluster `c` on, the entries lead through `cs`, in which no cluster occurs twice, to a mark of
-- the end.
abbrev pub IsChain : Fat32 → ℕ → List ℕ → Type 0
IsChain f c [] = (end_of_chain ≤ c) ⊎ (c ≡ 0)
IsChain f c (d ∷ ds) =
    (c ≡ d)
    × (0 < d)
    × (d < end_of_chain)
    × IsInside d f
    × (member d ds ≡ false)
    × IsChain f (get_next_cluster d f) ds

-- `f'` is `f` with the entries of the clusters `cs` free and all others as they were.
pub record Freed (cs : List ℕ) (f f' : Fat32) : Type 0 where
  pub mounted : IsMounted f'
  pub size : f'.table_size_32 ≡ f.table_size_32
  pub entries :
      (e : ℕ)
      → IsInside e f
      → get_next_cluster e f' ≡ (if member e cs then 0 else get_next_cluster e f)

abbrev freed_one : ℕ → Fat32 → Fat32
freed_one d f = write_word (fat_sector d f) (fat_word d) 0 f

freed_one-Freed :
    (d : ℕ) (f : Fat32) → IsMounted f → IsInside d f → Freed (d ∷ []) f (freed_one d f)
unfolding write_word
freed_one-Freed d f m l = record {
  mounted = record { low = m.low; few = m.few };
  size = refl;
  entries = λ e le. elim (Bool-cases (d == e)) [
    | inl same ↦ next-write d e 0 f m l le ∙ rw same refl
    | inr other ↦ next-write d e 0 f m l le ∙ rw other refl
  ];
}

IsChain-freed_one :
    (d c : ℕ) (ds : List ℕ) (f : Fat32)
    → IsMounted f
    → IsInside d f
    → member d ds ≡ false
    → IsChain f c ds
    → IsChain (freed_one d f) c ds
IsChain-freed_one d c [] f m l out h = h
IsChain-freed_one d c (e ∷ ds) f m l out (here, pos, below, inside, once, h) =
    let one = freed_one-Freed d f m l in
    let other : (d == e) ≡ false = ground (arith, out) in
    let rest : member d ds ≡ false = ground (arith, out) in
    let same : get_next_cluster e (freed_one d f) ≡ get_next_cluster e f =
      next-write d e 0 f m l inside ∙ rw other refl in
    (
      here,
      pos,
      below,
      rw one.size inside,
      once,
      subst (λ k. IsChain (freed_one d f) k ds) (sym same)
          (IsChain-freed_one d (get_next_cluster e f) ds f m l rest h),
    )

Freed-cons :
    (d : ℕ) (ds : List ℕ) (f f' : Fat32)
    → IsMounted f
    → IsInside d f
    → Freed ds (freed_one d f) f'
    → Freed (d ∷ ds) f f'
Freed-cons d ds f f' m l rest =
    let one = freed_one-Freed d f m l in
    record {
      mounted = rest.mounted;
      size = rest.size ∙ one.size;
      entries = λ e le. rest.entries e (rw one.size le) ∙ elim (Bool-cases (member e ds)) [
        | inl later ↦ elim (Bool-cases (d == e)) [
          | inl same ↦ rw (later, same) refl
          | inr other ↦ rw (later, other) refl
        ]
        | inr not_later ↦ rw not_later (
            next-write d e 0 f m l le
            ∙ elim (Bool-cases (d == e)) [ inl same ↦ rw same refl | inr other ↦ rw other refl ])
      ];
    }

free_chain_lem :
    (cs : List ℕ) (fuel c : ℕ) (f : Fat32)
    → IsMounted f
    → IsChain f c cs
    → length cs < fuel
    → (f' : Fat32) × (free_chain fuel c f ≡ some f') × Freed cs f f'
unfolding free_chain
free_chain_lem cs zero c f m h l = absurd (omega arith)
free_chain_lem [] (suc fuel) c f m h l =
    let stop : (ltb c end_of_chain && ltb 0 c) ≡ false = ground (arith, h) in
    (f, rw stop refl, record { mounted = m; size = refl; entries = λ e le. refl })
free_chain_lem (d ∷ ds) (suc fuel) c f m (here, pos, below, inside, once, h) l =
    let go : (ltb d end_of_chain && ltb 0 d) ≡ true = ground (arith, pos, below) in
    let one = freed_one-Freed d f m inside in
    let (f', done, freed) =
      free_chain_lem ds fuel (get_next_cluster d f) (freed_one d f) one.mounted
        (IsChain-freed_one d (get_next_cluster d f) ds f m inside once h) (omega arith) in
    (f', rw (here, go) done, Freed-cons d ds f f' m inside freed)

-- `free_cluster_chain` ends on a chain without a repeated cluster, within one round more than the
-- chain has clusters. All entries of the chain are free after it, and every other entry of the
-- table is as it was.
pub free_cluster_chain_lem :
    (cs : List ℕ) (fuel c : ℕ) (f : Fat32)
    → 2 ≤ c
    → IsMounted f
    → IsChain f c cs
    → length cs < fuel
    → (f' : Fat32) × (free_cluster_chain fuel c f ≡ some f') × Freed cs f f'
unfolding free_cluster_chain
free_cluster_chain_lem cs fuel c f two m h l =
    let chain : ltb c 2 ≡ false = ground (arith, two) in
    let (f', done, freed) = free_chain_lem cs fuel c f m h l in (f', rw chain done, freed)
