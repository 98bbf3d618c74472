-- ===== src/Fat32/Dir/Find.antt =====
-- `FAT32_Directory::finddir` of fs/fat32_vfs.cpp against the list of the entries that are in use.
use keon_os.Base.{
  ℕ, zero, suc, ◌+◌, ◌<◌, ◌≡◌, inl, inr, refl, sym, ap, ◌∙◌, Bool, true, false, ◌&&◌, not, Option,
  none, some, List, [], ◌∷◌, ◌++◌, length, ltb, ◌==◌, if◌then◌else◌, Bool-cases, arith,
}
use mathlib.Core.Bool.{false≢true}
use keon_os.Fat32.{Fat32, end_of_chain, get_next_cluster}
use keon_os.Fat32.Chain.{IsChain}
use keon_os.Fat32.Dir.{
  Entry, Buffer, FatNode, Step, stop, found, next, entry_at, attr, has_bit, is_label, is_long,
  zeros, put_long, in_find, entry_matches, make_node, find_step, find_in, find_from, finddir,
  entries_of,
}

-- The `n` slots of a cluster from `i` on.
abbrev pub slots_in : ℕ → ℕ → ℕ → List (ℕ × ℕ)
slots_in zero i c = []
slots_in (suc n) i c = (c, i) ∷ slots_in n (i + 1) c

-- The slots of the clusters of a directory, one after another.
abbrev pub slots : Fat32 → List ℕ → List (ℕ × ℕ)
slots f [] = []
slots f (c ∷ cs) = slots_in (entries_of f) 0 c ++ slots f cs

-- An entry that is neither erased nor a label nor a part of a long name.
abbrev pub is_live : Entry → Bool
is_live e = not (e 0 == 0xe5) && not (is_label e)

-- The long name that an entry leaves for the next one.
abbrev pub next_buffer : Entry → Buffer → Buffer
next_buffer e b =
    if e 0 == 0xe5
    then zeros
    else if is_label e && not (is_long e)
    then b
    else if is_long e
    then put_long in_find e b
    else zeros

-- The entries in use before the first that was never used, each with the long name before it.
abbrev pub live : Fat32 → List (ℕ × ℕ) → Buffer → List (Buffer × (ℕ × ℕ))
live f [] b = []
live f ((c, i) ∷ rest) b =
    let e = entry_at c i f in
    let more = live f rest (next_buffer e b) in
    if e 0 == 0 then [] else if is_live e then (b, (c, i)) ∷ more else more

-- The first of them that has the name.
abbrev pub first_match : List ℕ → Fat32 → List (Buffer × (ℕ × ℕ)) → Option FatNode
first_match name f [] = none
first_match name f ((b, (c, i)) ∷ rest) =
    if entry_matches name (entry_at c i f) b
    then some (make_node name c i f)
    else first_match name f rest

abbrev finish : Step FatNode → (Buffer → Option FatNode) → Option FatNode
finish stop k = none
finish (found node) k = some node
finish (next b) k = k b

-- The attributes of a part of a long name have the bit of a label.
not_long : (e : Entry) → is_label e ≡ false → is_long e ≡ false
not_long e plain = elim (Bool-cases (is_long e)) [
  | inl long ↦
      let fifteen : attr e ≡ 0x0f = ground (arith, long) in
      absurd (false≢true (sym plain ∙ ap (has_bit 3) fifteen))
  | inr other ↦ other
]

module _ (name : List ℕ) (f : Fat32) where
  one_step :
      (c i : ℕ) (b : Buffer) (rest : List (ℕ × ℕ))
      → finish (find_step name c i f b) (λ b'. first_match name f (live f rest b'))
        ≡ first_match name f (live f ((c, i) ∷ rest) b)
  unfolding find_step
  one_step c i b rest =
      let e = entry_at c i f in
      elim (Bool-cases (e 0 == 0)) [
        | inl never ↦ rw (find_step, never) refl
        | inr used ↦ elim (Bool-cases (e 0 == 0xe5)) [
          | inl gone ↦ rw (find_step, used, gone) refl
          | inr here ↦ elim (Bool-cases (is_label e)) [
            | inl label ↦ elim (Bool-cases (is_long e)) [
              | inl long ↦ rw (find_step, used, here, label, long) refl
              | inr other ↦ rw (find_step, used, here, label, other) refl
            ]
            | inr plain ↦ elim (Bool-cases (entry_matches name e b)) [
              | inl same ↦ rw (find_step, used, here, plain, not_long e plain, same) refl
              | inr other ↦ rw (find_step, used, here, plain, not_long e plain, other) refl
            ]
          ]
        ]
      ]

  -- The inner loop, when the search goes on behind the cluster with `k`.
  find_in-live :
      (n i c : ℕ) (b : Buffer) (rest : List (ℕ × ℕ)) (k : Buffer → Option FatNode)
      → ((b' : Buffer) → k b' ≡ first_match name f (live f rest b'))
      → finish (find_in name n i c f b) k ≡ first_match name f (live f (slots_in n i c ++ rest) b)
  unfolding find_in
  find_in-live zero i c b rest k e = e b
  find_in-live (suc n) i c b rest k e =
      by_step (find_step name c i f b) (λ b'. find_in-live n (i + 1) c b' rest k e)
      ∙ one_step c i b (slots_in n (i + 1) c ++ rest)
    where
      by_step :
          (s : Step FatNode)
          → ((b' : Buffer)
              → finish (find_in name n (i + 1) c f b') k
                ≡ first_match name f (live f (slots_in n (i + 1) c ++ rest) b'))
          → finish
              (elim s [
                | stop ↦ stop
                | found node ↦ found node
                | next b' ↦ find_in name n (i + 1) c f b'
              ])
              k
            ≡ finish s (λ b'. first_match name f (live f (slots_in n (i + 1) c ++ rest) b'))
      by_step stop further = refl
      by_step (found node) further = refl
      by_step (next b') further = further b'

  find_from-live :
      (cs : List ℕ) (fuel c : ℕ) (b : Buffer)
      → IsChain f c cs
      → length cs < fuel
      → find_from fuel name c f b ≡ some (first_match name f (live f (slots f cs) b))
  unfolding find_from
  find_from-live cs zero c b h l = absurd (omega (arith, l))
  find_from-live [] (suc fuel) c b (inl end) l =
      let test : ltb c end_of_chain ≡ false = ground (arith, end) in rw test refl
  find_from-live [] (suc fuel) c b (inr nil) l =
      let test : (c == 0) ≡ true = ground (arith, nil) in
      elim (Bool-cases (ltb c end_of_chain)) [ inl t ↦ rw (t, test) refl | inr t ↦ rw t refl ]
  find_from-live (d ∷ cs) (suc fuel) c b (here, pos, below, in_table, once, h) l =
      ap (λ e. find_from (suc fuel) name e f b) here
      ∙ rw (ltb-below, not_nil)
          (by_step (find_in name (entries_of f) 0 d f b)
              (λ b'. find_from-live cs fuel (get_next_cluster d f) b' h (omega (arith, l)))
            ∙ ap (λ r. some r)
                (find_in-live (entries_of f) 0 d b (slots f cs)
                  (λ b'. first_match name f (live f (slots f cs) b')) (λ b'. refl)))
    where
      ltb-below : ltb d end_of_chain ≡ true
      ltb-below = ground (arith, below)

      not_nil : (d == 0) ≡ false
      not_nil = ground (arith, pos)

      by_step :
          (s : Step FatNode)
          → ((b' : Buffer)
              → find_from fuel name (get_next_cluster d f) f b'
                ≡ some (first_match name f (live f (slots f cs) b')))
          → elim s [
            | stop ↦ some none
            | found node ↦ some (some node)
            | next b' ↦ find_from fuel name (get_next_cluster d f) f b'
          ]
            ≡ some (finish s (λ b'. first_match name f (live f (slots f cs) b')))
      by_step stop further = refl
      by_step (found node) further = refl
      by_step (next b') further = further b'

  -- Over a chain of clusters that ends, `finddir` ends and gives the node for the first entry in
  -- use that has the name: by the long name before it, if it has one, and else by its eleven
  -- bytes. Entries behind the first one that was never used do not count.
  pub finddir-first_match :
      (cs : List ℕ) (fuel c : ℕ)
      → IsChain f c cs
      → length cs < fuel
      → finddir fuel name c f ≡ some (first_match name f (live f (slots f cs) zeros))
  finddir-first_match cs fuel c h l = find_from-live cs fuel c zeros h l
