-- ===== src/Fat32/Dir/Change/Create.antt =====
-- The entry that `FAT32_Directory::create` of fs/fat32_vfs.cpp writes.
use keon_os.Base.{
  ℕ, zero, suc, ◌+◌, ◌*◌, ◌/◌, ◌%◌, ◌^◌, ◌<◌, ◌≡◌, inl, inr, refl, sym, ap, ◌∙◌, false, ◌&&◌,
  Option, none, some, List, [], ◌∷◌, ◌++◌, length, length-append, append_inj, get_or, take, leb,
  ◌==◌, ◌>>=◌, if◌then◌else◌, Bool-cases, arith,
}
use keon_os.Fat32.{
  Fat32, u32, last_cluster, write_word, free_entry, allocate_from, allocate_cluster,
}
use keon_os.Fat32.File.{sector_byte, write_bytes, values}
use keon_os.Fat32.File.Read.{values_ext}
use keon_os.Fat32.File.Bytes.{AllBytes, values-write_bytes}
use keon_os.Vfs.{dot}
use keon_os.Fat32.Name.{upper, base, extension, pad, last_dot, create_name}
use keon_os.Fat32.Dir.{Entry, file, attr, half, entry_name, entry_cluster, file_size}
use keon_os.Fat32.Dir.Change.{
  zero_bytes, half_bytes, cluster_bytes, entry_tail, entry_bytes, find_free_entry, create_at,
  create,
}

upper-below : (c : ℕ) → c < 256 → upper c < 256
unfolding upper
upper-below c b = elim (Bool-cases (leb 97 c && leb c 122)) [
  | inl letter ↦ rw letter (omega (arith, b))
  | inr other ↦ rw other b
]

base-AllBytes : (n : ℕ) (cs : List ℕ) → AllBytes cs → AllBytes (base n cs).0
unfolding base
base-AllBytes zero cs h = tt
base-AllBytes (suc n) [] h = tt
base-AllBytes (suc n) (c ∷ cs) (b, h) = elim (Bool-cases (c == dot)) [
  | inl end ↦ rw end tt
  | inr other ↦ rw other (upper-below c b, base-AllBytes n cs h)
]

extension-AllBytes : (n : ℕ) (cs : List ℕ) → AllBytes cs → AllBytes (extension n cs)
unfolding extension
extension-AllBytes zero cs h = tt
extension-AllBytes (suc n) [] h = tt
extension-AllBytes (suc n) (c ∷ cs) (b, h) = (upper-below c b, extension-AllBytes n cs h)

pad-AllBytes : (n : ℕ) (cs : List ℕ) → AllBytes cs → AllBytes (pad n cs)
unfolding pad
pad-AllBytes zero cs h = tt
pad-AllBytes (suc n) [] h = (omega arith, pad-AllBytes n [] tt)
pad-AllBytes (suc n) (c ∷ cs) (b, h) = (b, pad-AllBytes n cs h)

length-pad : (n : ℕ) (cs : List ℕ) → length (pad n cs) ≡ n
unfolding pad
length-pad zero cs = refl
length-pad (suc n) [] = ap suc (length-pad n [])
length-pad (suc n) (c ∷ cs) = ap suc (length-pad n cs)

append-AllBytes : (xs ys : List ℕ) → AllBytes xs → AllBytes ys → AllBytes (xs ++ ys)
append-AllBytes [] ys hx hy = hy
append-AllBytes (x ∷ xs) ys (b, hx) hy = (b, append-AllBytes xs ys hx hy)

abbrev OptionBytes : Option (List ℕ) → Type 0
OptionBytes none = Unit {0}
OptionBytes (some e) = AllBytes e

last_dot-OptionBytes : (cs : List ℕ) → AllBytes cs → OptionBytes (last_dot cs)
unfolding last_dot
last_dot-OptionBytes [] h = tt
last_dot-OptionBytes (c ∷ cs) (b, h) = behind (last_dot cs) (last_dot-OptionBytes cs h)
  where
    behind :
        (r : Option (List ℕ))
        → OptionBytes r
        → OptionBytes (elim r [ some e ↦ some e | none ↦ if c == dot then some cs else none ])
    behind (some e) hr = hr
    behind none hr = elim (Bool-cases (c == dot)) [ inl e ↦ rw e h | inr e ↦ rw e tt ]

-- Eleven bytes.
create_name-AllBytes :
    (name : List ℕ) → AllBytes name → AllBytes (create_name name) × (length (create_name name) ≡ 11)
unfolding create_name
create_name-AllBytes name h = eleven (last_dot name) (last_dot-OptionBytes name h)
  where
    joined :
        (ys : List ℕ)
        → AllBytes ys
        → AllBytes (pad 8 (base 8 name).0 ++ pad 3 ys)
          × (length (pad 8 (base 8 name).0 ++ pad 3 ys) ≡ 11)
    joined ys hy = (
      append-AllBytes (pad 8 (base 8 name).0) (pad 3 ys)
          (pad-AllBytes 8 (base 8 name).0 (base-AllBytes 8 name h)) (pad-AllBytes 3 ys hy),
      omega (
        arith,
        length-append (pad 8 (base 8 name).0) (pad 3 ys),
        length-pad 8 (base 8 name).0,
        length-pad 3 ys,
      ),
    )

    eleven :
        (r : Option (List ℕ))
        → OptionBytes r
        → (AllBytes
            (pad 8 (base 8 name).0 ++ elim r [ some e ↦ pad 3 (extension 3 e) | none ↦ pad 3 [] ]))
          × (length (
                pad 8 (base 8 name).0
                ++ elim r [ some e ↦ pad 3 (extension 3 e) | none ↦ pad 3 [] ])
              ≡ 11)
    eleven (some e) hr = joined (extension 3 e) (extension-AllBytes 3 e hr)
    eleven none hr = joined [] tt

zero_bytes-AllBytes : (n : ℕ) → AllBytes (zero_bytes n)
zero_bytes-AllBytes zero = tt
zero_bytes-AllBytes (suc n) = (omega arith, zero_bytes-AllBytes n)

half_bytes-AllBytes : (w : ℕ) (ys : List ℕ) → AllBytes ys → AllBytes (half_bytes w ++ ys)
half_bytes-AllBytes w ys h = (omega arith, (omega arith, h))

tail-AllBytes : (cluster : ℕ) → AllBytes (zero_bytes 8 ++ cluster_bytes cluster)
tail-AllBytes cluster =
    append-AllBytes (zero_bytes 8) (cluster_bytes cluster) (zero_bytes-AllBytes 8) (
      half_bytes-AllBytes (cluster / 2 ^ 16 % 2 ^ 16)
        (zero_bytes 4 ++ (half_bytes (cluster % 2 ^ 16) ++ zero_bytes 4))
        (append-AllBytes (zero_bytes 4) (half_bytes (cluster % 2 ^ 16) ++ zero_bytes 4)
          (zero_bytes-AllBytes 4)
          (half_bytes-AllBytes (cluster % 2 ^ 16) (zero_bytes 4) (zero_bytes-AllBytes 4))))

module _ (name : List ℕ) (a cluster lba k : ℕ) (f : Fat32) (h : AllBytes name)
    (l : length name ≡ 11) (b : a < 256) (c : cluster < u32) where
  -- What is read where the bytes of an entry are written.
  abbrev written : Entry
  written i = sector_byte lba (k + i) (write_bytes lba k (entry_bytes name a cluster) f)

  written-entry :
      (entry_name written ≡ name)
      × (attr written ≡ a)
      × (entry_cluster written ≡ cluster)
      × (file_size written ≡ 0)
  unfolding entry_bytes values
  written-entry =
      let bytes = entry_bytes name a cluster in
      let tail = entry_tail a cluster in
      let all_bytes : AllBytes bytes = append-AllBytes name tail h (b, tail-AllBytes cluster) in
      let size : length bytes ≡ 32 = length-append name tail ∙ ap (λ n. n + 21) l in
      let whole : values written 0 32 ≡ name ++ tail =
        values_ext written (λ p. sector_byte lba p (write_bytes lba k bytes f)) 32 0 k
          (λ i li. ap (λ p. sector_byte lba p (write_bytes lba k bytes f)) (omega arith))
        ∙ ap (values (λ p. sector_byte lba p (write_bytes lba k bytes f)) k) (sym size)
        ∙ values-write_bytes bytes lba k f all_bytes in
      let (named, rest) =
        append_inj (values written 0 11) name {zs = values written 11 21} {ws = tail} (sym l)
          whole in
      let at : (i : ℕ) → get_or (values written 11 21) i 0 ≡ get_or tail i 0 =
        λ i. ap (λ vs. get_or vs i 0) rest in
      let high : half 20 written ≡ cluster / 2 ^ 16 % 2 ^ 16 = omega (arith, at 9, at 10) in
      let low : half 26 written ≡ cluster % 2 ^ 16 = omega (arith, at 15, at 16) in
      (named, at 0, omega (arith, high, low, c), omega (arith, at 17, at 18, at 19, at 20))

allocate_from-below : (n i : ℕ) (f : Fat32) → (allocate_from n i f).1 < u32
unfolding allocate_from
allocate_from-below zero i f = omega arith
allocate_from-below (suc n) i f =
    by_search (free_entry 128 0 (f.disk lba)) (allocate_from-below n (i + 1) f)
  where
    lba : ℕ
    lba = (f.partition_lba + f.reserved_sector_count + i) % u32

    choose : Option ℕ → Fat32 × ℕ
    choose (some j) = (write_word lba j last_cluster f, (i * 128 + j) % u32)
    choose none = allocate_from n (i + 1) f

    by_search : (r : Option ℕ) → (allocate_from n (i + 1) f).1 < u32 → (choose r).1 < u32
    by_search (some j) rest = omega arith
    by_search none rest = rest

-- At the place `at` there is an entry for an empty file with the name and the first cluster.
pub record Created (name : List ℕ) (at : ℕ × ℕ) (cluster : ℕ) (f : Fat32) : Type 0 where
  pub named : entry_name (λ k. sector_byte at.0 (at.1 + k) f) ≡ create_name name
  pub kind : attr (λ k. sector_byte at.0 (at.1 + k) f) ≡ 0x20
  pub linked : entry_cluster (λ k. sector_byte at.0 (at.1 + k) f) ≡ cluster
  pub empty : file_size (λ k. sector_byte at.0 (at.1 + k) f) ≡ 0

-- When a free entry is found and a cluster is free, `create` returns a node of size 0 for that place and that
-- cluster, and the bytes at the place are then an entry with the node's first cluster and the
-- name in its eleven bytes.
pub create-Created :
    (fuel : ℕ) (name : List ℕ) (cluster : ℕ) (at : ℕ × ℕ) (f f1 : Fat32)
    → AllBytes name
    → find_free_entry fuel cluster f ≡ some (f1, some at)
    → ((allocate_cluster f1).1 == 0) ≡ false
    → (f' : Fat32) × (create fuel name cluster f
        ≡ some (
          f',
          some (
              file (take 127 name) (record {
                first_cluster = (allocate_cluster f1).1;
                size = 0;
                dir_entry_lba = at.0;
                dir_entry_offset = at.1;
              })),
        ))
      × Created name at (allocate_cluster f1).1 f'
unfolding create create_at allocate_cluster ◌>>=◌
create-Created fuel name cluster at f f1 h slot free =
    let new = allocate_cluster f1 in
    let below : new.1 < u32 = allocate_from-below f1.table_size_32 0 f1 in
    let (bytes, eleven) = create_name-AllBytes name h in
    let (named, kind, linked, empty) =
      written-entry (create_name name) 0x20 new.1 at.0 at.1 new.0 bytes eleven (omega arith)
        below in
    (
      write_bytes at.0 at.1 (entry_bytes (create_name name) 0x20 new.1) new.0,
      rw (create, slot, free) refl,
      record { named = named; kind = kind; linked = linked; empty = empty },
    )
