-- ===== src/Fat32/File/Whole.antt =====
-- `FAT32_File::read` of fs/fat32_vfs.cpp as a whole: the clusters that are passed over, then the loop.
use native.Mathlib.Omega.{div_any}
use native.Mathlib.Nat.{mod-lt}
use keon_os.Base.{
  ℕ, zero, suc, ◌+◌, ◌-◌, ◌*◌, ◌/◌, ◌%◌, ◌≤◌, ◌<◌, ◌≡◌, inl, inr, refl, sym, ap, ◌∙◌, true, false,
  List, [], ◌∷◌, length, ltb, leb, if◌then◌else◌, Bool-cases, arith,
}
use keon_os.Fat32.{Fat32, u32, get_next_cluster}
use keon_os.Fat32.Chain.{IsChain}
use keon_os.Fat32.File.{File, cluster_size, values, skip_clusters, min, read_loop, read}
use keon_os.Fat32.File.Read.{
  content, content-later, values_ext, values-zero, read_loop-done, read_loop_lem,
}

-- To step along the chain is to drop clusters of the content.
read_loop-skip_clusters :
    (k : ℕ) (cs : List ℕ) (fuel c offset left : ℕ) (f : Fat32)
    → IsChain f c cs
    → offset < cluster_size f
    → k * cluster_size f + offset + left ≤ length cs * cluster_size f
    → 0 < left
    → left < fuel
    → read_loop fuel (skip_clusters k c f) offset left f
      ≡ values (content f cs) (k * cluster_size f + offset) left
unfolding skip_clusters
read_loop-skip_clusters zero cs fuel c offset left f h l inside some_left enough =
    read_loop_lem cs fuel c offset left f h l (omega (arith, inside)) enough
    ∙ ap (λ p. values (content f cs) p left) (omega arith)
read_loop-skip_clusters (suc k) [] fuel c offset left f h l inside some_left enough =
    absurd (omega (arith, inside, some_left))
read_loop-skip_clusters (suc k) (d ∷ cs) fuel c offset left f (here, pos, below, in_table, once, h)
      l inside some_left enough =
    let size = cluster_size f in
    let longer : suc (length cs) * size ≡ size + length cs * size = grind arith in
    let further : suc k * size ≡ size + k * size = grind arith in
    ap (λ e. read_loop fuel (skip_clusters k (get_next_cluster e f) f) offset left f) here
    ∙ read_loop-skip_clusters k cs fuel (get_next_cluster d f) offset left f h l
        (omega (arith, inside, longer, further)) some_left enough
    ∙ values_ext (content f cs) (content f (d ∷ cs)) left (k * size + offset)
        (suc k * size + offset)
        (λ i li. sym (
          ap (content f (d ∷ cs)) (omega (arith, further))
          ∙ content-later f d cs (k * size + offset + i)))

-- The number of bytes that `read` settles on.
wanted :
    (offset size all : ℕ)
    → offset < all
    → offset + size < u32
    → (if ltb all ((offset + size) % u32) then all - offset else size) ≡ min size (all - offset)
unfolding min
wanted offset size all l fits =
    let whole : (offset + size) % u32 ≡ offset + size = omega (arith, fits) in
    ap (λ e. if ltb all e then all - offset else size) whole
    ∙ elim (Bool-cases (ltb all (offset + size))) [
      | inl more ↦
          let cut : ltb (all - offset) size ≡ true = ground (arith, more, l) in rw (more, cut) refl
      | inr less ↦
          let uncut : ltb (all - offset) size ≡ false = ground (arith, less, l) in
          rw (less, uncut) refl
    ]

min-le : (a b : ℕ) → min a b ≤ b
unfolding min
min-le a b = elim (Bool-cases (ltb b a)) [
  | inl less ↦ rw less (omega arith)
  | inr more ↦ rw more (ground (arith, more))
]

-- A read whose end does not wrap returns the bytes of the clusters of the file's chain from
-- `offset` on, up to the end of the file, when the chain is long enough for the file's size.
pub read_lem :
    (cs : List ℕ) (offset size : ℕ) (file : File) (f : Fat32)
    → IsChain f file.first_cluster cs
    → 0 < cluster_size f
    → file.size ≤ length cs * cluster_size f
    → offset + size < u32
    → read offset size file f ≡ values (content f cs) offset (min size (file.size - offset))
unfolding read
read_lem cs offset size file f h some_size long fits = elim (Bool-cases (leb file.size offset)) [
  | inl past ↦
      let none_left : file.size - offset ≡ 0 = ground (arith, past) in
      let most : min size (file.size - offset) ≤ file.size - offset =
        min-le size (file.size - offset) in
      rw past (
        sym (
          values-zero (content f cs) offset (min size (file.size - offset))
            (omega (arith, most, none_left))))
  | inr before ↦
      let l : offset < file.size = ground (arith, before) in
      rw (before, wanted offset size file.size l fits)
        (whole (min size (file.size - offset)) (min-le size (file.size - offset)) l)
]
  where
    whole :
        (n : ℕ)
        → n ≤ file.size - offset
        → offset < file.size
        → read_loop
            (suc n)
            (skip_clusters (offset / cluster_size f) file.first_cluster f)
            (offset % cluster_size f)
            n
            f
          ≡ values (content f cs) offset n
    whole zero most l =
        read_loop-done zero (skip_clusters (offset / cluster_size f) file.first_cluster f)
          (offset % cluster_size f) 0 f refl
        ∙ sym (values-zero (content f cs) offset 0 refl)
    whole (suc n) most l =
        let size = cluster_size f in
        let parts : size * (offset / size) + offset % size ≡ offset = div_any offset size in
        let turned : offset / size * size ≡ size * (offset / size) = grind arith in
        read_loop-skip_clusters (offset / size) cs (suc (suc n)) file.first_cluster (offset % size)
          (suc n) f h (mod-lt offset some_size) (omega (arith, parts, turned, most, l, long))
          (omega arith) (omega arith)
        ∙ ap (λ p. values (content f cs) p (suc n)) (omega (arith, parts, turned))
