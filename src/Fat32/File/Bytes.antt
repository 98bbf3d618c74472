-- ===== src/Fat32/File/Bytes.antt =====
-- Bytes written into a sector of fs/fat32_vfs.cpp, and read from it.
use keon_os.Base.{
  ℕ, zero, suc, ◌+◌, ◌/◌, ◌%◌, ◌^◌, ◌<◌, ◌≡◌, ◌≢◌, inl, inr, refl, sym, ap, ◌∙◌, true, List, [],
  ◌∷◌, length, ◌==◌, Bool-cases, arith,
}
use keon_os.Fat32.{Fat32, write_word}
use keon_os.Fat32.File.{sector_byte, set_byte, write_byte, write_bytes, values}

abbrev pub AllBytes : List ℕ → Type 0
AllBytes [] = Unit {0}
AllBytes (v ∷ vs) = (v < 256) × AllBytes vs

set_byte-same : (p v w : ℕ) → p < 4 → v < 256 → set_byte p v w / 256 ^ p % 256 ≡ v
unfolding set_byte
set_byte-same zero v w l b = omega (arith, b)
set_byte-same (suc zero) v w l b = omega (arith, b)
set_byte-same (suc (suc zero)) v w l b = omega (arith, b)
set_byte-same (suc (suc (suc zero))) v w l b = omega (arith, b)
set_byte-same (suc (suc (suc (suc p)))) v w l b = absurd (omega (arith, l))

set_byte-other :
    (p i v w : ℕ)
    → p < 4
    → i < 4
    → v < 256
    → p ≢ i
    → set_byte p v w / 256 ^ i % 256 ≡ w / 256 ^ i % 256
unfolding set_byte
set_byte-other zero zero v w l li b n = absurd (n refl)
set_byte-other zero (suc zero) v w l li b n = omega (arith, b)
set_byte-other zero (suc (suc zero)) v w l li b n = omega (arith, b)
set_byte-other zero (suc (suc (suc zero))) v w l li b n = omega (arith, b)
set_byte-other (suc zero) zero v w l li b n = omega (arith, b)
set_byte-other (suc zero) (suc zero) v w l li b n = absurd (n refl)
set_byte-other (suc zero) (suc (suc zero)) v w l li b n = omega (arith, b)
set_byte-other (suc zero) (suc (suc (suc zero))) v w l li b n = omega (arith, b)
set_byte-other (suc (suc zero)) zero v w l li b n = omega (arith, b)
set_byte-other (suc (suc zero)) (suc zero) v w l li b n = omega (arith, b)
set_byte-other (suc (suc zero)) (suc (suc zero)) v w l li b n = absurd (n refl)
set_byte-other (suc (suc zero)) (suc (suc (suc zero))) v w l li b n = omega (arith, b)
set_byte-other (suc (suc (suc zero))) zero v w l li b n = omega (arith, b)
set_byte-other (suc (suc (suc zero))) (suc zero) v w l li b n = omega (arith, b)
set_byte-other (suc (suc (suc zero))) (suc (suc zero)) v w l li b n = omega (arith, b)
set_byte-other (suc (suc (suc zero))) (suc (suc (suc zero))) v w l li b n = absurd (n refl)
set_byte-other (suc (suc (suc (suc p)))) i v w l li b n = absurd (omega (arith, l))
set_byte-other p (suc (suc (suc (suc i)))) v w l li b n = absurd (omega (arith, li))

module _ (lba k v : ℕ) (f : Fat32) (b : v < 256) where
  write_byte-same : sector_byte lba k (write_byte lba k v f) ≡ v
  unfolding sector_byte write_byte write_word
  write_byte-same =
      let here : (lba == lba) ≡ true = ground arith in
      let word : (k / 4 == k / 4) ≡ true = ground arith in
      rw (here, word) (set_byte-same (k % 4) v (f.disk lba (k / 4)) (omega arith) b)

  write_byte-other :
      (p : ℕ) → p ≢ k → sector_byte lba p (write_byte lba k v f) ≡ sector_byte lba p f
  unfolding sector_byte write_byte write_word
  write_byte-other p n =
      let here : (lba == lba) ≡ true = ground arith in
      elim (Bool-cases (p / 4 == k / 4)) [
        | inl word ↦
            let same : p / 4 ≡ k / 4 = ground (arith, word) in
            rw (here, word)
              (set_byte-other (k % 4) (p % 4) v (f.disk lba (k / 4)) (omega arith) (omega arith) b
                  (λ e. n (omega (arith, e, same)))
                ∙ ap (λ j. f.disk lba j / 256 ^ (p % 4) % 256) (sym same))
        | inr word ↦ rw (here, word) refl
      ]

-- Bytes before the place where a run is written stay.
write_bytes-before :
    (vs : List ℕ) (lba k p : ℕ) (f : Fat32)
    → AllBytes vs
    → p < k
    → sector_byte lba p (write_bytes lba k vs f) ≡ sector_byte lba p f
unfolding write_bytes
write_bytes-before [] lba k p f h l = refl
write_bytes-before (v ∷ vs) lba k p f (b, h) l =
    write_bytes-before vs lba (k + 1) p (write_byte lba k v f) h (omega (arith, l))
    ∙ write_byte-other lba k v f b p (λ e. absurd (omega (arith, e, l)))

-- A run that is written is read again.
pub values-write_bytes :
    (vs : List ℕ) (lba k : ℕ) (f : Fat32)
    → AllBytes vs
    → values (λ p. sector_byte lba p (write_bytes lba k vs f)) k (length vs) ≡ vs
unfolding values
values-write_bytes [] lba k f h = refl
values-write_bytes (v ∷ vs) lba k f (b, h) =
    let f' = write_byte lba k v f in
    let first : sector_byte lba k (write_bytes lba (k + 1) vs f') ≡ v =
      write_bytes-before vs lba (k + 1) k f' h (omega arith) ∙ write_byte-same lba k v f b in
    let whole : write_bytes lba k (v ∷ vs) f ≡ write_bytes lba (k + 1) vs f' =
      unfold write_bytes in refl in
    ap (λ g. values (λ p. sector_byte lba p g) k (suc (length vs))) whole
    ∙ ap
        (λ c.
          c ∷ values (λ p. sector_byte lba p (write_bytes lba (k + 1) vs f')) (k + 1) (length vs))
        first
    ∙ ap (λ cs. v ∷ cs) (values-write_bytes vs lba (k + 1) f' h)
