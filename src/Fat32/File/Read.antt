-- ===== src/Fat32/File/Read.antt =====
-- What `FAT32_File::read` of fs/fat32_vfs.cpp returns, against the content of the chain.
use keon_os.Base.{
  ℕ, zero, suc, ◌+◌, ◌-◌, ◌*◌, ◌≤◌, ◌<◌, ◌≡◌, inl, inr, refl, sym, ap, ◌∙◌, true, false, List, [],
  ◌∷◌, ◌++◌, length, ltb, leb, ◌==◌, if◌then◌else◌, Bool-cases, arith,
}
use keon_os.Fat32.{Fat32, end_of_chain, get_next_cluster}
use keon_os.Fat32.Chain.{IsChain}
use keon_os.Fat32.File.{cluster_size, cluster_byte, values, min, read_loop}

-- Byte `p` of the clusters `cs`, one after another.
pub content : Fat32 → List ℕ → ℕ → ℕ
content f [] p = 0
content f (c ∷ cs) p =
    if ltb p (cluster_size f) then cluster_byte c f p else content f cs (p - cluster_size f)

pub values_ext :
    (g h : ℕ → ℕ) (n p q : ℕ)
    → ((i : ℕ) → i < n → g (p + i) ≡ h (q + i))
    → values g p n ≡ values h q n
unfolding values
values_ext g h zero p q e = refl
values_ext g h (suc n) p q e =
    let here : g p ≡ h q = ap g (omega arith) ∙ e 0 (omega arith) ∙ ap h (omega arith) in
    ap (λ v. v ∷ values g (p + 1) n) here
    ∙ ap (λ vs. h q ∷ vs)
        (values_ext g h n (p + 1) (q + 1)
          (λ i l. ap g (omega arith) ∙ e (suc i) (omega arith) ∙ ap h (omega arith)))

pub values-add : (g : ℕ → ℕ) (n m p : ℕ) → values g p (n + m) ≡ values g p n ++ values g (p + n) m
unfolding values
values-add g zero m p =
    let none_more : 0 + m ≡ m = omega arith in
    let here : p ≡ p + 0 = omega arith in ap (values g p) none_more ∙ ap (λ q. values g q m) here
values-add g (suc n) m p =
    let more : suc n + m ≡ suc (n + m) = omega arith in
    let next : p + 1 + n ≡ p + suc n = omega arith in
    ap (values g p) more
    ∙ ap (λ vs. g p ∷ vs)
        (values-add g n m (p + 1) ∙ ap (λ q. values g (p + 1) n ++ values g q m) next)

content-here :
    (f : Fat32) (c : ℕ) (cs : List ℕ) (p : ℕ)
    → p < cluster_size f
    → content f (c ∷ cs) p ≡ cluster_byte c f p
unfolding content
content-here f c cs p l =
    let test : ltb p (cluster_size f) ≡ true = ground (arith, l) in rw test refl

pub content-later :
    (f : Fat32) (c : ℕ) (cs : List ℕ) (p : ℕ)
    → content f (c ∷ cs) (cluster_size f + p) ≡ content f cs p
unfolding content
content-later f c cs p =
    let test : ltb (cluster_size f + p) (cluster_size f) ≡ false = ground arith in
    let less : cluster_size f + p - cluster_size f ≡ p = omega arith in rw (test, less) refl

-- One round of the loop, by whether it is the last.
module _ (fuel c offset left : ℕ) (f : Fat32) where
  pub read_loop-done : left ≡ 0 → read_loop (suc fuel) c offset left f ≡ []
  unfolding read_loop
  read_loop-done e = let test : (left == 0) ≡ true = ground (arith, e) in rw test refl

  read_loop-last :
      0 < left
      → left ≤ cluster_size f - offset
      → read_loop (suc fuel) c offset left f ≡ values (cluster_byte c f) offset left
  unfolding read_loop min
  read_loop-last some_left fits =
      let test : (left == 0) ≡ false = ground (arith, some_left) in
      elim (Bool-cases (ltb left (cluster_size f - offset))) [
        | inl less ↦ let end : ltb left left ≡ false = ground arith in rw (test, less, end) refl
        | inr more ↦
            let all : cluster_size f - offset ≡ left = ground (arith, more, fits) in
            let end : ltb left left ≡ false = ground arith in rw (test, more, all, end) refl
      ]

  read_loop-next :
      cluster_size f - offset < left
      → get_next_cluster c f < end_of_chain
      → read_loop (suc fuel) c offset left f
        ≡ values (cluster_byte c f) offset (cluster_size f - offset)
          ++ read_loop fuel (get_next_cluster c f) 0 (left - (cluster_size f - offset)) f
  unfolding read_loop min
  read_loop-next less open_chain =
      let test : (left == 0) ≡ false = ground (arith, less) in
      let copy_all : ltb left (cluster_size f - offset) ≡ false = ground (arith, less) in
      let more : ltb (cluster_size f - offset) left ≡ true = ground (arith, less) in
      let link : leb end_of_chain (get_next_cluster c f) ≡ false = ground (arith, open_chain) in
      rw (test, copy_all, more, link) refl

pub values-zero : (g : ℕ → ℕ) (p n : ℕ) → n ≡ 0 → values g p n ≡ []
unfolding values
values-zero g p n e = ap (values g p) e

-- The part of the first cluster.
values-here :
    (f : Fat32) (c : ℕ) (cs : List ℕ) (offset n : ℕ)
    → offset + n ≤ cluster_size f
    → values (cluster_byte c f) offset n ≡ values (content f (c ∷ cs)) offset n
values-here f c cs offset n fits =
    values_ext (cluster_byte c f) (content f (c ∷ cs)) n offset offset
      (λ i l. sym (content-here f c cs (offset + i) (omega (arith, fits, l))))

-- The loop returns the next bytes of the clusters that are left.
pub read_loop_lem :
    (cs : List ℕ) (fuel c offset left : ℕ) (f : Fat32)
    → IsChain f c cs
    → offset < cluster_size f
    → offset + left ≤ length cs * cluster_size f
    → left < fuel
    → read_loop fuel c offset left f ≡ values (content f cs) offset left
read_loop_lem cs zero c offset left f h l inside enough = absurd (omega arith)
read_loop_lem [] (suc fuel) c offset left f h l inside enough =
    let none_left : left ≡ 0 = omega (arith, inside) in
    read_loop-done fuel c offset left f none_left
    ∙ sym (values-zero (content f []) offset left none_left)
read_loop_lem (d ∷ cs) (suc fuel) c offset left f (here, pos, below, in_table, once, h) l inside
      enough =
    let size = cluster_size f in
    let longer : suc (length cs) * size ≡ size + length cs * size = grind arith in
    ap (λ k. read_loop (suc fuel) k offset left f) here
    ∙ elim (Bool-cases (leb left (size - offset))) [
      | inl fits ↦ elim (Bool-cases (left == 0)) [
        | inl nil ↦
            let none_left : left ≡ 0 = ground (arith, nil) in
            read_loop-done fuel d offset left f none_left
            ∙ sym (values-zero (content f (d ∷ cs)) offset left none_left)
        | inr some_left ↦
            read_loop-last fuel d offset left f (ground (arith, some_left)) (ground (arith, fits))
            ∙ values-here f d cs offset left (ground (arith, fits, l))
      ]
      | inr more ↦
          let over : size - offset < left = ground (arith, more) in
          read_loop-next fuel d offset left f over
            (goes_on cs (get_next_cluster d f) h (omega (arith, inside, longer, over, l)))
          ∙ ap (λ vs. vs ++ read_loop fuel (get_next_cluster d f) 0 (left - (size - offset)) f)
              (values-here f d cs offset (size - offset) (omega (arith, l)))
          ∙ ap (λ vs. values (content f (d ∷ cs)) offset (size - offset) ++ vs)
              (read_loop_lem cs fuel (get_next_cluster d f) 0 (left - (size - offset)) f h
                  (omega (arith, l)) (omega (arith, inside, longer, over, l))
                  (omega (arith, enough, over, l))
                ∙ values_ext (content f cs) (content f (d ∷ cs)) (left - (size - offset)) 0
                    (offset + (size - offset))
                    (λ i li. sym (later i (offset + (size - offset) + i) (omega (arith, l)))))
          ∙ sym (values-add (content f (d ∷ cs)) (size - offset) (left - (size - offset)) offset)
          ∙ ap (values (content f (d ∷ cs)) offset) (omega (arith, over))
    ]
  where
    goes_on :
        (cs : List ℕ) (n : ℕ) → IsChain f n cs → 0 < length cs * cluster_size f → n < end_of_chain
    goes_on [] n h l = absurd (omega (arith, l))
    goes_on (e ∷ es) n h l = omega (arith, h.0, h.2)

    later : (i p : ℕ) → p ≡ cluster_size f + i → content f (d ∷ cs) p ≡ content f cs (0 + i)
    later i p e =
        ap (content f (d ∷ cs)) e ∙ content-later f d cs i ∙ ap (content f cs) (omega arith)
