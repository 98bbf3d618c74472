-- ===== src/Fat32/Name/Round.antt =====
-- What is created under a name is found under it, for the names that fs/fat32_vfs.cpp can hold.
use keon_os.Base.{
  ℕ, zero, suc, ◌+◌, ◌≤◌, ◌≡◌, inl, inr, refl, sym, ap, ◌∙◌, true, false, none, some, List, [], ◌∷◌,
  ◌++◌, length, ◌==◌, if◌then◌else◌, Bool-cases, arith,
}
use keon_os.Vfs.{dot, same_bytes}
use keon_os.Fat32.Name.{
  space, base, extension, pad, last_dot, create_name, mkdir_name, search_name, compare_fat_name,
}

abbrev pub HasNoDot : List ℕ → Type 0
HasNoDot [] = Unit {0}
HasNoDot (c ∷ cs) = ((c == dot) ≡ false) × HasNoDot cs

same_bytes_self : (cs : List ℕ) → same_bytes cs cs ≡ true
unfolding same_bytes
same_bytes_self [] = refl
same_bytes_self (c ∷ cs) =
    let here : (c == c) ≡ true = ground arith in rw (here, same_bytes_self cs) refl

-- A name without a dot in front is compared with `name83`.
compare_fat_name-same :
    (c : ℕ) (cs stored : List ℕ)
    → (c == dot) ≡ false
    → stored ≡ search_name (c ∷ cs)
    → compare_fat_name stored (c ∷ cs) ≡ true
unfolding compare_fat_name same_bytes
compare_fat_name-same c cs stored h e =
    rw (h)
      (ap (λ n. same_bytes n (search_name (c ∷ cs))) e ∙ same_bytes_self (search_name (c ∷ cs)))

base-stop : (n : ℕ) (b e : List ℕ) → HasNoDot b → length b ≤ n → (base n (b ++ dot ∷ e)).1 ≡ dot ∷ e
unfolding base
base-stop zero [] e h l = refl
base-stop zero (c ∷ b) e h l = absurd (omega (arith, l))
base-stop (suc n) [] e h l = refl
base-stop (suc n) (c ∷ b) e (here, h) l = rw here (base-stop n b e h (omega (arith, l)))

-- Without a dot, the base stops at its limit or at the end.
base-NoDot : (n : ℕ) (b : List ℕ) → HasNoDot b → HasNoDot (base n b).1
unfolding base
base-NoDot zero b h = h
base-NoDot (suc n) [] h = tt
base-NoDot (suc n) (c ∷ b) (here, h) = rw here (base-NoDot n b h)

last_dot-none : (b : List ℕ) → HasNoDot b → last_dot b ≡ none
unfolding last_dot
last_dot-none [] h = refl
last_dot-none (c ∷ b) (here, h) = rw (last_dot-none b h, here) refl

last_dot-some : (b e : List ℕ) → HasNoDot b → HasNoDot e → last_dot (b ++ dot ∷ e) ≡ some e
unfolding last_dot
last_dot-some [] e hb he = rw (last_dot-none e he) refl
last_dot-some (c ∷ b) e (here, hb) he = rw (last_dot-some b e hb he) refl

create_name-search_name :
    (b e : List ℕ)
    → HasNoDot b
    → HasNoDot e
    → length b ≤ 8
    → create_name (b ++ dot ∷ e) ≡ search_name (b ++ dot ∷ e)
unfolding create_name search_name
create_name-search_name b e hb he l = rw (last_dot-some b e hb he, base-stop 8 b e hb l) refl

no_extension :
    (r : List ℕ)
    → HasNoDot r
    → elim r [ [] ↦ pad 3 [] | c ∷ cs ↦ if c == dot then pad 3 (extension 3 cs) else pad 3 [] ]
      ≡ pad 3 []
no_extension [] h = refl
no_extension (c ∷ cs) (here, h) = rw here refl

plain-search_name : (b : List ℕ) → HasNoDot b → search_name b ≡ pad 8 (base 8 b).0 ++ pad 3 []
unfolding search_name
plain-search_name b h =
    ap (λ e. pad 8 (base 8 b).0 ++ e) (no_extension (base 8 b).1 (base-NoDot 8 b h))

pad-more : (n m : ℕ) (cs : List ℕ) → length cs ≤ n → pad (n + m) cs ≡ pad n cs ++ pad m []
unfolding pad
pad-more zero m [] l = let none_more : 0 + m ≡ m = omega arith in ap (λ k. pad k []) none_more
pad-more zero m (c ∷ cs) l = absurd (omega (arith, l))
pad-more (suc n) m [] l =
    let more : suc n + m ≡ suc (n + m) = omega arith in
    ap (λ k. pad k []) more ∙ ap (λ r. space ∷ r) (pad-more n m [] (omega arith))
pad-more (suc n) m (c ∷ cs) l =
    let more : suc n + m ≡ suc (n + m) = omega arith in
    ap (λ k. pad k (c ∷ cs)) more ∙ ap (λ r. c ∷ r) (pad-more n m cs (omega (arith, l)))

base-short : (n : ℕ) (cs : List ℕ) → length (base n cs).0 ≤ n
unfolding base
base-short zero cs = omega arith
base-short (suc n) [] = omega arith
base-short (suc n) (c ∷ cs) = elim (Bool-cases (c == dot)) [
  | inl e ↦ rw e (omega arith)
  | inr e ↦ let rest = base-short n cs in rw e (omega (arith, rest))
]

-- `create` leaves an entry that `compare_fat_name` finds under the same name, when the name has a
-- base of one to eight bytes, a dot, and no dot in the base and in what follows.
pub compare_fat_name-create_name :
    (c : ℕ) (b e : List ℕ)
    → HasNoDot (c ∷ b)
    → HasNoDot e
    → length (c ∷ b) ≤ 8
    → compare_fat_name (create_name (c ∷ b ++ dot ∷ e)) (c ∷ b ++ dot ∷ e) ≡ true
compare_fat_name-create_name c b e hb he l =
    compare_fat_name-same c (b ++ dot ∷ e) (create_name (c ∷ b ++ dot ∷ e)) hb.0
      (create_name-search_name (c ∷ b) e hb he l)

-- `create` and `mkdir` form the same bytes for a name without a dot, of any length, and
-- `compare_fat_name` finds them.
pub compare_fat_name-mkdir_name :
    (c : ℕ) (b : List ℕ)
    → HasNoDot (c ∷ b)
    → (create_name (c ∷ b) ≡ mkdir_name (c ∷ b))
      × (compare_fat_name (mkdir_name (c ∷ b)) (c ∷ b) ≡ true)
unfolding create_name mkdir_name
compare_fat_name-mkdir_name c b h =
    let name = c ∷ b in
    let split : mkdir_name name ≡ pad 8 (base 8 name).0 ++ pad 3 [] =
      pad-more 8 3 (base 8 name).0 (base-short 8 name) in
    let by_create : create_name name ≡ pad 8 (base 8 name).0 ++ pad 3 [] =
      rw (last_dot-none name h) refl in
    (
      by_create ∙ sym split,
      compare_fat_name-same c b (mkdir_name name) h.0 (split ∙ sym (plain-search_name name h)),
    )
