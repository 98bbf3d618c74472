-- ===== src/Thread/Bury.antt =====
-- A thread that is buried leaves the circle of kernel/arch/x86_64/thread.cpp.
use keon_os.Base.{
  ℕ, ◌≡◌, ◌≢◌, inl, inr, refl, sym, ◌∙◌, true, false, none, some, List, [], ◌∷◌, ◌++◌, arith, ◌==◌,
  Bool-cases, ap,
}
use mathlib.Core.Bool.{false≢true}
use mathlib.Core.Path.{subst}
use keon_os.Thread.{
  Thread, Sched, zombie, is_zombie, find, before, behind, remove, bury, die, update,
}
use keon_os.Thread.Choice.{Inv}
use keon_os.Thread.Ring.{Fresh, Distinct, All, Fresh-In, In-append_right}

Fresh-remove : (a : ℕ) (ts : List Thread) → Distinct ts → Fresh a (remove a ts)
unfolding remove
Fresh-remove a [] d = tt
Fresh-remove a (t ∷ ts) d = elim (Bool-cases (t.addr == a)) [
  | inl hit ↦ let e : t.addr ≡ a = ground arith in rw hit (subst (λ b. Fresh b ts) e d.0)
  | inr miss ↦ rw miss (ground arith, Fresh-remove a ts d.1)
]

Fresh-remove_weak : (b a : ℕ) (ts : List Thread) → Fresh b ts → Fresh b (remove a ts)
unfolding remove
Fresh-remove_weak b a [] h = tt
Fresh-remove_weak b a (t ∷ ts) h = elim (Bool-cases (t.addr == a)) [
  | inl hit ↦ rw hit h.1
  | inr miss ↦ rw miss (h.0, Fresh-remove_weak b a ts h.1)
]

Distinct-remove : (a : ℕ) (ts : List Thread) → Distinct ts → Distinct (remove a ts)
unfolding remove
Distinct-remove a [] d = tt
Distinct-remove a (t ∷ ts) d = elim (Bool-cases (t.addr == a)) [
  | inl hit ↦ rw hit d.1
  | inr miss ↦ rw miss (Fresh-remove_weak t.addr a ts d.0, Distinct-remove a ts d.1)
]

All-remove {ℓ} : (P : Thread → Type ℓ) (a : ℕ) (ts : List Thread) → All P ts → All P (remove a ts)
unfolding remove
All-remove P a [] h = tt
All-remove P a (t ∷ ts) h = elim (Bool-cases (t.addr == a)) [
  | inl hit ↦ rw hit h.1
  | inr miss ↦ rw miss (h.0, All-remove P a ts h.1)
]

find-remove_ne : (b a : ℕ) (ts : List Thread) → b ≢ a → find b (remove a ts) ≡ find b ts
unfolding remove find
find-remove_ne b a [] ne = refl
find-remove_ne b a (t ∷ ts) ne = ground (arith, find-remove_ne b a ts)

Fresh-find : (a : ℕ) (ts : List Thread) → Fresh a ts → find a ts ≡ none
unfolding find
Fresh-find a [] h = refl
Fresh-find a (t ∷ ts) h = ground (arith, Fresh-find a ts h.1)

find-head : (t : Thread) (a : ℕ) (ts : List Thread) → t.addr ≡ a → find a (t ∷ ts) ≡ some t
unfolding find
find-head t a ts e = let hit : (t.addr == a) ≡ true = ground arith in rw hit

find-tail : (t : Thread) (a : ℕ) (ts : List Thread) → t.addr ≢ a → find a (t ∷ ts) ≡ find a ts
unfolding find
find-tail t a ts ne = let miss : (t.addr == a) ≡ false = ground arith in rw miss

pub Distinct-cut :
    (pre : List Thread) (t : Thread) (post : List Thread)
    → Distinct (pre ++ t ∷ post)
    → Fresh t.addr pre × Fresh t.addr post
Distinct-cut [] t post d = (tt, d.0)
Distinct-cut (x ∷ pre) t post d =
    let ne =
      Fresh-In x.addr t (pre ++ t ∷ post) d.0 (In-append_right t pre (t ∷ post) (inl refl)) in
    let rest = Distinct-cut pre t post d.1 in ((λ e. ne (sym e), rest.0), rest.1)

update-Fresh : (a : ℕ) (f : Thread → Thread) (ts : List Thread) → Fresh a ts → update a f ts ≡ ts
unfolding update
update-Fresh a f [] h = refl
update-Fresh a f (t ∷ ts) (ne, h) =
    let miss : (t.addr == a) ≡ false = ground (arith, ne) in
    rw miss (ap (λ xs. t ∷ xs) (update-Fresh a f ts h))

remove-update :
    (a code : ℕ) (ts : List Thread) → Distinct ts → remove a (update a (die code) ts) ≡ remove a ts
unfolding remove update die
remove-update a code [] d = refl
remove-update a code (t ∷ ts) d = elim (Bool-cases (t.addr == a)) [
  | inl hit ↦
      let e : t.addr ≡ a = ground arith in
      rw (hit, hit) (update-Fresh a (die code) ts (subst (λ b. Fresh b ts) e d.0))
  | inr miss ↦ rw (miss, miss) (ap (λ xs. t ∷ xs) (remove-update a code ts d.1))
]

find-update :
    (a code : ℕ) (ts : List Thread) (t : Thread)
    → find a ts ≡ some t
    → find a (update a (die code) ts) ≡ some (die code t)
unfolding find update die
find-update a code [] t e = absurd (false≢true (cc))
find-update a code (x ∷ xs) t e = elim (Bool-cases (x.addr == a)) [
  | inl hit ↦ let same : x ≡ t = ground arith in rw (hit, hit) (ap (λ y. some (die code y)) same)
  | inr miss ↦ rw (miss, miss) (find-update a code xs t (rw miss at e))
]

-- A thread that stands on the circle is taken off it and leads the zombie list.
bury-remove :
    (t : Thread) (code : ℕ) (s : Sched)
    → Distinct s.ring
    → find t.addr s.ring ≡ some t
    → bury t code s ≡ record s { ring = remove t.addr s.ring; zombies = die code t ∷ s.zombies }
unfolding bury
bury-remove t code s d at_t =
    rw (bury, find-update t.addr code s.ring t at_t, remove-update t.addr code s.ring d) refl

remove-split :
    (a : ℕ) (ts : List Thread) (t : Thread)
    → find a ts ≡ some t
    → remove a ts ≡ before a ts ++ behind a ts
unfolding remove before behind find
remove-split a [] t e = absurd (false≢true (cc))
remove-split a (x ∷ xs) t e = elim (Bool-cases (x.addr == a)) [
  | inl hit ↦ rw hit refl
  | inr miss ↦ rw miss (ap (λ ys. x ∷ ys) (remove-split a xs t (rw miss at e)))
]

-- The thread is off the circle, where the others stand in their order, and it leads the zombie list, marked dead with
-- the code; nothing else is changed.
pub record Buried (t : Thread) (code : ℕ) (s q : Sched) : Type 0 where
  pub off : find t.addr q.ring ≡ none
  pub ring : q.ring ≡ before t.addr s.ring ++ behind t.addr s.ring
  pub zombies : q.zombies ≡ record t { state = zombie; exit_code = code } ∷ s.zombies
  pub rest : record q { ring = s.ring; zombies = s.zombies } ≡ s

pub bury-Buried :
    (t : Thread) (code : ℕ) (s : Sched)
    → Distinct s.ring
    → find t.addr s.ring ≡ some t
    → Buried t code s (bury t code s)
unfolding die
bury-Buried t code s d at_t = subst (Buried t code s) (sym (bury-remove t code s d at_t)) (record {
  off = Fresh-find t.addr (remove t.addr s.ring) (Fresh-remove t.addr s.ring d);
  ring = remove-split t.addr s.ring t at_t;
  zombies = refl;
  rest = refl;
})

-- A thread is buried that is not the idle one.
pub bury-Inv :
    (t : Thread) (code : ℕ) (s : Sched)
    → Inv s
    → find t.addr s.ring ≡ some t
    → t.addr ≢ s.idle
    → Inv (bury t code s)
unfolding die
bury-Inv t code s inv at_t ne = subst Inv (sym (bury-remove t code s inv.distinct at_t)) (record {
  distinct = Distinct-remove t.addr s.ring inv.distinct;
  alive = All-remove (λ t. is_zombie t.state ≡ false) t.addr s.ring inv.alive;
  dead = (refl, inv.dead);
  idle = (inv.idle.0, find-remove_ne s.idle t.addr s.ring (λ e. ne (sym e)) ∙ inv.idle.1);
  current = elim (Bool-cases (s.current == t.addr)) [
    | inl hit ↦
        let e : t.addr ≡ s.current = ground arith in
        inr (
          Fresh-find s.current (remove t.addr s.ring) (
              subst (λ a. Fresh a (remove t.addr s.ring)) e
                (Fresh-remove t.addr s.ring inv.distinct)),
          _,
          find-head (record t { state = zombie; exit_code = code }) s.current s.zombies e,
        )
    | inr miss ↦
        let apart : s.current ≢ t.addr = ground arith in
        elim inv.current [
          | inl (c, e) ↦ inl (c, find-remove_ne s.current t.addr s.ring apart ∙ e)
          | inr (g, z, e) ↦ inr (
            find-remove_ne s.current t.addr s.ring apart ∙ g,
            z,
            find-tail (record t { state = zombie; exit_code = code }) s.current s.zombies
                  (λ q. apart (sym q))
                ∙ e,
          )
        ]
  ];
})
