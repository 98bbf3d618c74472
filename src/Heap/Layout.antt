-- ===== src/Heap/Layout.antt =====
-- Where the blocks of a chain lie in memory, and which of them are in use.
use keon_os.Base.{ℕ, ◌+◌, ◌≤◌, ◌<◌, ◌≡◌, refl, List, [], ◌∷◌, ◌++◌, arith, if◌then◌else◌}
use keon_os.Heap.{Block, header, u64}

-- The blocks, headers included, lie in this order and without overlap between `lo` and `hi`.
abbrev pub Spans : ℕ → List Block → ℕ → Type 0
Spans lo [] hi = lo ≤ hi
Spans lo (b ∷ bs) hi = (lo ≤ b.addr) × Spans (b.addr + header + b.size) bs hi

-- The blocks that are in use, in the order of the chain.
abbrev pub in_use : List Block → List Block
in_use [] = []
in_use (b ∷ bs) = if b.free then in_use bs else b ∷ in_use bs

-- A chain in the memory from `lo` to `hi`, off the null page.
pub record IsWellFormed (lo hi : ℕ) (bs : List Block) : Type 0 where
  pub low : 0 < lo
  pub high : hi ≤ u64
  pub spans : Spans lo bs hi

pub Spans-le : (lo hi : ℕ) (bs : List Block) → Spans lo bs hi → lo ≤ hi
Spans-le lo hi [] h = h
Spans-le lo hi (b ∷ bs) h = omega (arith, Spans-le (b.addr + header + b.size) hi bs h.1)

pub Spans-split :
    (lo hi : ℕ) (xs ys : List Block)
    → Spans lo (xs ++ ys) hi
    → (mid : ℕ) × Spans lo xs mid × Spans mid ys hi
Spans-split lo hi [] ys h = (lo, omega arith, h)
Spans-split lo hi (x ∷ xs) ys h =
    let (mid, l, r) = Spans-split (x.addr + header + x.size) hi xs ys h.1 in (mid, (h.0, l), r)

pub Spans-join :
    (lo mid hi : ℕ) (xs ys : List Block)
    → Spans lo xs mid
    → Spans mid ys hi
    → Spans lo (xs ++ ys) hi
Spans-join lo mid hi [] [] l r = omega arith
Spans-join lo mid hi [] (y ∷ ys) l r = (omega arith, r.1)
Spans-join lo mid hi (x ∷ xs) ys l r =
    (l.0, Spans-join (x.addr + header + x.size) mid hi xs ys l.1 r)

pub in_use-append : (xs ys : List Block) → in_use (xs ++ ys) ≡ in_use xs ++ in_use ys
in_use-append [] ys = refl
in_use-append (x ∷ xs) ys = ground (arith, in_use-append xs ys)
