-- ===== src/Libc/Strings/Copy.antt =====
-- strlen, strcpy and strcat of libc/string on strings that end.
use keon_os.Base.{
  ℕ, zero, suc, ◌+◌, ◌≤◌, ◌<◌, ◌≡◌, ◌⊎◌, inl, inr, refl, sym, ap, ◌∙◌, true, false, some, List, [],
  ◌∷◌, ◌++◌, length, ◌==◌, Bool-cases, arith, ◌>>=◌,
}
use mathlib.Core.Path.{subst}
use keon_os.Libc.{Memory, poke}
use keon_os.Libc.Memory.{copy_up}
use keon_os.Libc.Memory.Copy.{Moved, copy_up_lem, poke-other}
use keon_os.Libc.Strings.{strlen, str_end, strcpy, copy_string, strcat, append_string}

-- At `s` stand the bytes `cs`, none of them zero, and a zero byte behind them.
abbrev pub IsString : Memory → ℕ → List ℕ → Type 0
IsString m s [] = m s ≡ 0
IsString m s (c ∷ cs) = (m s ≡ c) × (0 < c) × IsString m (s + 1) cs

-- `strlen` returns the number of bytes before the zero byte, if it may read that far.
pub strlen_lem :
    (cs : List ℕ) (fuel s : ℕ) (m : Memory)
    → IsString m s cs
    → length cs < fuel
    → strlen fuel s m ≡ some (length cs)
unfolding strlen
strlen_lem cs zero s m h l = absurd (omega arith)
strlen_lem [] (suc fuel) s m h l =
    let zero_here : (m s == 0) ≡ true = ground (arith, h) in rw zero_here refl
strlen_lem (c ∷ cs) (suc fuel) s m (here, some_char, h) l =
    let not_zero : (m s == 0) ≡ false = ground (arith, here, some_char) in
    rw (not_zero, strlen_lem cs fuel (s + 1) m h (omega arith)) refl

IsString-poke :
    (cs : List ℕ) (s a v : ℕ) (m : Memory)
    → (a < s) ⊎ (s + length cs < a)
    → IsString m s cs
    → IsString (poke m a v) s cs
IsString-poke [] s a v m far h = poke-other m a v s (ground (arith, far)) ∙ h
IsString-poke (c ∷ cs) s a v m far (here, some_char, h) = (
  poke-other m a v s (ground (arith, far)) ∙ here,
  some_char,
  IsString-poke cs (s + 1) a v m (ground (arith, far)) h,
)

-- The loop of `strcpy` is the one of `memcpy`, for the string and its zero byte.
copy_string_lem :
    (cs : List ℕ) (fuel dest src : ℕ) (m : Memory)
    → IsString m src cs
    → length cs < fuel
    → (dest ≤ src) ⊎ (src + length cs < dest)
    → copy_string fuel dest src m ≡ some (copy_up (suc (length cs)) dest src m)
unfolding copy_string copy_up
copy_string_lem cs zero dest src m h l apart = absurd (omega arith)
copy_string_lem [] (suc fuel) dest src m h l apart =
    let zero_here : (m src == 0) ≡ true = ground (arith, h) in rw zero_here refl
copy_string_lem (c ∷ cs) (suc fuel) dest src m (here, some_char, h) l apart =
    let not_zero : (m src == 0) ≡ false = ground (arith, here, some_char) in
    let m' = poke m dest (m src) in
    rw not_zero (
      copy_string_lem cs fuel (dest + 1) (src + 1) m'
        (IsString-poke cs (src + 1) dest (m src) m (ground (arith, apart)) h) (omega arith)
        (ground (arith, apart)))

-- Bytes that are equal to those of a string are a string.
Moved-IsString :
    (cs : List ℕ) (dest src : ℕ) (m m' : Memory)
    → ((i : ℕ) → i < suc (length cs) → m' (dest + i) ≡ m (src + i))
    → IsString m src cs
    → IsString m' dest cs
Moved-IsString [] dest src m m' same h =
    ap m' (omega arith) ∙ same 0 (omega arith) ∙ ap m (omega arith) ∙ h
Moved-IsString (c ∷ cs) dest src m m' same (here, some_char, h) = (
  ap m' (omega arith) ∙ same 0 (omega arith) ∙ ap m (omega arith) ∙ here,
  some_char,
  Moved-IsString cs (dest + 1) (src + 1) m m'
      (λ i l. ap m' (omega arith) ∙ same (suc i) (omega arith) ∙ ap m (omega arith)) h,
)

-- `strcpy` ends, if it may read to the zero byte and the string does not reach from below into the destination.
-- The destination then holds the string, by the bytes that the source had before the call, and all
-- bytes outside of it stay.
pub strcpy_lem :
    (cs : List ℕ) (fuel dest src : ℕ) (m : Memory)
    → IsString m src cs
    → length cs < fuel
    → (dest ≤ src) ⊎ (src + length cs < dest)
    → (m' : Memory) × (strcpy fuel dest src m ≡ some m')
      × IsString m' dest cs
      × Moved (suc (length cs)) dest src m m'
unfolding strcpy
strcpy_lem cs fuel dest src m h l apart =
    let moved = copy_up_lem (suc (length cs)) dest src m (ground (arith, apart)) in
    let m' = copy_up (suc (length cs)) dest src m in
    (
      m',
      copy_string_lem cs fuel dest src m h l apart,
      Moved-IsString cs dest src m m' moved.inside h,
      moved,
    )

append-copy :
    (fuel ptr src : ℕ) (m : Memory) → append_string fuel ptr src m ≡ copy_string fuel ptr src m
unfolding append_string copy_string
append-copy zero ptr src m = refl
append-copy (suc fuel) ptr src m = elim (Bool-cases (m src == 0)) [
  | inl end ↦
      let zero_here : m src ≡ 0 = ground (arith, end) in
      rw end (ap (λ v. some (poke m ptr v)) (sym zero_here))
  | inr more ↦ rw more (append-copy fuel (ptr + 1) (src + 1) (poke m ptr (m src)))
]

IsString-append :
    (cs ds : List ℕ) (s : ℕ) (m m' : Memory)
    → ((i : ℕ) → i < length cs → m' (s + i) ≡ m (s + i))
    → IsString m s cs
    → IsString m' (s + length cs) ds
    → IsString m' s (cs ++ ds)
IsString-append [] ds s m m' same h t =
    let here : s + 0 ≡ s = omega arith in subst (λ k. IsString m' k ds) here t
IsString-append (c ∷ cs) ds s m m' same (here, some_char, h) t = (
  ap m' (omega arith) ∙ same 0 (omega arith) ∙ ap m (omega arith) ∙ here,
  some_char,
  IsString-append cs ds (s + 1) m m'
      (λ i l. ap m' (omega arith) ∙ same (suc i) (omega arith) ∙ ap m (omega arith)) h
      (let next : s + suc (length cs) ≡ s + 1 + length cs = omega arith in
        subst (λ k. IsString m' k ds) next t),
)

-- `strcat` ends, if it may read to both zero bytes and the source string does not reach from below into the place where it
-- goes. The destination then holds its old string with the source string behind it, and all bytes
-- outside of what is appended stay.
pub strcat_lem :
    (cs ds : List ℕ) (fuel dest src : ℕ) (m : Memory)
    → IsString m dest cs
    → IsString m src ds
    → length cs < fuel
    → length ds < fuel
    → (dest + length cs ≤ src) ⊎ (src + length ds < dest + length cs)
    → (m' : Memory) × (strcat fuel dest src m ≡ some m')
      × IsString m' dest (cs ++ ds)
      × Moved (suc (length ds)) (dest + length cs) src m m'
unfolding strcat str_end strcpy ◌>>=◌
strcat_lem cs ds fuel dest src m hc hd lc ld apart =
    let ptr = dest + length cs in
    let (m', done, string, moved) = strcpy_lem ds fuel ptr src m hd ld apart in
    (
      m',
      rw (strlen_lem cs fuel dest m hc lc) (append-copy fuel ptr src m ∙ done),
      IsString-append cs ds dest m m' (λ i l. moved.outside (dest + i) (inl (omega arith))) hc
          string,
      moved,
    )
