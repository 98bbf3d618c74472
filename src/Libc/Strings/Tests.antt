-- ===== src/Libc/Strings/Tests.antt =====
-- Runs of the string functions, and their theorems, over a memory with "hi" at 10 and "ho" at 20.
use keon_os.Base.{ℕ, ◌≡◌, refl, some, List, [], ◌∷◌, ◌==◌, if◌then◌else◌, arith}
use keon_os.Libc.{Memory}
use keon_os.Libc.Strings.{strcmp, strncmp}
use keon_os.Libc.Strings.Copy.{IsString}
use keon_os.Libc.Strings.Order.{Ordered, strcmp_lem}

abbrev words : Memory
words a =
    if a == 10
    then 104
    else if a == 11
    then 105
    else if a == 20
    then 104
    else if a == 21
    then 111
    else 0

abbrev hi : List ℕ
hi = 104 ∷ 105 ∷ []

abbrev ho : List ℕ
ho = 104 ∷ 111 ∷ []

strncmp_run : strncmp 10 20 2 words ≡ (105, 111)
unfolding strncmp
strncmp_run = refl

hi-IsString : IsString words 10 hi
hi-IsString = (refl, omega arith, (refl, omega arith, refl))

ho-IsString : IsString words 20 ho
ho-IsString = (refl, omega arith, (refl, omega arith, refl))

strcmp_lem_example : (r : ℕ × ℕ) × (strcmp 9 10 20 words ≡ some r) × Ordered hi ho r
strcmp_lem_example = strcmp_lem hi ho 9 10 20 words hi-IsString ho-IsString (omega arith)
