-- ===== src/Fat32/Name.antt =====
-- The 8.3 names of fs/fat32_vfs.cpp: how `create` and `mkdir` of `FAT32_Directory` form the eleven bytes of an
-- entry, and how `compare_fat_name` looks for them.
pub mod Round
use keon_os.Base.{
  ℕ, zero, suc, ◌+◌, ◌-◌, Bool, true, false, ◌&&◌, Option, none, some, List, [], ◌∷◌, ◌++◌, leb,
  ◌==◌, if◌then◌else◌,
}
use keon_os.Vfs.{dot, same_bytes}

abbrev pub space : ℕ
space = 32

-- A letter from a to z as a capital.
unfoldable pub upper : ℕ → ℕ
upper c = if leb 97 c && leb c 122 then c - 32 else c

-- The loop over the base of a name: at most `n` bytes before a dot or the end, and what is left.
unfoldable pub base : ℕ → List ℕ → List ℕ × List ℕ
base zero cs = ([], cs)
base (suc n) [] = ([], [])
base (suc n) (c ∷ cs) = let r = base n cs in if c == dot then ([], c ∷ cs) else (upper c ∷ r.0, r.1)

-- The loop over an extension: at most `n` bytes.
unfoldable pub extension : ℕ → List ℕ → List ℕ
extension zero cs = []
extension (suc n) [] = []
extension (suc n) (c ∷ cs) = upper c ∷ extension n cs

-- `n` bytes, `cs` in front and spaces behind.
unfoldable pub pad : ℕ → List ℕ → List ℕ
pad zero cs = []
pad (suc n) [] = space ∷ pad n []
pad (suc n) (c ∷ cs) = c ∷ pad n cs

-- `strrchr(name, '.')`: what follows the last dot.
unfoldable pub last_dot : List ℕ → Option (List ℕ)
last_dot [] = none
last_dot (c ∷ cs) = elim (last_dot cs) [
  | some e ↦ some e
  | none ↦ if c == dot then some cs else none
]

-- The name of an entry that `FAT32_Directory::create` writes.
unfoldable pub create_name : List ℕ → List ℕ
create_name name =
    pad 8 (base 8 name).0
    ++ elim (last_dot name) [ some e ↦ pad 3 (extension 3 e) | none ↦ pad 3 [] ]

-- The name of an entry that `FAT32_Directory::mkdir` writes.
unfoldable pub mkdir_name : List ℕ → List ℕ
mkdir_name name = pad 11 (base 8 name).0

-- `name83` of `compare_fat_name`.
unfoldable pub search_name : List ℕ → List ℕ
search_name name =
    let r = base 8 name in
    pad 8 r.0
    ++ elim r.1 [ [] ↦ pad 3 [] | c ∷ cs ↦ if c == dot then pad 3 (extension 3 cs) else pad 3 [] ]

unfoldable pub compare_fat_name : List ℕ → List ℕ → Bool
compare_fat_name fat_name name =
    if same_bytes name (dot ∷ [])
    then same_bytes fat_name (pad 11 (dot ∷ []))
    else if same_bytes name (dot ∷ dot ∷ [])
    then same_bytes fat_name (pad 11 (dot ∷ dot ∷ []))
    else same_bytes fat_name (search_name name)
