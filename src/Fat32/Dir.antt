-- ===== src/Fat32/Dir.antt =====
-- `FAT32_Directory` of fs/fat32_vfs.cpp: the look-up of a name and the listing. An entry is its 32 bytes, as a
-- function, and a buffer that holds a name is its 256 bytes. `kmalloc` gives the buffer of a cluster.
pub mod Find
pub mod Change
mod Tests
use keon_os.Base.{
  ℕ, zero, suc, ◌+◌, ◌-◌, ◌*◌, ◌/◌, ◌%◌, ◌^◌, Bool, true, false, ◌&&◌, ◌||◌, not, Option, none,
  some, List, [], ◌∷◌, ◌++◌, take, ltb, leb, ◌==◌, if◌then◌else◌,
}
use keon_os.Vfs.{Dirent, dot, same_bytes}
use keon_os.Fat32.{Fat32, u32, end_of_chain, cluster_to_lba, get_next_cluster}
use keon_os.Fat32.File.{File, cluster_size, cluster_byte, values}
use keon_os.Fat32.Name.{space, compare_fat_name}

abbrev pub Entry : Type 0
Entry = ℕ → ℕ

-- Entry `i` of a cluster.
abbrev pub entry_at : ℕ → ℕ → Fat32 → Entry
entry_at cluster i f k = cluster_byte cluster f (32 * i + k)

abbrev pub entry_name : Entry → List ℕ
entry_name e = values e 0 11

abbrev pub attr : Entry → ℕ
attr e = e 11

-- The 16 bits from byte `k` on.
abbrev pub half : ℕ → Entry → ℕ
half k e = e k + e (k + 1) * 256

-- `cluster_high << 16 | cluster_low`
abbrev pub entry_cluster : Entry → ℕ
entry_cluster e = half 20 e * 2 ^ 16 + half 26 e

abbrev pub file_size : Entry → ℕ
file_size e = half 28 e + half 30 e * 2 ^ 16

abbrev pub has_bit : ℕ → ℕ → Bool
has_bit k a = a / 2 ^ k % 2 == 1

-- `attr & 0x08`, `attr & 0x10` and `attr == 0x0F`.
abbrev pub is_label : Entry → Bool
is_label e = has_bit 3 (attr e)

abbrev pub is_directory : Entry → Bool
is_directory e = has_bit 4 (attr e)

abbrev pub is_long : Entry → Bool
is_long e = attr e == 0x0f

abbrev pub Buffer : Type 0
Buffer = ℕ → ℕ

abbrev pub zeros : Buffer
zeros k = 0

abbrev pub put : ℕ → ℕ → Buffer → Buffer
put at v b k = if k == at then v else b k

-- The bytes of a buffer before the zero byte, `n` at most.
unfoldable pub c_string : ℕ → ℕ → Buffer → List ℕ
c_string zero k b = []
c_string (suc n) k b = let rest = c_string n (k + 1) b in if b k == 0 then [] else b k ∷ rest

-- A loop over `n` characters of 16 bits from byte `k` of a long entry on.
unfoldable pub put_run : (ℕ → Bool) → ℕ → ℕ → ℕ → Entry → Buffer → Buffer
put_run keep zero k at e b = b
put_run keep (suc n) k at e b =
    put_run keep n (k + 2) (at + 1) e (if keep (half k e) then put at (half k e % 256) b else b)

-- The part of a long name that an entry holds, at `((sequence & 0x3F) - 1) * 13`.
unfoldable pub put_long : (ℕ → Bool) → Entry → Buffer → Buffer
put_long keep e b =
    let index = (e 0 % 64 - 1) * 13 in
    if e 0 % 64 == 0 || leb 240 index
    then b
    else put_run keep 2 28 (index + 11) e
        (put_run keep 6 14 (index + 5) e (put_run keep 5 1 index e b))

-- What `finddir` and `readdir` take of a character: 0 is left out, and by `finddir` 0xFFFF.
abbrev pub in_find : ℕ → Bool
in_find w = not (w == 0) && not (w == 0xffff)

abbrev pub in_list : ℕ → Bool
in_list w = not (w == 0)

pub data FatNode : Type 0 where
  directory : List ℕ → ℕ → FatNode
  file : List ℕ → File → FatNode

-- The node for an entry that is at index `i` of a cluster.
unfoldable pub make_node : List ℕ → ℕ → ℕ → Fat32 → FatNode
make_node name cluster i f =
    let e = entry_at cluster i f in
    if is_directory e
    then directory (take 127 name) (entry_cluster e)
    else file (take 127 name) (record {
      first_cluster = entry_cluster e;
      size = file_size e;
      dir_entry_lba = (cluster_to_lba cluster f + i * 32 / 512) % u32;
      dir_entry_offset = i * 32 % 512;
    })

-- What one entry does to the search: it ends without a node, it gives one, or it goes on, with the buffer.
pub data Step (A : Type 0) : Type 0 where
  stop : Step A
  found : A → Step A
  next : Buffer → Step A

unfoldable pub entry_matches : List ℕ → Entry → Buffer → Bool
entry_matches name e b =
    if b 0 == 0 then compare_fat_name (entry_name e) name else same_bytes (c_string 256 0 b) name

-- The body of the inner loop of `finddir`.
unfoldable pub find_step : List ℕ → ℕ → ℕ → Fat32 → Buffer → Step FatNode
find_step name cluster i f b =
    let e = entry_at cluster i f in
    if e 0 == 0
    then stop
    else if e 0 == 0xe5
    then next zeros
    else if is_label e && not (is_long e)
    then next b
    else if is_long e
    then next (put_long in_find e b)
    else if entry_matches name e b
    then found (make_node name cluster i f)
    else next zeros

-- The inner loop: `n` entries from `i` on.
unfoldable pub find_in : List ℕ → ℕ → ℕ → ℕ → Fat32 → Buffer → Step FatNode
find_in name zero i cluster f b = next b
find_in name (suc n) i cluster f b = elim (find_step name cluster i f b) [
  | stop ↦ stop
  | found node ↦ found node
  | next b' ↦ find_in name n (i + 1) cluster f b'
]

abbrev pub entries_of : Fat32 → ℕ
entries_of f = cluster_size f / 32

-- The outer loop, over the chain, on fuel; `none` is no fuel left.
unfoldable pub find_from : ℕ → List ℕ → ℕ → Fat32 → Buffer → Option (Option FatNode)
find_from zero name cluster f b = none
find_from (suc fuel) name cluster f b =
    if ltb cluster end_of_chain && not (cluster == 0)
    then elim (find_in name (entries_of f) 0 cluster f b) [
      | stop ↦ some none
      | found node ↦ some (some node)
      | next b' ↦ find_from fuel name (get_next_cluster cluster f) f b'
    ]
    else some none

abbrev pub finddir : ℕ → List ℕ → ℕ → Fat32 → Option (Option FatNode)
finddir fuel name cluster f = find_from fuel name cluster f zeros

-- The characters that are not spaces.
unfoldable pub no_spaces : List ℕ → List ℕ
no_spaces [] = []
no_spaces (c ∷ cs) = let rest = no_spaces cs in if c == space then rest else c ∷ rest

-- The name of an entry without a long name.
unfoldable pub short_name : Entry → List ℕ
short_name e =
    no_spaces (values e 0 8)
    ++ (if not (is_label e) && not (e 8 == space)
        then dot ∷ no_spaces (values e 8 3)
        else if is_label e
        then no_spaces (values e 8 3)
        else [])

unfoldable pub make_dirent : Entry → Buffer → Dirent
make_dirent e b = record {
  name = if b 0 == 0 then short_name e else c_string 127 0 b;
  inode = entry_cluster e;
  kind = 0;
}

-- The body of the inner loop of `readdir`, where it does not count an entry.
unfoldable pub list_step : Entry → Buffer → Step Unit
list_step e b =
    if e 0 == 0
    then stop
    else if e 0 == 0xe5
    then next zeros
    else if is_label e && not (is_long e)
    then next zeros
    else if is_long e
    then next (put_long in_list e b)
    else found tt

-- The inner loop, with the number of entries that are still to be passed over, `index - logical_index`.
unfoldable pub list_in : ℕ → ℕ → ℕ → ℕ → Fat32 → Buffer → Step Dirent × ℕ
list_in index zero i cluster f b = (next b, index)
list_in index (suc n) i cluster f b =
    let e = entry_at cluster i f in
    elim (list_step e b) [
      | stop ↦ (stop, index)
      | next b' ↦ list_in index n (i + 1) cluster f b'
      | found _ ↦ elim index [
        | zero ↦ (found (make_dirent e b), 0)
        | suc index' ↦ list_in index' n (i + 1) cluster f zeros
      ]
    ]

unfoldable pub list_from : ℕ → ℕ → ℕ → Fat32 → Buffer → Option (Option Dirent)
list_from zero index cluster f b = none
list_from (suc fuel) index cluster f b =
    let r = list_in index (entries_of f) 0 cluster f b in
    if ltb cluster end_of_chain && not (cluster == 0)
    then elim r.0 [
      | stop ↦ some none
      | found d ↦ some (some d)
      | next b' ↦ list_from fuel r.1 (get_next_cluster cluster f) f b'
    ]
    else some none

abbrev pub readdir : ℕ → ℕ → ℕ → Fat32 → Option (Option Dirent)
readdir fuel index cluster f = list_from fuel index cluster f zeros
