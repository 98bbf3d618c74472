-- ===== src/Fat32/Dir/Change.antt =====
-- `FAT32_Directory::create`, `mkdir` and `unlink` of fs/fat32_vfs.cpp. `none` is a chain that the fuel does not reach
-- the end of.
pub mod Create
use keon_os.Base.{
  ℕ, zero, suc, ◌+◌, ◌-◌, ◌*◌, ◌/◌, ◌%◌, ◌^◌, Bool, true, false, ◌&&◌, ◌||◌, not, Option, none,
  some, List, [], ◌∷◌, ◌++◌, take, ltb, leb, ◌==◌, if◌then◌else◌, ◌>>=◌,
}
use keon_os.Vfs.{dot, minus_one, same_bytes}
use keon_os.Fat32.{
  Fat32, u32, end_of_chain, cluster_to_lba, get_next_cluster, set_next_cluster, allocate_cluster,
  free_cluster_chain,
}
use keon_os.Fat32.File.{File, write_byte, write_bytes}
use keon_os.Fat32.Name.{space, pad, create_name, mkdir_name, compare_fat_name}
use keon_os.Fat32.Dir.{
  FatNode, directory, file, entry_at, entry_name, entry_cluster, entries_of, is_long,
}

-- The inner loop of `find_free_entry_index`: `n` entries from `i` on.
unfoldable pub free_slot : ℕ → ℕ → ℕ → Fat32 → Option ℕ
free_slot zero i cluster f = none
free_slot (suc n) i cluster f =
    let e = entry_at cluster i f in
    let rest = free_slot n (i + 1) cluster f in if e 0 == 0 || e 0 == 0xe5 then some i else rest

-- The sector of entry `i` of a cluster, and the place in it.
abbrev pub place : ℕ → ℕ → Fat32 → ℕ × ℕ
place cluster i f = ((cluster_to_lba cluster f + i * 32 / 512) % u32, i * 32 % 512)

-- `next` of `find_free_entry_index`: a cluster that is linked to the end of the chain, 0 if none is free.
unfoldable pub next_or_new : ℕ → Fat32 → Fat32 × ℕ
next_or_new cluster f =
    let next = get_next_cluster cluster f in
    let r = allocate_cluster f in
    if leb end_of_chain next then (set_next_cluster cluster r.1 r.0, r.1) else (f, next)

-- The outer loop: the sector and the offset of an entry that is free.
unfoldable pub find_free_entry : ℕ → ℕ → Fat32 → Option (Fat32 × Option (ℕ × ℕ))
find_free_entry zero cluster f = none
find_free_entry (suc fuel) cluster f =
    let r = next_or_new cluster f in
    if ltb cluster end_of_chain
    then elim (free_slot (entries_of f) 0 cluster f) [
      | some i ↦ some (f, some (place cluster i f))
      | none ↦ find_free_entry fuel r.1 r.0
    ]
    else some (f, none)

abbrev pub zero_bytes : ℕ → List ℕ
zero_bytes zero = []
zero_bytes (suc n) = 0 ∷ zero_bytes n

-- The two bytes of a word of 16 bits.
abbrev pub half_bytes : ℕ → List ℕ
half_bytes w = (w % 256) ∷ (w / 256 % 256) ∷ []

-- The cluster's number in an entry, and the bytes around it.
abbrev pub cluster_bytes : ℕ → List ℕ
cluster_bytes cluster =
    half_bytes (cluster / 2 ^ 16 % 2 ^ 16)
    ++ (zero_bytes 4 ++ (half_bytes (cluster % 2 ^ 16) ++ zero_bytes 4))

-- The bytes of an entry behind its name: the times and the size are zero.
abbrev pub entry_tail : ℕ → ℕ → List ℕ
entry_tail attr cluster = attr ∷ (zero_bytes 8 ++ cluster_bytes cluster)

unfoldable pub entry_bytes : List ℕ → ℕ → ℕ → List ℕ
entry_bytes name attr cluster = name ++ entry_tail attr cluster

-- The end of `create`, with the place of the entry.
unfoldable pub create_at : List ℕ → ℕ × ℕ → Fat32 → Fat32 × Option FatNode
create_at name at f =
    let r = allocate_cluster f in
    let written = write_bytes at.0 at.1 (entry_bytes (create_name name) 0x20 r.1) r.0 in
    let node =
      file (take 127 name)
        (record { first_cluster = r.1; size = 0; dir_entry_lba = at.0; dir_entry_offset = at.1 }) in
    if r.1 == 0 then (r.0, none) else (written, some node)

unfoldable pub create : ℕ → List ℕ → ℕ → Fat32 → Option (Fat32 × Option FatNode)
create fuel name cluster f = do
  r ← find_free_entry fuel cluster f
  some (elim r.1 [ none ↦ (r.0, none) | some at ↦ create_at name at r.0 ])

-- Zeros in `n` sectors from `lba` on.
unfoldable pub zero_sectors : ℕ → ℕ → Fat32 → Fat32
zero_sectors lba n f = record f {
  disk = λ s j. if leb lba s && ltb s (lba + n) then 0 else f.disk s j;
}

-- The first cluster of a directory, with `.` and `..`, which names the root by 0.
unfoldable pub write_dots : ℕ → ℕ → Fat32 → Fat32
write_dots new_cluster cluster f =
    let lba = cluster_to_lba new_cluster f in
    let parent = if cluster == f.root_cluster then 0 else cluster in
    write_bytes lba 0
      (entry_bytes (pad 11 (dot ∷ [])) 0x10 new_cluster
        ++ entry_bytes (pad 11 (dot ∷ dot ∷ [])) 0x10 parent)
      (zero_sectors lba f.sectors_per_cluster f)

unfoldable pub mkdir_at : List ℕ → ℕ → Fat32 × Option (ℕ × ℕ) → Fat32 × ℕ
mkdir_at name new_cluster (f, none) = (f, minus_one)
mkdir_at name new_cluster (f, some at) =
    (write_bytes at.0 at.1 (entry_bytes (mkdir_name name) 0x10 new_cluster) f, 0)

unfoldable pub mkdir : ℕ → List ℕ → ℕ → Fat32 → Option (Fat32 × ℕ)
mkdir fuel name cluster f =
    let new = allocate_cluster f in
    if new.1 == 0 then some (new.0, minus_one) else (do
      r ← find_free_entry fuel cluster (write_dots new.1 cluster new.0)
      some (mkdir_at name new.1 r))

-- The inner loop of `unlink`: the entry with the name, if it stands before the first that was never used.
unfoldable pub unlink_in : List ℕ → ℕ → ℕ → ℕ → Fat32 → Option ℕ
unlink_in name zero i cluster f = none
unlink_in name (suc n) i cluster f =
    let e = entry_at cluster i f in
    let rest = unlink_in name n (i + 1) cluster f in
    if e 0 == 0
    then none
    else if e 0 == 0xe5
    then rest
    else if compare_fat_name (entry_name e) name
    then some i
    else rest

unfoldable pub erase : ℕ → ℕ → Fat32 → Fat32
erase cluster i f = let at = place cluster i f in write_byte at.0 at.1 0xe5 f

-- The parts of a long name before entry `i`.
unfoldable pub erase_long : ℕ → ℕ → Fat32 → Fat32
erase_long cluster zero f = f
erase_long cluster (suc j) f =
    let rest = erase_long cluster j (erase cluster j f) in
    if is_long (entry_at cluster j f) then rest else f

-- The sectors of a cluster, as `buffer` has them.
unfoldable pub write_back : ℕ → Fat32 → Fat32 → Fat32
write_back cluster buffer f =
    let lba = cluster_to_lba cluster f in
    record f {
      disk = λ s j.
          if leb lba s && ltb s (lba + f.sectors_per_cluster) then buffer.disk s j else f.disk s j;
    }

-- The outer loop of `unlink`. The buffer is what the cluster held before the file's chain is set free.
unfoldable pub unlink_from : ℕ → List ℕ → ℕ → Fat32 → Option (Fat32 × Bool)
unlink_from zero name cluster f = none
unlink_from (suc fuel) name cluster f =
    if ltb cluster end_of_chain && not (cluster == 0)
    then elim (unlink_in name (entries_of f) 0 cluster f) [
      | some i ↦ do
        f' ← free_cluster_chain fuel (entry_cluster (entry_at cluster i f)) f
        some (write_back cluster (erase cluster i (erase_long cluster i f)) f', true)
      | none ↦ unlink_from fuel name (get_next_cluster cluster f) f
    ]
    else some (f, false)

unfoldable pub unlink : ℕ → List ℕ → ℕ → Fat32 → Option (Fat32 × Bool)
unlink fuel name cluster f =
    if same_bytes name (dot ∷ []) || same_bytes name (dot ∷ dot ∷ [])
    then some (f, false)
    else unlink_from fuel name cluster f
