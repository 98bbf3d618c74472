-- ===== src/Fat32/File.antt =====
-- `FAT32_File` of fs/fat32_vfs.cpp: reading and writing over a chain of clusters.
pub mod Read
pub mod Whole
pub mod Bytes
use keon_os.Base.{
  ℕ, zero, suc, ◌+◌, ◌-◌, ◌*◌, ◌/◌, ◌%◌, ◌^◌, Bool, true, false, Option, none, some, List, [], ◌∷◌,
  ◌++◌, ltb, leb, ◌==◌, if◌then◌else◌, ◌>>=◌, length, get_or,
}
use keon_os.Fat32.{
  Fat32, u32, end_of_chain, write_word, cluster_to_lba, get_next_cluster, set_next_cluster,
  allocate_cluster,
}

pub record File : Type 0 where
  pub first_cluster : ℕ
  pub size : ℕ
  pub dir_entry_lba : ℕ
  pub dir_entry_offset : ℕ

abbrev pub cluster_size : Fat32 → ℕ
cluster_size f = f.sectors_per_cluster * 512

-- Byte `k` of a sector.
unfoldable pub sector_byte : ℕ → ℕ → Fat32 → ℕ
sector_byte lba k f = f.disk lba (k / 4) / 256 ^ (k % 4) % 256

-- The word `w` with its byte `p` replaced.
pub set_byte : ℕ → ℕ → ℕ → ℕ
set_byte p v w = w % 256 ^ p + v * 256 ^ p + w / 256 ^ suc p * 256 ^ suc p

pub write_byte : ℕ → ℕ → ℕ → Fat32 → Fat32
write_byte lba k v f = write_word lba (k / 4) (set_byte (k % 4) v (f.disk lba (k / 4))) f

-- The bytes `vs` from byte `k` of a sector on.
pub write_bytes : ℕ → ℕ → List ℕ → Fat32 → Fat32
write_bytes lba k [] f = f
write_bytes lba k (v ∷ vs) f = write_bytes lba (k + 1) vs (write_byte lba k v f)

-- Byte `k` of a cluster, whose sectors follow one another.
unfoldable pub cluster_byte : ℕ → Fat32 → ℕ → ℕ
cluster_byte cluster f k = sector_byte ((cluster_to_lba cluster f + k / 512) % u32) (k % 512) f

-- The `n` values of `g` from `p` on.
unfoldable pub values : (ℕ → ℕ) → ℕ → ℕ → List ℕ
values g p zero = []
values g p (suc n) = g p ∷ values g (p + 1) n

-- `n` steps along the chain, without a test for its end.
pub skip_clusters : ℕ → ℕ → Fat32 → ℕ
skip_clusters zero cluster f = cluster
skip_clusters (suc n) cluster f = skip_clusters n (get_next_cluster cluster f) f

pub min : ℕ → ℕ → ℕ
min a b = if ltb b a then b else a

-- The loop of `FAT32_File::read`: `left` is `size - bytes_read`, and `offset` is `internal_offset`. Each round
-- copies a byte at least, so fuel for `left` rounds is enough.
pub read_loop : ℕ → ℕ → ℕ → ℕ → Fat32 → List ℕ
read_loop zero cluster offset left f = []
read_loop (suc fuel) cluster offset left f =
    let to_copy = min (cluster_size f - offset) left in
    let copied = values (cluster_byte cluster f) offset to_copy in
    let next = get_next_cluster cluster f in
    let rest = read_loop fuel next 0 (left - to_copy) f in
    if left == 0
    then []
    else if ltb to_copy left
    then (if leb end_of_chain next then copied else copied ++ rest)
    else copied

-- The bytes put into the buffer.
pub read : ℕ → ℕ → File → Fat32 → List ℕ
read offset size file f =
    let wanted = if ltb file.size ((offset + size) % u32) then file.size - offset else size in
    if leb file.size offset
    then []
    else read_loop (suc wanted) (skip_clusters (offset / cluster_size f) file.first_cluster f)
        (offset % cluster_size f) wanted f

-- `n` rounds of the inner loop of `FAT32_File::write`. At the end of the chain a cluster is
-- allocated and linked, 0 if none is free.
pub extend_chain : ℕ → ℕ → Fat32 → Fat32 × ℕ
extend_chain zero cluster f = (f, cluster)
extend_chain (suc n) cluster f =
    let next = get_next_cluster cluster f in
    let r = allocate_cluster f in
    let linked = set_next_cluster cluster r.1 r.0 in
    if leb end_of_chain next then extend_chain n r.1 linked else extend_chain n next f

-- The bytes that one round of the outer loop writes, and those that it leaves.
pub take_bytes : ℕ → List ℕ → List ℕ × List ℕ
take_bytes zero vs = ([], vs)
take_bytes (suc n) [] = ([], [])
take_bytes (suc n) (v ∷ vs) = let r = take_bytes n vs in (v ∷ r.0, r.1)

-- The outer loop of `FAT32_File::write`, from offset `at` on, on fuel for the bytes that are left.
pub write_loop : ℕ → ℕ → List ℕ → ℕ → Fat32 → Fat32
write_loop zero at vs first f = f
write_loop (suc fuel) at [] first f = f
write_loop (suc fuel) at (v ∷ vs) first f =
    let r = extend_chain (at / cluster_size f) first f in
    let lba = (cluster_to_lba r.1 r.0 + at % cluster_size f / 512) % u32 in
    let parts = take_bytes (512 - at % 512) (v ∷ vs) in
    write_loop fuel ((at + length parts.0) % u32) parts.1 first
      (write_bytes lba (at % 512) parts.0 r.0)

-- The four bytes of a word, the low one first.
pub word_bytes : ℕ → List ℕ
word_bytes w = (w % 256) ∷ (w / 256 % 256) ∷ (w / 256 ^ 2 % 256) ∷ (w / 256 ^ 3 % 256) ∷ []

-- `file_size` is at byte 28 of a directory entry.
pub update_metadata : File → Fat32 → Fat32
update_metadata file f =
    write_bytes file.dir_entry_lba (file.dir_entry_offset + 28) (word_bytes file.size) f

-- All bytes are written, and their number is returned.
pub write : ℕ → List ℕ → File → Fat32 → (File × Fat32) × ℕ
write offset bytes file f =
    let f' = write_loop (length bytes) offset bytes file.first_cluster f in
    let end = (offset + length bytes) % u32 in
    let grown = record file { size = end } in
    if ltb file.size end
    then ((grown, update_metadata grown f'), length bytes)
    else ((file, f'), length bytes)
