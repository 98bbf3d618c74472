-- ===== src/Fat32.antt =====
-- The file allocation table of fs/fat32_vfs.cpp. A sector is the 128 little-endian words of 32 bits
-- that it holds; `ATADriver` reads and writes whole sectors of `disk`.
pub mod Table
pub mod Chain
mod Allocate
pub mod File
pub mod Name
pub mod Dir
mod Tests
use keon_os.Base.{
  ℕ, zero, suc, ◌+◌, ◌-◌, ◌*◌, ◌/◌, ◌%◌, ◌^◌, Bool, true, false, ◌&&◌, Option, none, some, ltb, leb,
  ◌==◌, if◌then◌else◌,
}

pub record Fat32 : Type 0 where
  pub partition_lba : ℕ
  pub reserved_sector_count : ℕ
  pub table_count : ℕ
  pub table_size_32 : ℕ
  pub sectors_per_cluster : ℕ
  pub root_cluster : ℕ
  pub disk : ℕ → ℕ → ℕ

abbrev pub u32 : ℕ
u32 = 2 ^ 32

-- `0x0FFFFFFF`, the mask of an entry and the mark of the end of a chain.
abbrev pub last_cluster : ℕ
last_cluster = 0x0fff_ffff

-- The first of the values that end a chain.
abbrev pub end_of_chain : ℕ
end_of_chain = 0x0fff_fff8

-- A read of one sector, a change of its word `i`, and the write of the sector.
pub write_word : ℕ → ℕ → ℕ → Fat32 → Fat32
write_word sector i v f = record f { disk = λ s j. if s == sector && j == i then v else f.disk s j }

-- `table_count` tables of `table_size_32` sectors stand before the data.
unfoldable pub cluster_to_lba : ℕ → Fat32 → ℕ
cluster_to_lba cluster f =
    let data_lba = f.partition_lba + f.reserved_sector_count + f.table_count * f.table_size_32 in
    (data_lba + (cluster + u32 - 2) % u32 * f.sectors_per_cluster) % u32

-- `fat_sector` for the entry of a cluster.
unfoldable pub fat_sector : ℕ → Fat32 → ℕ
fat_sector cluster f = (f.partition_lba + f.reserved_sector_count + cluster * 4 % u32 / 512) % u32

-- The word of that sector: `fat_offset % 512` is a multiple of 4.
unfoldable pub fat_word : ℕ → ℕ
fat_word cluster = cluster * 4 % u32 % 512 / 4

unfoldable pub get_next_cluster : ℕ → Fat32 → ℕ
get_next_cluster cluster f = f.disk (fat_sector cluster f) (fat_word cluster) % 2 ^ 28

pub set_next_cluster : ℕ → ℕ → Fat32 → Fat32
set_next_cluster cluster next f =
    write_word (fat_sector cluster f) (fat_word cluster) (next % 2 ^ 28) f

-- The inner loop of `allocate_cluster`: `n` entries from `j` on.
unfoldable pub free_entry : ℕ → ℕ → (ℕ → ℕ) → Option ℕ
free_entry zero j entries = none
free_entry (suc n) j entries =
    let rest = free_entry n (j + 1) entries in if entries j % 2 ^ 28 == 0 then some j else rest

-- The outer loop: `n` sectors from `i` on.
unfoldable pub allocate_from : ℕ → ℕ → Fat32 → Fat32 × ℕ
allocate_from zero i f = (f, 0)
allocate_from (suc n) i f =
    let sector_lba = (f.partition_lba + f.reserved_sector_count + i) % u32 in
    elim (free_entry 128 0 (f.disk sector_lba)) [
      | some j ↦ (write_word sector_lba j last_cluster f, (i * 128 + j) % u32)
      | none ↦ allocate_from n (i + 1) f
    ]

unfoldable pub allocate_cluster : Fat32 → Fat32 × ℕ
allocate_cluster f = allocate_from f.table_size_32 0 f

-- The loop of `free_cluster_chain`; `none` is a chain of more than `fuel` clusters.
pub free_chain : ℕ → ℕ → Fat32 → Option Fat32
free_chain zero cluster f = none
free_chain (suc fuel) cluster f =
    let next = get_next_cluster cluster f in
    let rest = free_chain fuel next (write_word (fat_sector cluster f) (fat_word cluster) 0 f) in
    if ltb cluster end_of_chain && ltb 0 cluster then rest else some f

pub free_cluster_chain : ℕ → ℕ → Fat32 → Option Fat32
free_cluster_chain fuel cluster f = if ltb cluster 2 then some f else free_chain fuel cluster f
