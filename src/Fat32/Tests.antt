-- ===== src/Fat32/Tests.antt =====
-- Runs of the table, and its theorems, on a volume with the chain 2, 3.
use keon_os.Base.{ℕ, ◌-◌, ◌*◌, ◌%◌, ◌^◌, ◌≡◌, inl, refl, some, [], ◌∷◌, ◌==◌, if◌then◌else◌, arith}
use keon_os.Fat32.{
  Fat32, fat_sector, fat_word, get_next_cluster, set_next_cluster, allocate_cluster, allocate_from,
  free_entry, free_cluster_chain,
}
use keon_os.Fat32.Table.{IsMounted, get_next_cluster-set_next_cluster}
use keon_os.Fat32.Chain.{IsChain, Freed, free_cluster_chain_lem}
use keon_os.Fat32.Allocate.{Allocated, allocate_cluster_lem}
use keon_os.Fat32.File.{File, read, values, min}
use keon_os.Fat32.File.Read.{content}
use keon_os.Fat32.File.Whole.{read_lem}

abbrev words : ℕ → ℕ
words j =
    if j == 0
    then 0x0fff_fff8
    else if j == 1
    then 0x0fff_ffff
    else if j == 2
    then 3
    else if j == 3
    then 0x0fff_ffff
    else 0

abbrev volume : Fat32
volume = record {
  partition_lba = 0;
  reserved_sector_count = 32;
  table_count = 2;
  table_size_32 = 1;
  sectors_per_cluster = 1;
  root_cluster = 2;
  disk = λ s j. if s == 32 then words j else 0;
}

allocate_cluster_run : (allocate_cluster volume).1 ≡ 4
unfolding allocate_cluster allocate_from free_entry
allocate_cluster_run = refl

volume-IsMounted : IsMounted volume
volume-IsMounted = record { low = omega arith; few = omega arith }

two_three-IsChain : IsChain volume 2 (2 ∷ 3 ∷ [])
unfolding get_next_cluster fat_sector fat_word
two_three-IsChain = (
  refl,
  omega arith,
  omega arith,
  omega arith,
  refl,
  (refl, omega arith, omega arith, omega arith, refl, inl (omega arith)),
)

get_next_cluster-set_next_cluster_example :
    get_next_cluster 4 (set_next_cluster 3 5 volume)
    ≡ (if 3 == 4 then 5 % 2 ^ 28 else get_next_cluster 4 volume)
get_next_cluster-set_next_cluster_example =
    get_next_cluster-set_next_cluster 3 4 5 volume volume-IsMounted (omega arith) (omega arith)

free_cluster_chain_lem_example :
    (f' : Fat32) × (free_cluster_chain 3 2 volume ≡ some f') × Freed (2 ∷ 3 ∷ []) volume f'
free_cluster_chain_lem_example =
    free_cluster_chain_lem (2 ∷ 3 ∷ []) 3 2 volume (omega arith) volume-IsMounted two_three-IsChain
      (omega arith)

allocate_cluster_lem_example : Allocated 0 (1 * 128) volume (allocate_cluster volume)
allocate_cluster_lem_example = allocate_cluster_lem volume volume-IsMounted

-- A file of 700 bytes in the clusters 2 and 3.
abbrev notes : File
notes = record { first_cluster = 2; size = 700; dir_entry_lba = 40; dir_entry_offset = 64 }

read_lem_example :
    read 500 300 notes volume ≡ values (content volume (2 ∷ 3 ∷ [])) 500 (min 300 (700 - 500))
read_lem_example =
    read_lem (2 ∷ 3 ∷ []) 500 300 notes volume two_three-IsChain (omega arith) (omega arith)
      (omega arith)
