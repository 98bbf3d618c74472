-- ===== src/Fat32/Dir/Tests.antt =====
-- Runs of the directory's operations, and its theorems, on a volume whose root, in cluster 2, has the entry
-- `A.TXT`, a file of 5 bytes in cluster 3.
use keon_os.Base.{
  ℕ, ◌≡◌, refl, false, true, some, inl, List, [], ◌∷◌, ◌++◌, take, ◌==◌, if◌then◌else◌, arith,
}
use keon_os.Fat32.{
  Fat32, fat_sector, fat_word, cluster_to_lba, get_next_cluster, allocate_cluster, allocate_from,
  free_entry,
}
use keon_os.Fat32.Chain.{IsChain}
use keon_os.Fat32.File.{sector_byte, cluster_byte, values}
use keon_os.Vfs.{dot, same_bytes}
use keon_os.Fat32.Name.{
  upper, base, extension, pad, last_dot, create_name, search_name, compare_fat_name,
}
use keon_os.Fat32.Name.Round.{compare_fat_name-create_name}
use keon_os.Fat32.Dir.{
  file, zeros, finddir, find_from, find_in, find_step, entry_matches, make_node,
}
use keon_os.Fat32.Dir.Find.{first_match, live, slots, finddir-first_match}
use keon_os.Fat32.Dir.Change.{create, find_free_entry, free_slot}
use keon_os.Fat32.Dir.Change.Create.{Created, create-Created}

abbrev table : ℕ → ℕ
table j =
    if j == 0
    then 0x0fff_fff8
    else if j == 1
    then 0x0fff_ffff
    else if j == 2
    then 0x0fff_ffff
    else if j == 3
    then 0x0fff_ffff
    else 0

abbrev root : ℕ → ℕ
root j =
    if j == 0
    then 0x2020_2041
    else if j == 1
    then 0x2020_2020
    else if j == 2
    then 0x2054_5854
    else if j == 6
    then 0x3_0000
    else if j == 7
    then 5
    else 0

abbrev volume : Fat32
volume = record {
  partition_lba = 0;
  reserved_sector_count = 32;
  table_count = 2;
  table_size_32 = 1;
  sectors_per_cluster = 1;
  root_cluster = 2;
  disk = λ s j. if s == 32 then table j else if s == 34 then root j else 0;
}

root-IsChain : IsChain volume 2 (2 ∷ [])
unfolding get_next_cluster fat_sector fat_word
root-IsChain = (refl, omega arith, omega arith, omega arith, refl, inl (omega arith))

-- `a.txt`
abbrev a_txt : List ℕ
a_txt = 97 ∷ 46 ∷ 116 ∷ 120 ∷ 116 ∷ []

finddir_run :
    finddir 2 a_txt 2 volume
    ≡ some (
        some (
          file a_txt
            (record { first_cluster = 3; size = 5; dir_entry_lba = 34; dir_entry_offset = 0 })))
unfolding find_from find_in find_step entry_matches make_node compare_fat_name search_name base
    extension pad upper same_bytes get_next_cluster fat_sector fat_word values cluster_byte
    sector_byte cluster_to_lba
finddir_run = refl

-- The name `a.b.c` is stored without its middle, and is not found again.
two_dots_run :
    compare_fat_name (create_name (97 ∷ 46 ∷ 98 ∷ 46 ∷ 99 ∷ [])) (97 ∷ 46 ∷ 98 ∷ 46 ∷ 99 ∷ [])
    ≡ false
unfolding compare_fat_name create_name last_dot search_name base extension pad upper same_bytes
two_dots_run = refl

compare_fat_name-create_name_example :
    compare_fat_name (create_name (97 ∷ [] ++ dot ∷ 116 ∷ [])) (97 ∷ [] ++ dot ∷ 116 ∷ []) ≡ true
compare_fat_name-create_name_example =
    compare_fat_name-create_name 97 [] (116 ∷ []) (refl, tt) (refl, tt) (omega arith)

finddir-first_match_example :
    finddir 2 a_txt 2 volume
    ≡ some (first_match a_txt volume (live volume (slots volume (2 ∷ [])) zeros))
finddir-first_match_example =
    finddir-first_match a_txt volume (2 ∷ []) 2 2 root-IsChain (omega arith)

create-Created_example :
    (f' : Fat32) × (create 1 (98 ∷ []) 2 volume
      ≡ some (
        f',
        some (
            file (take 127 (98 ∷ [])) (record {
              first_cluster = (allocate_cluster volume).1;
              size = 0;
              dir_entry_lba = 34;
              dir_entry_offset = 32;
            })),
      ))
    × Created (98 ∷ []) (34, 32) (allocate_cluster volume).1 f'
unfolding find_free_entry free_slot allocate_cluster allocate_from free_entry cluster_byte
    sector_byte cluster_to_lba
create-Created_example =
    create-Created 1 (98 ∷ []) 2 (34, 32) volume volume (omega arith, tt) refl refl
