-- ===== src/Vfs/Keonfs/Tests.antt =====
-- An archive of 119 bytes with one file, `f`, of the bytes 7, 8, 9.
use keon_os.Base.{◌+◌, ◌≤◌, ◌≡◌, ◌⊎◌, inl, refl, some, [], ◌∷◌, length, ◌==◌, if◌then◌else◌, arith}
use keon_os.Vfs.Keonfs.{
  Archive, KeonFile, bytes_before_zero, make_file, load, mount, piece, to_read, read, total_files,
  fs_size,
}
use keon_os.Vfs.Keonfs.Bounds.{NoWrap, to_read-mount}

abbrev archive : Archive
archive p =
    if p == 0
    then 0x4e
    else if p == 1
    then 0x4f
    else if p == 2
    then 0x45
    else if p == 3
    then 0x4b
    else if p == 4
    then 1
    else if p == 12
    then 119
    else if p == 36
    then 102
    else if p == 100
    then 3
    else if p == 104
    then 116
    else if p == 116
    then 7
    else if p == 117
    then 8
    else if p == 118
    then 9
    else 0

abbrev f : KeonFile
f = record { name = 102 ∷ []; size = 3; data_ptr = 116 }

mount_run : mount archive ≡ some (f ∷ [])
unfolding mount load make_file bytes_before_zero
mount_run = refl

read_run : read 1 5 f archive ≡ 8 ∷ 9 ∷ []
unfolding to_read piece
read_run = refl

archive-NoWrap : NoWrap (total_files archive) 32 archive
archive-NoWrap = (omega arith, inl refl)

to_read-mount_example :
    (length (f ∷ []) ≤ 128)
    × (length (f ∷ []) ≤ total_files archive)
    × (to_read 1 5 f ≤ 5)
    × ((to_read 1 5 f ≡ 0) ⊎ (f.data_ptr + 1 + to_read 1 5 f ≤ fs_size archive))
to_read-mount_example =
    to_read-mount archive (f ∷ []) 0 f 1 5 archive-NoWrap mount_run refl (omega arith)
