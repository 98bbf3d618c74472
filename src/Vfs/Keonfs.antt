-- ===== src/Vfs/Keonfs.antt =====
-- The archive in memory: fs/ramfs_vfs.cpp and include/fs/ramfs_vfs.h. The archive is its bytes, by the distance
-- from `base`; `none` is a panic.
mod Bounds
mod Tests
use keon_os.Base.{
  ℕ, zero, suc, ◌+◌, ◌-◌, ◌*◌, ◌%◌, ◌^◌, Bool, true, false, Option, none, some, List, [], ◌∷◌, ◌++◌,
  length, get_elem?, take, ltb, leb, ◌==◌, if◌then◌else◌, ◌>>=◌,
}
use keon_os.Vfs.{Dirent, same_bytes}

abbrev pub u32 : ℕ
u32 = 2 ^ 32

abbrev pub Archive : Type 0
Archive = ℕ → ℕ

-- The word of 32 bits at a place of the archive.
abbrev pub word_at : ℕ → Archive → ℕ
word_at p a = a p + a (p + 1) * 2 ^ 8 + a (p + 2) * 2 ^ 16 + a (p + 3) * 2 ^ 24

-- `KeonFS_Info` at the start of the archive.
abbrev pub magic : Archive → ℕ
magic = word_at 0

abbrev pub total_files : Archive → ℕ
total_files = word_at 4

abbrev pub fs_size : Archive → ℕ
fs_size = word_at 12

-- The fields of a `KeonFS_FileHeader` at `h`.
abbrev pub header_size : ℕ → Archive → ℕ
header_size h = word_at (h + 68)

abbrev pub header_offset : ℕ → Archive → ℕ
header_offset h = word_at (h + 72)

abbrev pub next_header : ℕ → Archive → ℕ
next_header h = word_at (h + 76)

abbrev pub keonfs_magic : ℕ
keonfs_magic = 0x4b45_4f4e

-- `KeonFS_File`: `data_ptr` is the distance from `base`.
pub record KeonFile : Type 0 where
  pub name : List ℕ
  pub size : ℕ
  pub data_ptr : ℕ

-- At most `n` bytes from `p` on, before a zero byte.
unfoldable pub bytes_before_zero : ℕ → ℕ → Archive → List ℕ
bytes_before_zero zero p a = []
bytes_before_zero (suc n) p a =
    let rest = bytes_before_zero n (p + 1) a in if a p == 0 then [] else a p ∷ rest

unfoldable pub make_file : ℕ → Archive → KeonFile
make_file h a = record {
  name = bytes_before_zero 127 (h + 4) a;
  size = header_size h a;
  data_ptr = header_offset h a;
}

-- The loop of `KeonFS_MountNode`: `n` headers from the one at `h` on, behind the files that are there.
unfoldable pub load : ℕ → ℕ → List KeonFile → Archive → Option (List KeonFile)
load zero h files a = some files
load (suc n) h files a =
    let files' = files ++ (make_file h a ∷ []) in
    let rest = load n (next_header h a) files' a in
    if ltb (fs_size a) ((header_offset h a + header_size h a) % u32)
    then none
    else if leb 128 (length files)
    then none
    else if next_header h a == 0
    then some files'
    else rest

-- `KeonFS_MountNode::KeonFS_MountNode`
unfoldable pub mount : Archive → Option (List KeonFile)
mount a = if magic a == keonfs_magic then load (total_files a) 32 [] a else none

-- The bytes of a piece of the archive.
unfoldable pub piece : ℕ → ℕ → Archive → List ℕ
piece zero p a = []
piece (suc n) p a = a p ∷ piece n (p + 1) a

-- How much `KeonFS_File::read` reads.
unfoldable pub to_read : ℕ → ℕ → KeonFile → ℕ
to_read offset size file =
    if leb file.size offset
    then 0
    else if ltb file.size ((offset + size) % u32)
    then file.size - offset
    else size

abbrev pub read : ℕ → ℕ → KeonFile → Archive → List ℕ
read offset size file a = piece (to_read offset size file) (file.data_ptr + offset) a

-- The index of the file with a name; `none` is `nullptr`.
unfoldable pub finddir : List KeonFile → List ℕ → Option KeonFile
finddir [] name = none
finddir (f ∷ fs) name =
    let rest = finddir fs name in if same_bytes f.name name then some f else rest

-- The type of the entry is not set.
unfoldable pub readdir : List KeonFile → ℕ → Option Dirent
readdir files index = elim (get_elem? files index) [
  | none ↦ none
  | some f ↦ some (record { name = f.name; inode = index; kind = 0 })
]
