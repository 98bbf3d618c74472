-- ===== src/Vfs/Tests.antt =====
-- Look-ups in a small tree: the root 1 has the directory `bin` 2, which has the file `sh` 3. The state is
-- the difference of open and close calls.
use keon_os.Base.{
  ℕ, ◌+◌, ◌-◌, ◌≡◌, refl, false, ◌&&◌, Option, some, none, List, [], ◌∷◌, ◌==◌, if◌then◌else◌,
  arith,
}
use keon_os.Vfs.{Fs, Dirent, same_bytes, vfs_open, start}
use keon_os.Vfs.Nodes.{MountOverlayNode, overlay_finddir, overlay_readdir}
use keon_os.Vfs.Nodes.Listing.{Listed, Found, overlay_finddir-overlay_readdir}
use keon_os.Vfs.Resolve.{names, split, resolve, vfs_open-resolve}

abbrev bin : List ℕ
bin = 98 ∷ 105 ∷ 110 ∷ []

abbrev sh : List ℕ
sh = 115 ∷ 104 ∷ []

abbrev tree : Fs ℕ
tree = record {
  root = 1;
  parent = λ node s. if node == 3 then 2 else 1;
  open_node = λ node s. s + 1;
  close_node = λ node s. s - 1;
  finddir = λ node name s. (
    s,
    if node == 1 && same_bytes name bin
        then 2
        else if node == 2 && same_bytes name sh
        then 3
        else 0,
  );
  read = λ node offset size s. (s, []);
  write = λ node offset bytes s. (s, 0);
  readdir = λ node index s. (s, none);
  create = λ node name flags s. (s, 0);
  mkdir = λ node name mode s. (s, 0);
  unlink = λ node name s. (s, false);
}

-- `/bin//../bin/./sh`
abbrev long_way : List ℕ
long_way =
    47 ∷ 98 ∷ 105 ∷ 110 ∷ 47 ∷ 47 ∷ 46 ∷ 46 ∷ 47 ∷ 98 ∷ 105 ∷ 110 ∷ 47 ∷ 46 ∷ 47 ∷ 115 ∷ 104 ∷ []

vfs_open-resolve_example : vfs_open tree 2 long_way 7 ≡ (
    let from = (start tree 2 long_way).0 in
    some (resolve tree (names long_way) from (tree.open_node from 7)))
unfolding split
vfs_open-resolve_example =
    vfs_open-resolve tree 2 long_way 7 refl
      (omega arith, (omega arith, (omega arith, (omega arith, (omega arith, tt)))))

-- `dev`, node 5, is mounted over a directory that has `bin`, node 7.
abbrev with_dev : MountOverlayNode
with_dev = record { self = 1; overlay = (100 ∷ 101 ∷ 118 ∷ [], 5) ∷ []; ref_count = 1 }

abbrev bin_below : ℕ → Option Dirent
bin_below i = if i == 0 then some (record { name = bin; inode = 0; kind = 2 }) else none

abbrev find_bin : List ℕ → ℕ
find_bin name = if same_bytes name bin then 7 else 0

-- The second entry is that of the directory below.
overlay_finddir-overlay_readdir_example :
    Listed (λ n. 2) find_bin bin_below with_dev 1 (record { name = bin; inode = 0; kind = 2 })
    × Found (λ n. 2) find_bin bin_below with_dev bin (overlay_finddir find_bin bin with_dev)
unfolding overlay_readdir
overlay_finddir-overlay_readdir_example =
    overlay_finddir-overlay_readdir (λ n. 2) find_bin bin_below with_dev 1
      (record { name = bin; inode = 0; kind = 2 }) refl
