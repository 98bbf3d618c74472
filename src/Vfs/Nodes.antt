-- ===== src/Vfs/Nodes.antt =====
-- The node classes of include/fs/vfs_node.h that are made in the kernel: `RootFS`, `SimpleDirectory` and
-- `MountOverlayNode`. An array and its count are the list of the entries that are in use. The names and the types of
-- nodes are arguments.
pub mod Listing
use keon_os.Base.{
  ℕ, zero, suc, ◌+◌, ◌-◌, ◌%◌, ◌^◌, Bool, true, false, ◌||◌, Option, none, some, List, [], ◌∷◌,
  ◌++◌, length, get_elem?, take, map, ltb, leb, ◌==◌, if◌then◌else◌,
}
use keon_os.Vfs.{Dirent, slash, same_bytes}

abbrev pub u32 : ℕ
u32 = 2 ^ 32

-- The loop of `finddir`: the first node with the name.
unfoldable pub first_named : List (List ℕ × ℕ) → List ℕ → Option ℕ
first_named [] name = none
first_named ((n, node) ∷ rest) name =
    let later = first_named rest name in if same_bytes n name then some node else later

-- `RootFS`, with the address of the node itself and the parents of nodes.
pub record RootFs : Type 0 where
  pub self : ℕ
  pub mounts : List ℕ
  pub ref_count : ℕ
  pub parents : ℕ → ℕ

pub record SimpleDirectory : Type 0 where
  pub children : List ℕ
  pub ref_count : ℕ

-- `mounts` and `mount_names` of `MountOverlayNode`.
pub record MountOverlayNode : Type 0 where
  pub self : ℕ
  pub overlay : List (List ℕ × ℕ)
  pub ref_count : ℕ

abbrev pub set_parent : ℕ → ℕ → (ℕ → ℕ) → ℕ → ℕ
set_parent node p parents n = if n == node then p else parents n

-- `ref_count--`, and the same with the test that most classes make first.
abbrev pub decrement : ℕ → ℕ
decrement c = (c + u32 - 1) % u32

abbrev pub decrement_if : ℕ → ℕ
decrement_if c = if ltb 0 c then c - 1 else c

unfoldable pub register_node : ℕ → RootFs → RootFs
register_node node r =
    if ltb (length r.mounts) 32
    then record r { mounts = r.mounts ++ (node ∷ []); parents = set_parent node r.self r.parents }
    else r

unfoldable pub add_child : ℕ → SimpleDirectory → SimpleDirectory
add_child node d =
    if ltb (length d.children) 16 then record d { children = d.children ++ (node ∷ []) } else d

-- A name in `mount_names` has at most 127 bytes.
unfoldable pub add_mount : List ℕ → ℕ → MountOverlayNode → (ℕ → ℕ) → MountOverlayNode × (ℕ → ℕ)
add_mount name node o parents =
    if ltb (length o.overlay) 8
    then (
      record o { overlay = o.overlay ++ ((take 127 name, node) ∷ []) },
      set_parent node o.self parents,
    )
    else (o, parents)

abbrev pub root_open : RootFs → RootFs
root_open r = record r { ref_count = (r.ref_count + 1) % u32 }

abbrev pub root_close : RootFs → RootFs
root_close r = record r { ref_count = decrement_if r.ref_count }

abbrev pub directory_open : SimpleDirectory → SimpleDirectory
directory_open d = record d { ref_count = (d.ref_count + 1) % u32 }

abbrev pub directory_close : SimpleDirectory → SimpleDirectory
directory_close d = record d { ref_count = decrement d.ref_count }

module _ (names : ℕ → List ℕ) (kinds : ℕ → ℕ) where
  abbrev pub named : List ℕ → List (List ℕ × ℕ)
  named nodes = map (λ n. (names n, n)) nodes

  -- The entry at an index of an array.
  unfoldable pub entry_of : List ℕ → ℕ → Option Dirent
  entry_of nodes index = elim (get_elem? nodes index) [
    | none ↦ none
    | some n ↦ some (record { name = names n; inode = index; kind = kinds n })
  ]

  -- 0 is `nullptr`.
  unfoldable pub root_finddir : List ℕ → RootFs → RootFs × ℕ
  root_finddir [] r = (r, r.self)
  root_finddir (c ∷ cs) r =
      if same_bytes (c ∷ cs) (slash ∷ [])
      then (r, r.self)
      else elim (first_named (named r.mounts) (c ∷ cs)) [
        | none ↦ (r, 0)
        | some n ↦ (record r { parents = set_parent n r.self r.parents }, n)
      ]

  abbrev pub root_readdir : ℕ → RootFs → Option Dirent
  root_readdir index r = entry_of r.mounts index

  unfoldable pub directory_finddir : List ℕ → SimpleDirectory → ℕ
  directory_finddir name d = elim (first_named (named d.children) name) [ none ↦ 0 | some n ↦ n ]

  abbrev pub directory_readdir : ℕ → SimpleDirectory → Option Dirent
  directory_readdir index d = entry_of d.children index

-- The mounted systems come first, then those of `underlying`.
unfoldable pub overlay_finddir : (List ℕ → ℕ) → List ℕ → MountOverlayNode → ℕ
overlay_finddir underlying name o = elim (first_named o.overlay name) [
  | none ↦ underlying name
  | some n ↦ n
]

unfoldable pub overlay_readdir :
    (ℕ → ℕ) → (ℕ → Option Dirent) → ℕ → MountOverlayNode → Option Dirent
overlay_readdir kinds underlying index o = elim (get_elem? o.overlay index) [
  | some m ↦ some (record { name = m.0; inode = index; kind = kinds m.1 })
  | none ↦ underlying (index - length o.overlay)
]
