-- ===== src/Vfs.antt =====
-- fs/vfs.cpp: the look-up of paths and the calls over nodes. The virtual methods of `VFSNode` are a
-- record of functions over the state `S` of all nodes; a node is its address, and 0 is `nullptr`. A
-- path is its bytes before the zero byte.
pub mod Resolve
pub mod Nodes
pub mod Keonfs
mod Tests
use keon_os.Base.{
  ℕ, zero, suc, Bool, true, false, ◌&&◌, ◌||◌, Option, none, some, List, [], ◌∷◌, ◌++◌, length, leb,
  ◌==◌, if◌then◌else◌, ◌>>=◌,
}

-- `vfs_dirent`
pub record Dirent : Type 0 where
  pub name : List ℕ
  pub inode : ℕ
  pub kind : ℕ

-- `read` gives the bytes that it puts into the buffer, as many as it returns.
pub record Fs (S : Type 0) : Type 0 where
  pub root : ℕ
  pub parent : ℕ → S → ℕ
  pub open_node : ℕ → S → S
  pub close_node : ℕ → S → S
  pub finddir : ℕ → List ℕ → S → S × ℕ
  pub read : ℕ → ℕ → ℕ → S → S × List ℕ
  pub write : ℕ → ℕ → List ℕ → S → S × ℕ
  pub readdir : ℕ → ℕ → S → S × Option Dirent
  pub create : ℕ → List ℕ → ℕ → S → S × ℕ
  pub mkdir : ℕ → List ℕ → ℕ → S → S × ℕ
  pub unlink : ℕ → List ℕ → S → S × Bool

abbrev pub slash : ℕ
slash = 47

abbrev pub dot : ℕ
dot = 46

-- The value of -1 as a `uint64_t`.
abbrev pub minus_one : ℕ
minus_one = 0xffff_ffff_ffff_ffff

-- `strcmp(a, b) == 0`
unfoldable pub same_bytes : List ℕ → List ℕ → Bool
same_bytes [] [] = true
same_bytes [] (b ∷ bs) = false
same_bytes (a ∷ as_left) [] = false
same_bytes (a ∷ as_left) (b ∷ bs) = a == b && same_bytes as_left bs

unfoldable pub skip_slashes : List ℕ → List ℕ
skip_slashes [] = []
skip_slashes (c ∷ cs) = if c == slash then skip_slashes cs else c ∷ cs

-- The inner loop of `vfs_open`, which copies at most `n` bytes: the component, and the rest.
unfoldable pub component : ℕ → List ℕ → List ℕ × List ℕ
component zero p = ([], p)
component (suc n) [] = ([], [])
component (suc n) (c ∷ cs) =
    let r = component n cs in if c == slash then ([], c ∷ cs) else (c ∷ r.0, r.1)

-- The start of a path, and what follows the last slash, if there is one.
unfoldable pub last_slash : List ℕ → Option (List ℕ × List ℕ)
last_slash [] = none
last_slash (c ∷ cs) = elim (last_slash cs) [
  | some (before, behind) ↦ some (c ∷ before, behind)
  | none ↦ if c == slash then some ([], cs) else none
]

-- The path of the parent and the name, by which `vfs_unlink`, `vfs_create` and `vfs_mkdir` start.
-- `none` is a name that does not fit `filename[128]`, or a parent that does not fit
-- `parent_path[256]`: the code then writes behind the array.
unfoldable pub split_path : List ℕ → Option (List ℕ × List ℕ)
unfolding last_slash
split_path path = elim (last_slash path) [
  | none ↦ if leb 128 (length path) then none else some (dot ∷ [], path)
  | some ([], name) ↦ if leb 128 (length name) then none else some (slash ∷ [], name)
  | some (c ∷ cs, name) ↦
      if leb 128 (length name) || leb 256 (length (c ∷ cs)) then none else some (c ∷ cs, name)
]

module _ {S : Type 0} (fs : Fs S) where
  -- The node that a component leads to, and the open call on it.
  unfoldable pub enter : List ℕ → ℕ → S → S × ℕ
  unfolding same_bytes
  enter name current s =
      let up = if current == fs.root then fs.root else fs.parent current s in
      if same_bytes name (dot ∷ dot ∷ [])
      then (if up == 0 then (s, 0) else (fs.open_node up s, up))
      else fs.finddir current name s

  -- The loop of `vfs_open`, on fuel; `none` is no fuel left.
  unfoldable pub walk : ℕ → List ℕ → ℕ → S → Option (S × ℕ)
  walk zero p current s = none
  walk (suc fuel) [] current s = some (s, current)
  walk (suc fuel) (c ∷ cs) current s =
      let part = component 127 (c ∷ cs) in
      let next = enter part.0 current s in
      let stay = walk fuel (skip_slashes part.1) current s in
      let go = walk fuel (skip_slashes part.1) next.1 (fs.close_node current next.0) in
      if same_bytes part.0 (dot ∷ [])
      then stay
      else if next.1 == 0
      then some (fs.close_node current next.0, 0)
      else go

  -- The node at which the walk starts, and the path from there.
  unfoldable pub start : ℕ → List ℕ → ℕ × List ℕ
  start cwd [] = (if cwd == 0 then fs.root else cwd, [])
  start cwd (c ∷ cs) =
      if c == slash then (fs.root, skip_slashes cs) else (if cwd == 0 then fs.root else cwd, c ∷ cs)

  unfoldable pub vfs_open : ℕ → List ℕ → S → Option (S × ℕ)
  vfs_open cwd path s =
      let from = start cwd path in
      if fs.root == 0
      then some (s, 0)
      else walk (suc (length path)) from.1 from.0 (fs.open_node from.0 s)

  unfoldable pub vfs_read : ℕ → ℕ → ℕ → S → S × List ℕ
  vfs_read node offset size s = if node == 0 then (s, []) else fs.read node offset size s

  unfoldable pub vfs_write : ℕ → ℕ → List ℕ → S → S × ℕ
  vfs_write node offset bytes s = if node == 0 then (s, 0) else fs.write node offset bytes s

  unfoldable pub vfs_readdir : ℕ → ℕ → S → S × Option Dirent
  vfs_readdir node index s = if node == 0 then (s, none) else fs.readdir node index s

  unfoldable pub vfs_close : ℕ → S → S
  vfs_close node s = if node == 0 then s else fs.close_node node s

  -- What `vfs_unlink`, `vfs_create` and `vfs_mkdir` do alike: the method `act` of the parent, with
  -- the name; `fail` where the parent is not found.
  unfoldable pub in_parent :
      {A : Type 0} → A → (ℕ → List ℕ → S → S × A) → ℕ → List ℕ → S → Option (S × A)
  in_parent fail act cwd path s = do
    p ← split_path path
    r ← vfs_open cwd p.0 s
    let n = act r.1 p.1 r.0
    some (if r.1 == 0 then (r.0, fail) else (vfs_close r.1 n.0, n.1))

  unfoldable pub vfs_unlink : ℕ → List ℕ → S → Option (S × Bool)
  vfs_unlink cwd [] s = some (s, false)
  vfs_unlink cwd (c ∷ cs) s =
      if fs.root == 0 then some (s, false) else in_parent false fs.unlink cwd (c ∷ cs) s

  unfoldable pub vfs_create : ℕ → List ℕ → ℕ → S → Option (S × ℕ)
  vfs_create cwd [] flags s = some (s, 0)
  vfs_create cwd (c ∷ cs) flags s =
      if fs.root == 0
      then some (s, 0)
      else in_parent 0 (λ node name. fs.create node name flags) cwd (c ∷ cs) s

  unfoldable pub vfs_mkdir : ℕ → List ℕ → ℕ → S → Option (S × ℕ)
  vfs_mkdir cwd [] mode s = some (s, minus_one)
  vfs_mkdir cwd (c ∷ cs) mode s =
      if fs.root == 0
      then some (s, minus_one)
      else in_parent minus_one (λ node name. fs.mkdir node name mode) cwd (c ∷ cs) s
