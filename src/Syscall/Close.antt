-- ===== src/Syscall/Close.antt =====
-- `sys_close` of kernel/syscalls/sys_file.cpp, behind `sys_open` and before other calls.
use keon_os.Base.{
  ℕ, zero, suc, ◌<◌, ◌≡◌, ◌≢◌, inl, inr, refl, sym, ap, ◌∙◌, true, false, Option, none, some, List,
  [], ◌∷◌, length, get_or, set, ltb, leb, ◌==◌, Bool-cases, arith,
}
use mathlib.Core.Bool.{false≢true}
use mathlib.Core.Path.{subst}
use keon_os.Vfs.{Fs, minus_one, vfs_close}
use keon_os.Syscall.{Machine, Kernel, user_path}
use keon_os.Syscall.File.{
  max_files, is_open, open_or_create, sys_open, sys_close, sys_read, read_file, sys_write,
  write_file, sys_readdir, sys_fstat,
}
use keon_os.Syscall.Descriptors.{Installed, sys_open_lem}

set-set : (xs : List ℕ) (i v : ℕ) → get_or xs i 0 ≡ 0 → set (set xs i v) i 0 ≡ xs
set-set [] i v e = refl
set-set (x ∷ xs) zero v e = ap (λ y. y ∷ xs) (sym e)
set-set (x ∷ xs) (suc i) v e = ap (λ ys. x ∷ ys) (set-set xs i v e)

get_or-set : (xs : List ℕ) (i v : ℕ) → i < length xs → get_or (set xs i v) i 0 ≡ v
get_or-set [] i v l = absurd (omega (arith, l))
get_or-set (x ∷ xs) zero v l = refl
get_or-set (x ∷ xs) (suc i) v l = get_or-set xs i v (omega (arith, l))

minus_one-not_zero : minus_one ≢ 0
minus_one-not_zero e = absurd (omega (arith, e))

get_or-cleared : (xs : List ℕ) (i : ℕ) → get_or (set xs i 0) i 0 ≡ 0
get_or-cleared [] i = refl
get_or-cleared (x ∷ xs) zero = refl
get_or-cleared (x ∷ xs) (suc i) = get_or-cleared xs i

cleared : {S : Type 0} (fd : ℕ) (m : Machine S) → get_or m.fd_table fd 0 ≡ 0 → is_open fd m ≡ false
unfolding is_open
cleared fd m e =
    let nil : (get_or m.fd_table fd 0 == 0) ≡ true = ground (arith, e) in
    elim (Bool-cases (leb max_files fd)) [ inl far ↦ rw far refl | inr near ↦ rw (near, nil) refl ]

module _ {S : Type 0} (fs : Fs S) (k : Kernel S) where
  -- A close that succeeds was of an open file.
  closed_file :
      (fd : ℕ) (m : Machine S)
      → (sys_close fs k fd m).1 ≡ 0
      → (ltb fd 3 ≡ false) × (is_open fd m ≡ true)
  unfolding sys_close
  closed_file fd m h = elim (Bool-cases (ltb fd 3)) [
    | inl standard ↦ absurd (minus_one-not_zero (sym (rw (sys_close, standard) refl) ∙ h))
    | inr file ↦ elim (Bool-cases (is_open fd m)) [
      | inl e ↦ (file, e)
      | inr e ↦ absurd (minus_one-not_zero (sym (rw (sys_close, file, e) refl) ∙ h))
    ]
  ]

  fails :
      (fd buf size index : ℕ) (m : Machine S)
      → ltb fd 3 ≡ false
      → is_open fd m ≡ false
      → (sys_read fs k fd buf size m ≡ some (m, minus_one))
        × (sys_write fs k fd buf size m ≡ (m, minus_one))
        × (sys_readdir fs k fd index buf m ≡ (m, minus_one))
        × (sys_fstat fs k fd buf m ≡ (m, minus_one))
        × (sys_close fs k fd m ≡ (m, minus_one))
  unfolding sys_read read_file sys_write write_file sys_readdir sys_fstat sys_close
  fails fd buf size index m file shut =
      let not_in : (fd == 0) ≡ false = ground (arith, file) in
      let not_out : (fd == 1) ≡ false = ground (arith, file) in
      let not_err : (fd == 2) ≡ false = ground (arith, file) in
      (
        rw (not_in, shut) refl,
        rw (not_out, not_err, shut) refl,
        rw shut refl,
        rw shut refl,
        rw (file, shut) refl,
      )

  -- After a close that succeeds, each further call on the descriptor returns -1 and changes
  -- nothing, until the descriptor is given out again.
  pub sys_close-fails_after :
      (fd buf size index : ℕ) (m : Machine S)
      → (sys_close fs k fd m).1 ≡ 0
      → (sys_read fs k fd buf size (sys_close fs k fd m).0
          ≡ some ((sys_close fs k fd m).0, minus_one))
        × (sys_write fs k fd buf size (sys_close fs k fd m).0
            ≡ ((sys_close fs k fd m).0, minus_one))
        × (sys_readdir fs k fd index buf (sys_close fs k fd m).0
            ≡ ((sys_close fs k fd m).0, minus_one))
        × (sys_fstat fs k fd buf (sys_close fs k fd m).0 ≡ ((sys_close fs k fd m).0, minus_one))
        × (sys_close fs k fd (sys_close fs k fd m).0 ≡ ((sys_close fs k fd m).0, minus_one))
  unfolding sys_close
  sys_close-fails_after fd buf size index m h =
      let (file, open_file) = closed_file fd m h in
      let table : (sys_close fs k fd m).0.fd_table ≡ set m.fd_table fd 0 =
        rw (sys_close, file, open_file) refl in
      fails fd buf size index (sys_close fs k fd m).0 file (
        cleared fd (sys_close fs k fd m).0
          (ap (λ t. get_or t fd 0) table ∙ get_or-cleared m.fd_table fd))

  -- An installed node is closed again, and the table is as before.
  install-sys_close :
      (s : S) (node fd : ℕ) (m m1 : Machine S)
      → node ≢ 0
      → length m.fd_table ≡ max_files
      → fd ≢ minus_one
      → Installed fs k s node m (m1, fd)
      → ((sys_close fs k fd m1).1 ≡ 0)
        × ((sys_close fs k fd m1).0.fd_table ≡ m.fd_table)
        × ((sys_close fs k fd m1).0.files ≡ vfs_close fs node s)
  unfolding sys_close is_open
  install-sys_close s node fd m m1 real size got (inl (taken, e)) = absurd (got (ap (λ r. r.1) e))
  install-sys_close s node fd m m1 real size got (inr (i, low, high, free, before, e)) =
      let place : fd ≡ i = ap (λ r. r.1) e in
      let table : m1.fd_table ≡ set m.fd_table i node = ap (λ r. r.0.fd_table) e in
      let files : m1.files ≡ s = ap (λ r. r.0.files) e in
      let entry : get_or m1.fd_table fd 0 ≡ node =
        ap (λ t. get_or t fd 0) table
        ∙ ap (λ j. get_or (set m.fd_table i node) j 0) place
        ∙ get_or-set m.fd_table i node (omega (arith, size, high)) in
      let standard : ltb fd 3 ≡ false = ground (arith, place, low) in
      let near : leb max_files fd ≡ false = ground (arith, place, high) in
      let full : (get_or m1.fd_table fd 0 == 0) ≡ false = ground (arith, entry, real) in
      rw (sys_close, is_open, standard, near, full)
        (
          refl,
          ap (λ t. set t fd 0) table
              ∙ ap (λ j. set (set m.fd_table i node) j 0) place
              ∙ set-set m.fd_table i node free,
          ap (λ n. vfs_close fs n m1.files) entry ∙ ap (vfs_close fs node) files,
        )

  -- A descriptor that `sys_open` has just given out can be closed: `sys_close` returns 0, the
  -- table of descriptors is as before the two calls, and the node of the path is closed.
  pub sys_close-sys_open :
      (path_ptr flags fd : ℕ) (m m1 : Machine S)
      → length m.fd_table ≡ max_files
      → sys_open fs k path_ptr flags m ≡ some (m1, fd)
      → fd ≢ minus_one
      → ((sys_close fs k fd m1).1 ≡ 0)
        × ((sys_close fs k fd m1).0.fd_table ≡ m.fd_table)
        × ((path : List ℕ) × (s : S) × (node : ℕ) × (user_path k.accessible path_ptr m.memory
              ≡ some path)
            × (open_or_create fs k path flags m.files ≡ some (s, node))
            × ((sys_close fs k fd m1).0.files ≡ vfs_close fs node s))
  sys_close-sys_open path_ptr flags fd m m1 size h got = elim (sys_open_lem fs k path_ptr flags m) [
    | inl (unread, e) ↦ absurd (got (outcome (sym h ∙ e)))
    | inr (path, read, inl (lost, e)) ↦ absurd (some_not_none (sym h ∙ e))
    | inr (path, read, inr (s, node, r, found, e, inl (nil, same))) ↦
        absurd (got (outcome (sym h ∙ e ∙ ap (λ x. some x) same)))
    | inr (path, read, inr (s, node, r, found, e, inr (real, placed))) ↦
        let here : r ≡ (m1, fd) = sym (inside (sym h ∙ e)) in
        let (zero_result, table, files) =
          install-sys_close s node fd m m1 real size got
            (subst (Installed fs k s node m) here placed) in
        (zero_result, table, (path, s, node, read, found, files))
  ]
    where
      inside : {x y : Machine S × ℕ} → some x ≡ some y → x ≡ y
      inside {x} {y} e = cc

      outcome :
          {a b : Machine S} {x y : ℕ}
          → ◌≡◌ {A = Option (Machine S × ℕ)} (some (a, x)) (some (b, y))
          → x ≡ y
      outcome e = ap (λ r. r.1) (inside e)

      some_not_none : {x : Machine S × ℕ} → some x ≢ none
      some_not_none e = absurd (false≢true (cc))
