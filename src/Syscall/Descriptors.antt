-- ===== src/Syscall/Descriptors.antt =====
-- The descriptors that `sys_open` gives out and `sys_close` takes back, kernel/syscalls/sys_file.cpp.
use keon_os.Base.{
  ℕ, zero, suc, ◌+◌, ◌≤◌, ◌<◌, ◌≡◌, ◌≢◌, ◌⊎◌, inl, inr, refl, ap, ◌∙◌, Option, none, some, List,
  get_or, set, ◌==◌, ◌>>=◌, Bool-cases, Option-cases, arith,
}
use mathlib.Core.Path.{subst}
use keon_os.Vfs.{Fs, minus_one, vfs_close}
use keon_os.Syscall.{Machine, Kernel, user_path}
use keon_os.Syscall.File.{max_files, free_place, install, open_or_create, sys_open}

-- The places from `i` to before `j` have nodes.
abbrev pub Taken : List ℕ → ℕ → ℕ → Type 0
Taken table i j = (p : ℕ) → i ≤ p → p < j → get_or table p 0 ≢ 0

-- The first free of the `n` places from `i` on, or that there is none.
abbrev pub FirstFree : ℕ → ℕ → List ℕ → Option ℕ → Type 0
FirstFree n i table none = Taken table i (i + n)
FirstFree n i table (some p) = (i ≤ p) × (p < i + n) × (get_or table p 0 ≡ 0) × Taken table i p

free_place_lem : (n i : ℕ) (table : List ℕ) → FirstFree n i table (free_place n i table)
unfolding free_place
free_place_lem zero i table = λ p low high. absurd (omega (arith, low, high))
free_place_lem (suc n) i table = elim (Bool-cases (get_or table i 0 == 0)) [
  | inl free ↦ rw free (
    omega arith,
    omega arith,
    ground (arith, free),
    λ p low high. absurd (omega (arith, low, high)),
  )
  | inr used ↦
      rw used (
        behind (free_place n (i + 1) table) (free_place_lem n (i + 1) table) (ground (arith, used)))
]
  where
    here_or :
        (p : ℕ)
        → get_or table i 0 ≢ 0
        → i ≤ p
        → (i + 1 ≤ p → get_or table p 0 ≢ 0)
        → get_or table p 0 ≢ 0
    here_or p here low later = elim (Bool-cases (i == p)) [
      | inl same ↦
          let e : i ≡ p = ground (arith, same) in λ z. here (ap (λ q. get_or table q 0) e ∙ z)
      | inr other ↦ later (ground (arith, other, low))
    ]

    behind :
        (r : Option ℕ)
        → FirstFree n (i + 1) table r
        → get_or table i 0 ≢ 0
        → FirstFree (suc n) i table r
    behind none h here = λ p low high. here_or p here low (λ past. h p past (omega (arith, high)))
    behind (some q) (low, high, free, before) here = (
      omega (arith, low),
      omega (arith, high),
      free,
      λ p from to. here_or p here from (λ past. before p past to),
    )

module _ {S : Type 0} (fs : Fs S) (k : Kernel S) where
  -- What becomes of a node that was found: it gets the lowest free place, or it is closed again.
  abbrev pub Installed : S → ℕ → Machine S → Machine S × ℕ → Type 0
  Installed s node m r =
      (Taken m.fd_table 3 max_files × (r ≡ (record m { files = vfs_close fs node s }, minus_one)))
      ⊎ ((fd : ℕ) × (3 ≤ fd)
          × (fd < max_files)
          × (get_or m.fd_table fd 0 ≡ 0)
          × Taken m.fd_table 3 fd
          × (r ≡ (
            record m {
              files = s;
              fd_table = set m.fd_table fd node;
              fd_offset = set m.fd_offset fd 0;
            },
            fd,
          )))

  install-Installed :
      (s : S) (node : ℕ) (m : Machine S)
      → Installed s node m (install fs k node (record m { files = s }))
  unfolding install vfs_close
  install-Installed s node m = elim (Option-cases (free_place 13 3 m.fd_table)) [
    | inl e ↦
        inl (
          subst (FirstFree 13 3 m.fd_table) e (free_place_lem 13 3 m.fd_table),
          rw (install, e) refl,
        )
    | inr (fd, e) ↦
        let (low, high, free, before) =
          subst (FirstFree 13 3 m.fd_table) e (free_place_lem 13 3 m.fd_table) in
        inr (fd, low, high, free, before, rw (install, e) refl)
  ]

  -- What `sys_open` does with a path that it can read.
  abbrev pub Opened : List ℕ → ℕ → Machine S → Option (Machine S × ℕ) → Type 0
  Opened path flags m result =
      ((open_or_create fs k path flags m.files ≡ none) × (result ≡ none))
      ⊎ ((s : S) × (node : ℕ) × (r : Machine S × ℕ) × (open_or_create fs k path flags m.files
            ≡ some (s, node))
          × (result ≡ some r)
          × (((node ≡ 0) × (r ≡ (record m { files = s }, minus_one)))
              ⊎ ((node ≢ 0) × Installed s node m r)))

  opened :
      (path_ptr flags : ℕ) (m : Machine S) (path : List ℕ)
      → user_path k.accessible path_ptr m.memory ≡ some path
      → Opened path flags m (sys_open fs k path_ptr flags m)
  unfolding sys_open ◌>>=◌
  opened path_ptr flags m path e = elim (Option-cases (open_or_create fs k path flags m.files)) [
    | inl lost ↦ inl (lost, rw (sys_open, e, lost) refl)
    | inr ((s, node), found) ↦ inr (elim (Bool-cases (node == 0)) [
      | inl nil ↦ (
        s,
        node,
        (record m { files = s }, minus_one),
        found,
        rw (sys_open, e, found, nil) refl,
        inl (ground (arith, nil), refl),
      )
      | inr real ↦ (
        s,
        node,
        install fs k node (record m { files = s }),
        found,
        rw (sys_open, e, found, real) refl,
        inr (ground (arith, real), install-Installed s node m),
      )
    ])
  ]

  -- `sys_open` returns -1 and changes nothing where the path cannot be read, and -1 with the
  -- descriptors as they were where there is no node for it. Otherwise it gives the node the lowest
  -- descriptor from 3 on that is free, with offset 0, or closes it and returns -1 when
  -- there is none below 16. It has no outcome only where the look-up of the path has none.
  pub sys_open_lem :
      (path_ptr flags : ℕ) (m : Machine S)
      → ((user_path k.accessible path_ptr m.memory ≡ none)
          × (sys_open fs k path_ptr flags m ≡ some (m, minus_one)))
        ⊎ ((path : List ℕ) × (user_path k.accessible path_ptr m.memory ≡ some path)
            × Opened path flags m (sys_open fs k path_ptr flags m))
  unfolding sys_open
  sys_open_lem path_ptr flags m = elim (Option-cases (user_path k.accessible path_ptr m.memory)) [
    | inl e ↦ inl (e, rw (sys_open, e) refl)
    | inr (path, e) ↦ inr (path, e, opened path_ptr flags m path e)
  ]
