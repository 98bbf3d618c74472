-- ===== src/Vfs/Keonfs/Bounds.antt =====
-- The files of a mounted archive, fs/ramfs_vfs.cpp and include/fs/ramfs_vfs.h, lie inside of it.
use keon_os.Base.{
  ℕ, zero, suc, ◌+◌, ◌%◌, ◌≤◌, ◌<◌, ◌≡◌, ◌⊎◌, inl, inr, refl, sym, ◌∙◌, false, Option, none, some,
  List, [], ◌∷◌, ◌++◌, length, length-append, get_elem?, ltb, leb, ◌==◌, Bool-cases, arith,
}
use mathlib.Core.Bool.{false≢true}
use mathlib.Core.Path.{subst}
use keon_os.Vfs.Keonfs.{
  u32, Archive, magic, keonfs_magic, total_files, fs_size, header_size, header_offset, next_header,
  KeonFile, make_file, load, mount, to_read,
}

abbrev pub Within : Archive → List KeonFile → Type 0
Within a [] = Unit {0}
Within a (f ∷ fs) = (f.data_ptr + f.size ≤ fs_size a) × Within a fs

-- The end of no file wraps around that the headers announce, of which the mount takes at most `n` from `h` on.
abbrev pub NoWrap : ℕ → ℕ → Archive → Type 0
NoWrap zero h a = Unit {0}
NoWrap (suc n) h a =
    (header_offset h a + header_size h a < u32)
    × ((next_header h a ≡ 0) ⊎ NoWrap n (next_header h a) a)

Within-append :
    (a : Archive) (fs : List KeonFile) (f : KeonFile)
    → Within a fs
    → f.data_ptr + f.size ≤ fs_size a
    → Within a (fs ++ (f ∷ []))
Within-append a [] f h l = (l, tt)
Within-append a (g ∷ fs) f (here, h) l = (here, Within-append a fs f h l)

Within-at :
    (a : Archive) (fs : List KeonFile) (i : ℕ) (f : KeonFile)
    → Within a fs
    → get_elem? fs i ≡ some f
    → f.data_ptr + f.size ≤ fs_size a
Within-at a [] i f h e = absurd (false≢true (cc))
Within-at a (g ∷ fs) zero f (here, h) e =
    let same : g ≡ f = cc in subst (λ x. x.data_ptr + x.size ≤ fs_size a) same here
Within-at a (g ∷ fs) (suc i) f (here, h) e = Within-at a fs i f h e

not_some : {A : Type 0} (x : A) → ◌≡◌ {A = Option A} none (some x) → ⊥
not_some x e = absurd (false≢true (cc))

-- The end of the loop.
loaded :
    (files result : List KeonFile) (n : ℕ) (a : Archive)
    → Within a files
    → length files ≤ 128
    → some files ≡ some result
    → Within a result × (length result ≤ 128) × (length result ≤ length files + n)
loaded files result n a inside few e =
    let same : files ≡ result = cc in
    (
      subst (Within a) same inside,
      subst (λ fs. length fs ≤ 128) same few,
      subst (λ fs. length fs ≤ length files + n) same (omega arith),
    )

-- What the loop leaves: the files it had and those of the headers, all inside.
load_lem :
    (n h : ℕ) (files result : List KeonFile) (a : Archive)
    → NoWrap n h a
    → Within a files
    → length files ≤ 128
    → load n h files a ≡ some result
    → Within a result × (length result ≤ 128) × (length result ≤ length files + n)
unfolding load make_file
load_lem zero h files result a safe inside few e = loaded files result 0 a inside few e
load_lem (suc n) h files result a safe inside few e =
    let f = make_file h a in
    let files' = files ++ (f ∷ []) in
    let longer : length files' ≡ length files + 1 = length-append files (f ∷ []) in
    elim (Bool-cases (ltb (fs_size a) ((header_offset h a + header_size h a) % u32))) [
      | inl outside ↦ absurd (not_some result (sym (rw (load, outside) refl) ∙ e))
      | inr fits ↦ elim (Bool-cases (leb 128 (length files))) [
        | inl full ↦ absurd (not_some result (sym (rw (load, fits, full) refl) ∙ e))
        | inr room ↦
            let end : header_offset h a + header_size h a ≤ fs_size a =
              ground (arith, fits, safe.0) in
            let inside' : Within a files' = Within-append a files f inside end in
            let few' : length files' ≤ 128 = ground (arith, room, longer) in
            elim (Bool-cases (next_header h a == 0)) [
              | inl last ↦
                  let (w, m, c) =
                    loaded files' result 0 a inside' few'
                      (sym (rw (load, fits, room, last) refl) ∙ e) in
                  (w, m, omega (arith, c, longer))
              | inr more ↦
                  let (w, m, c) =
                    load_lem n (next_header h a) files' result a (later safe.1 more) inside' few'
                      (sym (rw (load, fits, room, more) refl) ∙ e) in
                  (w, m, omega (arith, c, longer))
            ]
      ]
    ]
  where
    later :
        (next_header h a ≡ 0) ⊎ NoWrap n (next_header h a) a
        → (next_header h a == 0) ≡ false
        → NoWrap n (next_header h a) a
    later (inr rest) more = rest
    later (inl last) more = absurd (false≢true (sym more ∙ ground (arith, last)))

-- When the end of no file wraps around that the headers on the chain of the mount announce, a mounted archive has at most 128 files and no more than it
-- announces, and a read of a file whose end does not wrap takes no more bytes than asked for, all
-- of them inside of the archive.
pub to_read-mount :
    (a : Archive) (files : List KeonFile) (i : ℕ) (f : KeonFile) (offset size : ℕ)
    → NoWrap (total_files a) 32 a
    → mount a ≡ some files
    → get_elem? files i ≡ some f
    → offset + size < u32
    → (length files ≤ 128)
      × (length files ≤ total_files a)
      × (to_read offset size f ≤ size)
      × ((to_read offset size f ≡ 0) ⊎ (f.data_ptr + offset + to_read offset size f ≤ fs_size a))
unfolding mount to_read
to_read-mount a files i f offset size safe e at fits = elim (Bool-cases (magic a == keonfs_magic)) [
  | inr other ↦ absurd (not_some files (sym (rw (mount, other) refl) ∙ e))
  | inl good ↦
      let (within, few, announced) =
        load_lem (total_files a) 32 [] files a safe tt (omega arith)
          (sym (rw (mount, good) refl) ∙ e) in
      let end = Within-at a files i f within at in
      let whole : (offset + size) % u32 ≡ offset + size = omega (arith, fits) in
      let (less, bound) = in_file end whole in (few, omega (arith, announced), less, bound)
]
  where
    in_file :
        f.data_ptr + f.size ≤ fs_size a
        → (offset + size) % u32 ≡ offset + size
        → (to_read offset size f ≤ size)
          × ((to_read offset size f ≡ 0)
              ⊎ (f.data_ptr + offset + to_read offset size f ≤ fs_size a))
    in_file end whole = elim (Bool-cases (leb f.size offset)) [
      | inl past ↦ rw (to_read, past) (omega arith, inl refl)
      | inr before ↦ elim (Bool-cases (ltb f.size ((offset + size) % u32))) [
        | inl cut ↦
            rw (to_read, before, cut)
              (ground (arith, cut, whole), inr (ground (arith, before, end)))
        | inr uncut ↦
            rw (to_read, before, uncut)
              (omega arith, inr (ground (arith, before, uncut, whole, end)))
      ]
    ]
