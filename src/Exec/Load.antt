-- ===== src/Exec/Load.antt =====
-- `kex_load` and `kdl_load` of kernel/exec/kex_loader.cpp.
use keon_os.Base.{
  ℕ, zero, suc, ◌+◌, ◌*◌, ◌%◌, Bool, true, false, ◌&&◌, ◌||◌, not, Option, none, some, List, [],
  ◌∷◌, length, get_or, ltb, ◌==◌, if◌then◌else◌, ◌>>=◌,
}
use keon_os.Pfa.{u64}
use keon_os.Vfs.{Fs, minus_one, same_bytes, vfs_open, vfs_read, vfs_close}
use keon_os.Exec.{
  u32, World, number, e_entry, e_phoff, e_phentsize, e_phnum, ehdr_size, validate_elf, Phdr, phdrs,
  page_down, page_up, load_segment,
}

-- What the loader does to threads: `thread_add` of a user thread that is then blocked, which gives 0 or its address,
-- `thread_kill` of it, and the end of the loading, with the image and the start of the heap, which gives its `id`.
pub record Threads (T : Type 0) : Type 0 where
  pub add : ℕ → List ℕ → T → T × ℕ
  pub kill : ℕ → ℕ → ℕ → T → T
  pub start : ℕ → ℕ → ℕ → ℕ → T → T × ℕ

-- The bytes of the text from place `k` on, before a zero byte.
unfoldable pub text_at : ℕ → ℕ → List ℕ → List ℕ
text_at zero k bs = []
text_at (suc n) k bs =
    let rest = text_at n (k + 1) bs in if get_or bs k 0 == 0 then [] else get_or bs k 0 ∷ rest

-- The note of type 0x1001 with the name `KeonOS`.
unfoldable pub is_kex_note : List ℕ → Bool
is_kex_note note =
    number 4 8 note == 0x1001
    && number 4 0 note == 7
    && same_bytes (text_at (length note) 12 note) (75 ∷ 101 ∷ 111 ∷ 110 ∷ 79 ∷ 83 ∷ [])

-- `min_vaddr` and `max_vaddr` after a segment.
abbrev pub widen_span : ℕ → ℕ → ℕ × ℕ → ℕ × ℕ
widen_span start end span =
    (if ltb start span.0 then start else span.0, if ltb span.1 end then end else span.1)

module _ {S : Type 0} (fs : Fs S) (cwd : ℕ) where
  -- The first pass: whether some note is that of a program.
  unfoldable pub find_note : ℕ → List Phdr → S → S × Bool
  find_note file [] s = (s, false)
  find_note file (ph ∷ rest) s =
      let r = vfs_read fs file (ph.p_offset % u32) (ph.p_filesz % u32) s in
      let later = find_note file rest r.0 in
      if ph.p_type == 4 then (later.0, is_kex_note r.1 || later.1) else find_note file rest s

  -- The header and the program headers of a node; the node is closed where a step fails. `good` is the test of the
  -- header.
  unfoldable pub headers_of : (List ℕ → Bool) → S × ℕ → S × Option (ℕ × (List ℕ × List Phdr))
  headers_of good (s, file) =
      let hdr = vfs_read fs file 0 ehdr_size s in
      let ph_size = e_phnum hdr.1 * e_phentsize hdr.1 in
      let table = vfs_read fs file (e_phoff hdr.1 % u32) ph_size hdr.0 in
      if file == 0
      then (s, none)
      else if not (length hdr.1 == ehdr_size)
      then (vfs_close fs file hdr.0, none)
      else if not (good hdr.1)
      then (vfs_close fs file hdr.0, none)
      else if not (length table.1 == ph_size)
      then (vfs_close fs file table.0, none)
      else (table.0, some (file, (hdr.1, phdrs (e_phnum hdr.1) 0 table.1)))

  -- What both loaders start with.
  unfoldable pub read_headers :
      (List ℕ → Bool) → List ℕ → S → Option (S × Option (ℕ × (List ℕ × List Phdr)))
  read_headers good path s = do opened ← vfs_open fs cwd path s; some (headers_of good opened)

  -- The second pass of `kex_load`, with `min_vaddr` and `max_vaddr`; `false` when no frame is left.
  unfoldable pub load_all : ℕ → List Phdr → ℕ × ℕ → World S → (World S × Bool) × (ℕ × ℕ)
  load_all file [] span w = ((w, true), span)
  load_all file (ph ∷ rest) span w =
      let end = (ph.p_vaddr + ph.p_memsz) % u64 in
      let wider = widen_span ph.p_vaddr end span in
      let loaded = load_segment fs file ph.p_vaddr end ph w in
      let later = load_all file rest wider loaded.0 in
      if not (ph.p_type == 1) || end == ph.p_vaddr
      then load_all file rest span w
      else if loaded.1
      then later
      else (loaded, wider)

  -- The rest of `kex_load`, for a thread that was made.
  unfoldable pub load_program :
      {T : Type 0} → Threads T → ℕ → ℕ → List Phdr → World S → T → (World S × T) × ℕ
  load_program ts file thread headers w t =
      let r = load_all file headers (minus_one, 0) w in
      let low = page_down r.1.0 in
      let high = page_up r.1.1 in
      let heap = page_up (if ltb r.1.1 0x4000_0000 then 0x4000_0000 else r.1.1) in
      let done = record r.0.0 { files = vfs_close fs file r.0.0.files } in
      let started = ts.start thread low high heap t in
      if r.0.1
      then ((done, started.0), started.1)
      else ((done, ts.kill thread low high t), minus_one)

  -- `kex_load` behind the headers.
  unfoldable pub load_file :
      {T : Type 0}
      → Threads T
      → List ℕ
      → World S
      → T
      → S × Option (ℕ × (List ℕ × List Phdr))
      → (World S × T) × ℕ
  load_file ts path w t (s, none) = ((record w { files = s }, t), minus_one)
  load_file ts path w t (s, some (file, (hdr, headers))) =
      let noted = find_note file headers s in
      let added = ts.add (e_entry hdr) path t in
      if not noted.1
      then ((record w { files = vfs_close fs file noted.0 }, t), minus_one)
      else if added.1 == 0
      then ((record w { files = vfs_close fs file noted.0 }, added.0), minus_one)
      else load_program ts file added.1 headers (record w { files = noted.0 }) added.0

  unfoldable pub kex_load :
      {T : Type 0} → Threads T → List ℕ → World S → T → Option ((World S × T) × ℕ)
  kex_load ts path w t = do
    r ← read_headers validate_elf path w.files
    some (load_file ts path w t r)
