-- ===== src/Exec/Library.antt =====
-- `kdl_load` of kernel/exec/kex_loader.cpp: the segments of a library from a base on, and its relocations.
use keon_os.Base.{
  ℕ, zero, suc, ◌+◌, ◌*◌, ◌/◌, ◌%◌, ◌^◌, Bool, true, ◌&&◌, ◌||◌, Option, none, some, List, [], ◌∷◌,
  ltb, ◌==◌, if◌then◌else◌, ◌>>=◌,
}
use keon_os.Pfa.{u64}
use keon_os.Vfs.{Fs, vfs_close}
use keon_os.Exec.{World, e_type, validate_elf, Phdr, page_up, write_run, load_segment}
use keon_os.Exec.Load.{read_headers}

-- The end of the last segment.
unfoldable pub library_size : List Phdr → ℕ → ℕ
library_size [] size = size
library_size (ph ∷ rest) size =
    let end = (ph.p_vaddr + ph.p_memsz) % u64 in
    let more = library_size rest (if ltb size end then end else size) in
    if ph.p_type == 1 then more else library_size rest size

-- The word of `n` bytes at an address.
abbrev pub load_word : ℕ → ℕ → (ℕ → ℕ) → ℕ
load_word zero p memory = 0
load_word (suc n) p memory = memory (p % u64) + 256 * load_word n (p + 1) memory

abbrev pub word_bytes : ℕ → ℕ → List ℕ
word_bytes zero w = []
word_bytes (suc n) w = (w % 256) ∷ word_bytes n (w / 256)

-- `rela`, `rela_sz` and `rela_ent`.
pub record RelaTable : Type 0 where
  pub rela : ℕ
  pub rela_sz : ℕ
  pub rela_ent : ℕ

-- The loop over the dynamic table, on fuel; `none` is a table that goes on behind the fuel.
unfoldable pub dynamic : ℕ → ℕ → ℕ → RelaTable → (ℕ → ℕ) → Option RelaTable
dynamic zero d base r memory = none
dynamic (suc fuel) d base r memory =
    let tag = load_word 8 d memory in
    let val = load_word 8 (d + 8) memory in
    let r' =
      if tag == 7
      then record r { rela = (base + val) % u64 }
      else if tag == 8
      then record r { rela_sz = val }
      else if tag == 9
      then record r { rela_ent = val }
      else r in
    let rest = dynamic fuel (d + 16) base r' memory in if tag == 0 then some r else rest

-- One relocation: the word at `base + r_offset` becomes `base + r_addend` when its type is R_X86_64_RELATIVE.
unfoldable pub relocate_one : ℕ → ℕ → (ℕ → ℕ) → ℕ → ℕ
relocate_one entry base memory =
    let target = (base + load_word 8 entry memory) % u64 in
    let value = (base + load_word 8 (entry + 16) memory) % u64 in
    if load_word 8 (entry + 8) memory % 2 ^ 32 == 8
    then write_run target (word_bytes 8 value) memory
    else memory

-- `n` rounds of the loop over the relocations.
unfoldable pub relocate : ℕ → ℕ → ℕ → (ℕ → ℕ) → ℕ → ℕ
relocate zero entry base memory = memory
relocate (suc n) entry base memory = relocate n (entry + 24) base (relocate_one entry base memory)

module _ {S : Type 0} (fs : Fs S) (cwd : ℕ) where
  -- The loop over the segments, with the address of the dynamic table.
  unfoldable pub map_library : ℕ → ℕ → List Phdr → ℕ → World S → (World S × Bool) × ℕ
  map_library file base [] dyn_table w = ((w, true), dyn_table)
  map_library file base (ph ∷ rest) dyn_table w =
      let start = (base + ph.p_vaddr) % u64 in
      let end = (base + ph.p_vaddr + ph.p_memsz) % u64 in
      let loaded = load_segment fs file start end ph w in
      let later = map_library file base rest dyn_table loaded.0 in
      if ph.p_type == 1
      then (if end == start
          then map_library file base rest dyn_table w
          else if loaded.1
          then later
          else (loaded, dyn_table))
      else if ph.p_type == 2
      then map_library file base rest start w
      else map_library file base rest dyn_table w

  -- The relocations, when there is a dynamic table.
  unfoldable pub process_relocations : ℕ → ℕ → ℕ → (ℕ → ℕ) → Option (ℕ → ℕ)
  process_relocations fuel dyn_table base memory =
      if dyn_table == 0
      then some memory
      else elim (dynamic fuel dyn_table base (record { rela = 0; rela_sz = 0; rela_ent = 0 })
          memory) [
            | none ↦ none
            | some r ↦
                if r.rela == 0 || r.rela_ent == 0
                then some memory
                else some (relocate (r.rela_sz / r.rela_ent) r.rela base memory)
          ]

  -- The part of `kdl_load` behind the headers, with `dyn_lib_break` of the thread.
  unfoldable pub load_library : ℕ → ℕ → List Phdr → ℕ → World S → Option ((World S × ℕ) × ℕ)
  load_library fuel file headers dyn_lib_break w =
      let base = if dyn_lib_break == 0 then 0x7000_0000_0000 else dyn_lib_break in
      let break = (base + page_up (library_size headers 0)) % u64 in
      let r = map_library file base headers 0 w in
      let closed = record r.0.0 { files = vfs_close fs file r.0.0.files } in
      if r.0.1
      then elim (process_relocations fuel r.1 base r.0.0.memory) [
        | none ↦ none
        | some memory ↦ some ((record closed { memory = memory }, break), base)
      ]
      else some ((closed, break), 0)

  unfoldable pub kdl_load : ℕ → List ℕ → ℕ → World S → Option ((World S × ℕ) × ℕ)
  kdl_load fuel path dyn_lib_break w = do
    r ← read_headers fs cwd (λ hdr. validate_elf hdr && e_type hdr == 3) path w.files
    elim r.1 [
      | none ↦ some ((record w { files = r.0 }, dyn_lib_break), 0)
      | some (file, (hdr, headers)) ↦
          load_library fuel file headers dyn_lib_break (record w { files = r.0 })
    ]
