-- ===== src/Exec/Reject.antt =====
-- What `kex_load` of kernel/exec/kex_loader.cpp does with a file that is not a program.
use keon_os.Base.{ℕ, ◌≡◌, ◌≢◌, ◌⊎◌, Bool, true, false, Option, some, List, length, get_or, ◌*◌, ◌%◌}
use keon_os.Vfs.{Fs, minus_one, vfs_read, vfs_close}
use keon_os.Exec.{
  u32, World, e_type, e_machine, e_entry, e_phoff, e_phentsize, e_phnum, ehdr_size, Phdr, phdrs,
}
use keon_os.Exec.Load.{Threads, find_note, load_program, load_file}

-- A header of a 64-bit little-endian program or shared object of x86-64.
abbrev pub IsElf : List ℕ → Type 0
IsElf hdr =
    ((get_or hdr 0 0 ≡ 0x7f)
      × (get_or hdr 1 0 ≡ 69)
      × (get_or hdr 2 0 ≡ 76)
      × (get_or hdr 3 0 ≡ 70))
    × ((get_or hdr 4 0 ≡ 2) × (get_or hdr 5 0 ≡ 1))
    × ((e_machine hdr ≡ 62) × ((e_type hdr ≡ 2) ⊎ (e_type hdr ≡ 3)))

module _ {S : Type 0} (fs : Fs S) (cwd : ℕ) where
  -- What is read of a node that was opened: the header, the table behind it, and its notes.
  abbrev pub header_read : S × ℕ → S × List ℕ
  header_read o = vfs_read fs o.1 0 ehdr_size o.0

  abbrev pub table_size : List ℕ → ℕ
  table_size hdr = e_phnum hdr * e_phentsize hdr

  abbrev pub table_read : S × ℕ → S × List ℕ
  table_read o =
      vfs_read fs o.1 (e_phoff (header_read o).1 % u32) (table_size (header_read o).1)
        (header_read o).0

  abbrev pub headers_read : S × ℕ → List Phdr
  headers_read o = phdrs (e_phnum (header_read o).1) 0 (table_read o).1

  abbrev pub notes_read : S × ℕ → S × Bool
  notes_read o = find_note fs cwd o.1 (headers_read o) (table_read o).0

  module _ {T : Type 0} (ts : Threads T) (path : List ℕ) (w : World S) (t : T) where
    abbrev pub thread_made : S × ℕ → T × ℕ
    thread_made o = ts.add (e_entry (header_read o).1) path t

    -- What may be wrong with the file.
    abbrev pub Faulty : S × ℕ → Type 0
    Faulty o =
        (o.1 ≡ 0)
        ⊎ ((length (header_read o).1 ≢ ehdr_size)
            ⊎ ((IsElf (header_read o).1 → ⊥)
                ⊎ ((length (table_read o).1 ≢ table_size (header_read o).1)
                    ⊎ (((notes_read o).1 ≡ false) ⊎ ((thread_made o).1 ≡ 0)))))

    -- The node is closed again, or there is none; memory and page tables are as before.
    abbrev pub Refused : S × ℕ → Option ((World S × T) × ℕ) → Type 0
    Refused o result =
        (s : S) × (t' : T) × (((o.1 ≡ 0) × (s ≡ o.0)) ⊎ ((s' : S) × (s ≡ vfs_close fs o.1 s')))
        × (result ≡ some ((record w { files = s }, t'), minus_one))

    -- All that the file must be.
    abbrev pub Program : S × ℕ → Type 0
    Program o =
        (o.1 ≢ 0)
        × (length (header_read o).1 ≡ ehdr_size)
        × IsElf (header_read o).1
        × (length (table_read o).1 ≡ table_size (header_read o).1)
        × ((notes_read o).1 ≡ true)
        × ((thread_made o).1 ≢ 0)

    -- The segments of just these headers are loaded, for the thread that was made.
    abbrev pub Loaded : S × ℕ → Option ((World S × T) × ℕ) → Type 0
    Loaded o result =
        result
        ≡ some (
            load_program fs cwd ts o.1 (thread_made o).1 (headers_read o)
              (record w { files = (notes_read o).0 }) (thread_made o).0)

    abbrev pub Outcome : S × ℕ → Option ((World S × T) × ℕ) → Type 0
    Outcome o result = (Faulty o × Refused o result) ⊎ (Program o × Loaded o result)

    abbrev Handled : S × ℕ → S × Option (ℕ × (List ℕ × List Phdr)) → Type 0
    Handled o r = Outcome o (some (load_file fs cwd ts path w t r))
