-- ===== src/Filesys/Transfer/Files.antt =====
-- Copy of filesys/fstest.cc to a new file, and Print of that file, over the whole file system.
use so.Prelude.{
  ℕ, suc, ◌*◌, ◌≤◌, ◌<◌, true, List, length, pos, none, some, ◌≡◌, refl, arith, ◌∙◌, sym, ap, inl,
  inr,
}
use so.Prelude.CString.{strncmp_equal_refl}
use so.Userprog.BitMap
use so.Userprog.BitMap.{div_round_up}
use so.Filesys.Directory.Lookup.{lookup, has_room, same_name}
use so.Filesys.FileHeader.{FileHeader, sector_size}
use so.Filesys.FileSystem
use so.Filesys.FileSystem.{FileSystem, OpenFile, open_file}
use so.Filesys.FileSystem.Consistent.{Consistent, find-FoundFile}
use so.Filesys.FileSystem.Create.{create_lem}
use so.Filesys.FileSystem.Remove.{open_file_lem}
use so.Filesys.OpenFile.{Bytes, Sectors}
use so.Filesys.OpenFile.Contents.{IsStored}
use so.Filesys.OpenFile.Isolation.{FoundFile-IsStored}
use so.Filesys.Transfer.{Chunk, copy_chunks, copy_file, print_chunks, print_file, shown}
use so.Filesys.Transfer.RoundTrip.{total, joined, opened, print_chunks-copy_chunks}

copy_run :
    (h : FileHeader) (g : Bytes) (s s' : FileSystem) (d d' : Sectors) (cs : List Chunk)
    (to : List ℕ) (f f' : OpenFile)
    → FileSystem.create h s to (total cs) ≡ some (true, s')
    → open_file s' to ≡ some (some f)
    → copy_chunks g d f cs ≡ some (d', f')
    → copy_file h g s d (some (total cs, cs)) to ≡ some (s', d')
unfolding copy_file
copy_run h g s s' d d' cs to f f' made at run = rw (made, at, run) refl

print_run :
    (fuel : ℕ) (g : Bytes) (s : FileSystem) (d : Sectors) (name : List ℕ) (buf : Bytes)
    (f : OpenFile) (l : List ℕ)
    → open_file s name ≡ some (some f)
    → print_chunks fuel g d f buf ≡ some l
    → print_file fuel g s d name buf ≡ some (some l)
unfolding print_file
print_run fuel g s d name buf f l at run = rw (at, run) refl

covered : (n b r : ℕ) → b ≡ n → r ≡ div_round_up n sector_size → b ≤ r * 128
covered n b r e e' = ground arith

-- The header of a name that leads to a sector, once the name is opened.
opened_header :
    (s : FileSystem) (name : List ℕ) (k : ℕ)
    → Consistent s
    → lookup s.dir.table name ≡ some (pos k)
    → (s.header k).num_bytes ≤ (s.header k).num_sectors * 128
    → (open_file s name ≡ some (some (opened (s.header k) 0))) × IsStored (s.header k)
opened_header s name k ok leads fits =
    let f = find-FoundFile s name ok (λ z. absurd (let w = sym z ∙ leads in cc)) in
    let same : f.sector ≡ k = (let w = sym f.looked_up ∙ leads in cc) in
    let st = FoundFile-IsStored s name ok f (rw same fits) in
    (
      elim (open_file_lem s name ok) [
        | inl (gone, _) ↦ absurd (let w = sym gone ∙ leads in cc)
        | inr (p, at, run) ↦
            let here : p ≡ k = (let w = sym at ∙ leads in cc) in
            run ∙ ap (λ m. some (some (opened (s.header m) 0))) here
      ],
      rw same at st,
    )

-- `Copy` to a name that is not there, with a free entry in the directory, enough free sectors and a length that a
-- header can describe, where the chunks that `fread` gives are together as long as `ftell` says: it makes the file
-- with no ASSERT failing, the disk stays consistent, and `Print` of that name then shows the bytes of the chunks in
-- order, and nothing else. One round of its loop more than there are bytes is enough.
pub print_file-copy_file :
    (h : FileHeader) (g g' : Bytes) (s : FileSystem) (d : Sectors) (cs : List Chunk) (name : List ℕ)
    (c fuel : ℕ) (buf : Bytes)
    → Consistent s
    → lookup s.dir.table name ≡ none
    → has_room s.dir.table ≡ true
    → BitMap.num_clear s.free_map ≡ some (suc c)
    → div_round_up (total cs) sector_size ≤ c
    → div_round_up (total cs) sector_size ≤ length h.data_sectors
    → total cs < fuel
    → (s' : FileSystem) × (d' : Sectors) × (copy_file h g s d (some (total cs, cs)) name
        ≡ some (s', d'))
      × Consistent s'
      × (print_file fuel g' s' d' name buf ≡ some (some (shown (joined cs) 0 (total cs))))
unfolding same_name
print_file-copy_file h g g' s d cs name c fuel buf ok fresh room left fits some_fit enough =
    let (k, s', made, ok', free, bytes, sectors, leads) =
      create_lem h s name (total cs) c ok fresh room left fits some_fit in
    let hdr = s'.header k in
    let found : lookup s'.dir.table name ≡ some (pos k) =
      leads name ∙ rw (strncmp_equal_refl 9 name) refl in
    let (open_it, st) =
      opened_header s' name k ok' found
        (covered (total cs) hdr.num_bytes hdr.num_sectors bytes sectors) in
    let (d', run, printed) =
      print_chunks-copy_chunks g g' d hdr cs fuel buf st (sym bytes) enough in
    (
      s',
      d',
      copy_run h g s s' d d' cs name (opened hdr 0) (opened hdr (total cs)) made open_it run,
      ok',
      print_run fuel g' s' d' name buf (opened hdr 0) (shown (joined cs) 0 (total cs)) open_it
          printed,
    )
