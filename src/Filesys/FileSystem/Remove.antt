-- ===== src/Filesys/FileSystem/Remove.antt =====
-- `FileSystem::Remove` and `FileSystem::Open`.
use so.Prelude.{
  ℕ, ◌+◌, ◌<◌, if◌then◌else◌, true, false, List, pos, negsuc, none, some, ◌≡◌, ◌≢◌, refl, arith,
  ◌∙◌, ap, ◌⊎◌, inl, inr, Option-cases,
}
use so.Userprog.BitMap
use so.Userprog.BitMap.{BitMap}
use so.Userprog.BitMap.View.{clear_lem}
use so.Filesys.Directory
use so.Filesys.Directory.{Directory, release_at, sector_at, find_index}
use so.Filesys.Directory.Lookup.{lookup, same_name, find-lookup}
use so.Filesys.Directory.Release.{Distinct-release_at, find_index-release_at}
use so.Filesys.FileHeader
use so.Filesys.FileHeader.{FileHeader}
use so.Filesys.FileHeader.Sectors.{holds}
use so.Filesys.FileHeader.Release.{deallocate_lem}
use so.Filesys.FileSystem.{FileSystem, num_sectors, fetch_header, remove, open_file}
use so.Filesys.FileSystem.Consistent.{
  Consistent, FoundFile, find-FoundFile, file_claims, table_claims, table_claims-release_at,
  AreFiles-release_at,
}

-- What one file claims is claimed by the table, so it is marked.
file_claims-le :
    (s : FileSystem) (name : List ℕ) (j : ℕ)
    → Consistent s
    → (f : FoundFile s name)
    → table_claims s.header (release_at s.dir.table f.index) j
        + file_claims s.header (pos f.sector) j
      ≡ table_claims s.header s.dir.table j
unfolding find_index
file_claims-le s name j ok f = rw (← f.at_index) (
    table_claims-release_at s.header s.dir.table 0 f.index name j
      (f.indexed ∙ ap pos (omega arith)))

run_remove :
    (s : FileSystem) (name : List ℕ) (i p : ℕ) (m₁ m₂ : BitMap)
    → Directory.find s.dir name ≡ pos p
    → find_index s.dir name ≡ pos i
    → p < num_sectors
    → FileHeader.deallocate (s.header p) s.free_map ≡ some m₁
    → BitMap.clear m₁ (pos p) ≡ some m₂
    → remove s name
      ≡ some (
        true,
        record s { free_map = m₂; dir = record s.dir { table = release_at s.dir.table i } },
      )
unfolding remove fetch_header Directory.remove
run_remove s name i p m₁ m₂ found indexed lt e₁ e₂ = ground arith

open_found :
    (s : FileSystem) (name : List ℕ) (p : ℕ)
    → Directory.find s.dir name ≡ pos p
    → p < num_sectors
    → open_file s name ≡ some (some (record { hdr = s.header p; seek_position = 0 }))
unfolding open_file fetch_header
open_found s name p found lt = ground arith

open_missing :
    (s : FileSystem) (name : List ℕ)
    → Directory.find s.dir name ≡ negsuc 0
    → open_file s name ≡ some none
unfolding open_file
open_missing s name h = ground arith

-- `Remove` of a name that is there succeeds: the sectors of that file, and no others, become free;
-- the name leads nowhere and the others where they led; the disk stays consistent.
pub remove_found :
    (s : FileSystem) (name : List ℕ)
    → Consistent s
    → lookup s.dir.table name ≢ none
    → (s' : FileSystem) × (p : ℕ) × (remove s name ≡ some (true, s'))
      × Consistent s'
      × (lookup s.dir.table name ≡ some (pos p))
      × ((j : ℕ) → holds s'.free_map j + file_claims s.header (pos p) j ≡ holds s.free_map j)
      × ((q : List ℕ)
          → lookup s'.dir.table q ≡ (if same_name name q then none else lookup s.dir.table q))
unfolding file_claims
remove_found s name ok there =
    let f = find-FoundFile s name ok there in
    let p : ℕ = f.sector in
    let e : (j : ℕ) → _ = λ j. file_claims-le s name j ok f in
    let (m₁, e₁, v₁, n₁, freed) =
      deallocate_lem (s.header p) s.free_map ok.valid (rw ok.bits f.data_in_disk)
        (λ j. omega (arith, e j, ok.exact j)) in
    let (m₂, e₂, v₂, n₂, mem) = clear_lem m₁ p v₁ (omega (arith, f.in_disk, ok.bits, n₁)) in
    let gone : (j : ℕ) → holds m₂ j + file_claims s.header (pos p) j ≡ holds s.free_map j =
      λ j. ground (arith, e j, e p, ok.exact j, ok.exact p, freed j, freed p, mem j) in
    (
      record s { free_map = m₂; dir = record s.dir { table = release_at s.dir.table f.index } },
      p,
      run_remove s name f.index p m₁ m₂ f.found f.indexed f.in_disk e₁ e₂,
      record {
        valid = v₂;
        bits = n₂ ∙ n₁ ∙ ok.bits;
        distinct = Distinct-release_at s.dir.table f.index ok.distinct;
        files = AreFiles-release_at s.header s.dir.table f.index ok.files;
        exact = λ j. omega (arith, e j, ok.exact j, gone j);
      },
      f.looked_up,
      gone,
      λ q. find_index-release_at s.dir f.index name q ok.distinct f.indexed,
    )

-- `Remove` of a name that is not there returns false, and the disk is as it was.
pub remove_missing :
    (s : FileSystem) (name : List ℕ)
    → lookup s.dir.table name ≡ none
    → remove s name ≡ some (false, s)
unfolding remove
remove_missing s name h = rw (find-lookup s.dir name, h) refl

-- `Open` hands out the header that the name leads to, at position 0, and NULL for other names.
pub open_file_lem :
    (s : FileSystem) (name : List ℕ)
    → Consistent s
    → ((lookup s.dir.table name ≡ none) × (open_file s name ≡ some none))
      ⊎ ((p : ℕ) × (lookup s.dir.table name ≡ some (pos p))
          × (open_file s name ≡ some (some (record { hdr = s.header p; seek_position = 0 }))))
open_file_lem s name ok = elim (Option-cases (lookup s.dir.table name)) [
  | inl e ↦ inl (e, open_missing s name (rw (find-lookup s.dir name, e) refl))
  | inr (x, e) ↦
      let f = find-FoundFile s name ok (λ z. cc) in
      inr (f.sector, f.looked_up, open_found s name f.sector f.found f.in_disk)
]
