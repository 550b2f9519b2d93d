-- ===== src/Filesys/FileSystem/Consistent.antt =====
-- When the free map, the directory and the headers agree: each sector is claimed once if it is
-- marked, and not at all if it is free.
use so.Prelude.{
  ℕ, zero, suc, ◌+◌, ◌<◌, ◌==◌, if◌then◌else◌, true, List, [], ◌∷◌, ℤ, pos, negsuc, none, some, ◌≡◌,
  ◌≢◌, refl, arith, ◌∙◌, ap, inl, inr, Bool-cases,
}
use so.Userprog.BitMap.View.{IsValid}
use so.Filesys.Directory
use so.Filesys.Directory.{
  DirectoryEntry, free_entries, find_index, Directory, matches, find_index_from, sector_at,
  add_from, release_at,
}
use so.Filesys.Directory.Lookup.{
  Distinct, find_index_from-IndexOf, find_index-IndexOf, find-lookup, lookup,
}
use so.Filesys.FileHeader.{FileHeader}
use so.Filesys.FileHeader.Sectors.{claims, InDisk, holds, names_sector}
use so.Filesys.FileSystem.{FileSystem, num_sectors, update}

-- The data sectors of the file whose header is in a sector.
unfoldable pub header_claims : (ℕ → FileHeader) → ℤ → ℕ → ℕ
header_claims hd (negsuc n) j = 0
header_claims hd (pos k) j = claims (hd k).data_sectors 0 (hd k).num_sectors j

-- The sector of the header, and the data sectors.
unfoldable pub file_claims : (ℕ → FileHeader) → ℤ → ℕ → ℕ
unfolding header_claims
file_claims hd s j = names_sector (some s) j + header_claims hd s j

unfoldable pub table_claims : (ℕ → FileHeader) → List DirectoryEntry → ℕ → ℕ
table_claims hd [] j = 0
table_claims hd (e ∷ es) j =
    (if e.in_use then file_claims hd e.sector j else 0) + table_claims hd es j

-- The free map file and the directory file.
unfoldable pub system_claims : (ℕ → FileHeader) → ℕ → ℕ
system_claims hd j = file_claims hd (pos 0) j + file_claims hd (pos 1) j

-- A file's header is in a sector of the disk, and so are its data.
unfoldable pub IsFile : (ℕ → FileHeader) → ℤ → Type 0
IsFile hd s =
    (k : ℕ) × (s ≡ pos k)
    × (k < num_sectors)
    × InDisk (hd k).data_sectors 0 (hd k).num_sectors num_sectors

unfoldable pub AreFiles : (ℕ → FileHeader) → List DirectoryEntry → Type 0
AreFiles hd [] = Unit
AreFiles hd (e ∷ es) = (e.in_use ≡ true → IsFile hd e.sector) × AreFiles hd es

pub record Consistent (s : FileSystem) : Type 0 where
  pub valid : IsValid s.free_map
  pub bits : s.free_map.num_bits ≡ num_sectors
  pub distinct : Distinct s.dir.table
  pub files : AreFiles s.header s.dir.table
  pub exact :
      (j : ℕ) → system_claims s.header j + table_claims s.header s.dir.table j ≡ holds s.free_map j

-- A header written to a sector that nobody claims changes no file.
pub file_claims-update :
    (hd : ℕ → FileHeader) (k p : ℕ) (h : FileHeader) (j : ℕ)
    → file_claims hd (pos p) k ≡ 0
    → file_claims (update hd k h) (pos p) j ≡ file_claims hd (pos p) j
unfolding file_claims
file_claims-update hd k p h j z = elim (Bool-cases (k == p)) [
  | inl e ↦ absurd (ground arith)
  | inr ne ↦ rw ne
]

pub system_claims-update :
    (hd : ℕ → FileHeader) (k : ℕ) (h : FileHeader) (j : ℕ)
    → system_claims hd k ≡ 0
    → system_claims (update hd k h) j ≡ system_claims hd j
unfolding system_claims
system_claims-update hd k h j z = omega (
  arith,
  file_claims-update hd k 0 h j (omega arith),
  file_claims-update hd k 1 h j (omega arith),
)

pub table_claims-update :
    (hd : ℕ → FileHeader) (es : List DirectoryEntry) (k : ℕ) (h : FileHeader) (j : ℕ)
    → AreFiles hd es
    → table_claims hd es k ≡ 0
    → table_claims (update hd k h) es j ≡ table_claims hd es j
unfolding table_claims AreFiles IsFile
table_claims-update hd [] k h j f z = refl
table_claims-update hd (e ∷ es) k h j f z = elim (Bool-cases e.in_use) [
  | inr unused ↦ rw unused (ground (arith, table_claims-update hd es k h j f.1))
  | inl used ↦
      let (p, at, lt, ok) = f.0 used in
      ground (arith, table_claims-update hd es k h j f.1, file_claims-update hd k p h j)
]

IsFile-update :
    (hd : ℕ → FileHeader) (s : ℤ) (k : ℕ) (h : FileHeader)
    → IsFile hd s
    → file_claims hd s k ≡ 0
    → IsFile (update hd k h) s
unfolding IsFile file_claims
IsFile-update hd s k h (p, at, lt, ok) z = elim (Bool-cases (k == p)) [
  | inl e ↦ absurd (ground arith)
  | inr ne ↦ (p, at, lt, rw ne ok)
]

pub AreFiles-update :
    (hd : ℕ → FileHeader) (es : List DirectoryEntry) (k : ℕ) (h : FileHeader)
    → AreFiles hd es
    → table_claims hd es k ≡ 0
    → AreFiles (update hd k h) es
unfolding table_claims AreFiles
AreFiles-update hd [] k h f z = tt
AreFiles-update hd (e ∷ es) k h f z = (
  λ used. IsFile-update hd e.sector k h (f.0 used) (ground arith),
  AreFiles-update hd es k h f.1 (ground arith),
)

-- A new file adds its sectors to the table's.
pub table_claims-add_from :
    (hd : ℕ → FileHeader) (es : List DirectoryEntry) (name : List ℕ) (s : ℤ) (j : ℕ)
    → (add_from es name s).0 ≡ true
    → table_claims hd (add_from es name s).1 j ≡ table_claims hd es j + file_claims hd s j
unfolding table_claims add_from
table_claims-add_from hd [] name s j room = cc
table_claims-add_from hd (e ∷ es) name s j room =
    ground (arith, table_claims-add_from hd es name s j)

pub AreFiles-add_from :
    (hd : ℕ → FileHeader) (es : List DirectoryEntry) (name : List ℕ) (s : ℤ)
    → AreFiles hd es
    → IsFile hd s
    → AreFiles hd (add_from es name s).1
unfolding AreFiles add_from
AreFiles-add_from hd [] name s f new = tt
AreFiles-add_from hd (e ∷ es) name s f new = elim (Bool-cases e.in_use) [
  | inl used ↦ rw used (λ u. f.0 used, AreFiles-add_from hd es name s f.1 new)
  | inr free ↦ rw free (λ u. new, f.1)
]

-- Releasing the entry that `FindIndex` found takes its file's sectors from the table's.
pub table_claims-release_at :
    (hd : ℕ → FileHeader) (es : List DirectoryEntry) (i k : ℕ) (name : List ℕ) (j : ℕ)
    → find_index_from es i name ≡ pos (i + k)
    → table_claims hd (release_at es k) j + file_claims hd (sector_at es k) j ≡ table_claims hd es j
unfolding table_claims release_at sector_at find_index_from
table_claims-release_at hd [] i k name j h = cc
table_claims-release_at hd (e ∷ es) i zero name j h =
    ground (arith, find_index_from-IndexOf es (suc i) name)
table_claims-release_at hd (e ∷ es) i (suc k) name j h =
    ground (
      arith,
      table_claims-release_at hd es (suc i) k name j,
      find_index_from-IndexOf es (suc i) name,
    )

pub AreFiles-release_at :
    (hd : ℕ → FileHeader) (es : List DirectoryEntry) (k : ℕ)
    → AreFiles hd es
    → AreFiles hd (release_at es k)
unfolding AreFiles release_at
AreFiles-release_at hd [] k f = tt
AreFiles-release_at hd (e ∷ es) zero f = (λ u. cc, f.1)
AreFiles-release_at hd (e ∷ es) (suc k) f = (f.0, AreFiles-release_at hd es k f.1)

pub IsFile-find_index :
    (hd : ℕ → FileHeader) (es : List DirectoryEntry) (i k : ℕ) (name : List ℕ)
    → AreFiles hd es
    → find_index_from es i name ≡ pos (i + k)
    → IsFile hd (sector_at es k)
unfolding AreFiles sector_at find_index_from
IsFile-find_index hd [] i k name f h = cc
IsFile-find_index hd (e ∷ es) i zero name f h =
    f.0 (ground (arith, find_index_from-IndexOf es (suc i) name))
IsFile-find_index hd (e ∷ es) i (suc k) name f h =
    IsFile-find_index hd es (suc i) k name f.1
      (ground (arith, find_index_from-IndexOf es (suc i) name))

pub table_claims-free_entries :
    (hd : ℕ → FileHeader) (g : ℕ → DirectoryEntry) (i r j : ℕ)
    → table_claims hd (free_entries g i r) j ≡ 0
unfolding table_claims
table_claims-free_entries hd g i zero j = refl
table_claims-free_entries hd g i (suc r) j =
    omega (arith, table_claims-free_entries hd g (suc i) r j)

pub AreFiles-free_entries :
    (hd : ℕ → FileHeader) (g : ℕ → DirectoryEntry) (i r : ℕ) → AreFiles hd (free_entries g i r)
unfolding AreFiles
AreFiles-free_entries hd g i zero = tt
AreFiles-free_entries hd g i (suc r) = (λ u. cc, AreFiles-free_entries hd g (suc i) r)

-- Where a name of a consistent directory leads.
pub record FoundFile (s : FileSystem) (q : List ℕ) : Type 0 where
  pub index : ℕ
  pub sector : ℕ
  pub indexed : find_index s.dir q ≡ pos index
  pub at_index : sector_at s.dir.table index ≡ pos sector
  pub looked_up : lookup s.dir.table q ≡ some (pos sector)
  pub found : Directory.find s.dir q ≡ pos sector
  pub in_disk : sector < num_sectors
  pub data_in_disk :
      InDisk (s.header sector).data_sectors 0 (s.header sector).num_sectors num_sectors

pub find-FoundFile :
    (s : FileSystem) (q : List ℕ) → Consistent s → lookup s.dir.table q ≢ none → FoundFile s q
unfolding find_index IsFile
find-FoundFile s q ok there = elim (find_index-IndexOf s.dir q) [
  | inl (a, _) ↦ absurd (there a)
  | inr (k, b, a) ↦
      let (p, at, lt, d) =
        IsFile-find_index s.header s.dir.table 0 k q ok.files (b ∙ ap pos (omega arith)) in
      let l : lookup s.dir.table q ≡ some (pos p) = a ∙ ap some at in
      record {
        index = k;
        sector = p;
        indexed = b;
        at_index = at;
        looked_up = l;
        found = rw (find-lookup s.dir q, l) refl;
        in_disk = lt;
        data_in_disk = d;
      }
]
