-- ===== src/Tests/Disk.antt =====
-- A disk that is formatted, and files that are created and removed on it.
use so.Prelude.{
  ℕ, ◌+◌, if◌then◌else◌, true, false, List, [], ◌∷◌, pos, none, some, ◌≡◌, ◌≢◌, refl, arith,
}
use so.Prelude.CString.{strncmp_equal}
use so.Userprog.BitMap
use so.Userprog.BitMap.View.{member}
use so.Filesys.Directory.{Directory, DirectoryEntry}
use so.Filesys.Directory.Lookup.{Distinct, lookup, same_name, has_room}
use so.Filesys.FileHeader.{FileHeader}
use so.Filesys.FileHeader.Sectors.{holds}
use so.Filesys.FileSystem
use so.Filesys.FileSystem.{FileSystem, format, create, open_file}
use so.Filesys.FileSystem.Consistent.{Consistent, file_claims}
use so.Filesys.FileSystem.Format.{format_lem}
use so.Filesys.FileSystem.Create.{exists, create_lem, create_refused}
use so.Filesys.FileSystem.Remove.{remove_found}

abbrev pub no_header : FileHeader
no_header = record {
  num_bytes = 0;
  num_sectors = 0;
  data_sectors =
      pos 0
      ∷ pos 0
      ∷ pos 0
      ∷ pos 0
      ∷ pos 0
      ∷ pos 0
      ∷ pos 0
      ∷ pos 0
      ∷ pos 0
      ∷ pos 0
      ∷ pos 0
      ∷ pos 0
      ∷ pos 0
      ∷ pos 0
      ∷ pos 0
      ∷ pos 0
      ∷ pos 0
      ∷ pos 0
      ∷ pos 0
      ∷ pos 0
      ∷ pos 0
      ∷ pos 0
      ∷ pos 0
      ∷ pos 0
      ∷ pos 0
      ∷ pos 0
      ∷ pos 0
      ∷ pos 0
      ∷ pos 0
      ∷ pos 0
      ∷ [];
}

-- What the memory holds before it is set.
abbrev words : ℕ → ℕ
words i = 0xdead

abbrev entries : ℕ → DirectoryEntry
entries i = record {
  in_use = true;
  sector = pos 9;
  name = 65 ∷ 0 ∷ 0 ∷ 0 ∷ 0 ∷ 0 ∷ 0 ∷ 0 ∷ 0 ∷ 0 ∷ [];
}

abbrev headers : ℕ → FileHeader
headers i = no_header

format_lem_example :
    (s : FileSystem) × (format words entries no_header headers ≡ some s)
    × Consistent s
    × (BitMap.num_clear s.free_map ≡ some 1019)
    × (has_room s.dir.table ≡ true)
    × ((q : List ℕ) → lookup s.dir.table q ≡ none)
format_lem_example = format_lem words entries no_header headers refl

pub formatted :
    (s : FileSystem) × (format words entries no_header headers ≡ some s)
    × Consistent s
    × (BitMap.num_clear s.free_map ≡ some 1019)
    × (has_room s.dir.table ≡ true)
    × ((q : List ℕ) → lookup s.dir.table q ≡ none)
formatted = format_lem words entries no_header headers refl

-- A formatted disk.
abbrev pub disk : FileSystem
disk = formatted.0

pub disk-Consistent : Consistent disk
disk-Consistent = formatted.2

pub disk_left : BitMap.num_clear disk.free_map ≡ some 1019
disk_left = formatted.3

pub disk_has_room : has_room disk.dir.table ≡ true
disk_has_room = formatted.4

pub disk_is_empty : (q : List ℕ) → lookup disk.dir.table q ≡ none
disk_is_empty = formatted.5

-- "notes".
abbrev pub notes : List ℕ
notes = 110 ∷ 111 ∷ 116 ∷ 101 ∷ 115 ∷ 0 ∷ []

create_lem_example :
    (k : ℕ) × (s' : FileSystem) × (create no_header disk notes 300 ≡ some (true, s'))
    × Consistent s'
    × (member disk.free_map k ≡ false)
    × ((s'.header k).num_bytes ≡ 300)
    × ((s'.header k).num_sectors ≡ 3)
    × ((q : List ℕ)
        → lookup s'.dir.table q
          ≡ (if same_name notes q then some (pos k) else lookup disk.dir.table q))
create_lem_example =
    create_lem no_header disk notes 300 1018 disk-Consistent (disk_is_empty notes) disk_has_room
      disk_left (omega arith) (omega arith)

created :
    (k : ℕ) × (s' : FileSystem) × (create no_header disk notes 300 ≡ some (true, s'))
    × Consistent s'
    × (member disk.free_map k ≡ false)
    × ((s'.header k).num_bytes ≡ 300)
    × ((s'.header k).num_sectors ≡ 3)
    × ((q : List ℕ)
        → lookup s'.dir.table q
          ≡ (if same_name notes q then some (pos k) else lookup disk.dir.table q))
created =
    create_lem no_header disk notes 300 1018 disk-Consistent (disk_is_empty notes) disk_has_room
      disk_left (omega arith) (omega arith)

-- The disk with one file.
abbrev full_disk : FileSystem
full_disk = created.1

full_disk-Consistent : Consistent full_disk
full_disk-Consistent = created.3

same_notes : same_name notes notes ≡ true
unfolding same_name strncmp_equal
same_notes = refl

has_notes : lookup full_disk.dir.table notes ≢ none
has_notes e = let h = created.7 notes in cc (same_notes)

create_refused_example : create no_header full_disk notes 10 ≡ some (false, full_disk)
create_refused_example =
    create_refused no_header full_disk notes 10 full_disk-Consistent (exists has_notes)

remove_found_example :
    (s' : FileSystem) × (p : ℕ) × (FileSystem.remove full_disk notes ≡ some (true, s'))
    × Consistent s'
    × (lookup full_disk.dir.table notes ≡ some (pos p))
    × ((j : ℕ)
        → holds s'.free_map j + file_claims full_disk.header (pos p) j ≡ holds full_disk.free_map j)
    × ((q : List ℕ)
        → lookup s'.dir.table q
          ≡ (if same_name notes q then none else lookup full_disk.dir.table q))
remove_found_example = remove_found full_disk notes full_disk-Consistent has_notes

-- A table of two entries, the first of which is in use.
abbrev table : Directory
table = record {
  table_size = 2;
  table =
      record { in_use = true; sector = pos 5; name = 97 ∷ 0 ∷ 0 ∷ 0 ∷ 0 ∷ 0 ∷ 0 ∷ 0 ∷ 0 ∷ 0 ∷ [] }
      ∷ record {
        in_use = false;
        sector = pos 6;
        name = 98 ∷ 0 ∷ 0 ∷ 0 ∷ 0 ∷ 0 ∷ 0 ∷ 0 ∷ 0 ∷ 0 ∷ [];
      }
      ∷ [];
}

abbrev a_name : List ℕ
a_name = 97 ∷ 0 ∷ []

table-Distinct : Distinct table.table
unfolding Distinct lookup
table-Distinct = (λ u. refl, (λ u. refl, tt))
