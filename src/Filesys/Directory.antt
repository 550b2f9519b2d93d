-- ===== src/Filesys/Directory.antt =====
-- filesys/directory.h and filesys/directory.cc: a fixed table of names. A sector is an `int`, so a ℤ.
pub mod Lookup
pub mod Release
use so.Prelude.{
  ℕ, zero, suc, ◌+◌, if◌then◌else◌, ◌&&◌, Bool, true, false, not, List, [], ◌∷◌, ℤ, pos, negsuc,
}
use so.Prelude.CString.{strncmp_equal, strncpy}

abbrev pub file_name_max_len : ℕ
file_name_max_len = 9

-- `name` is an array of `FileNameMaxLen + 1` bytes.
pub record DirectoryEntry : Type 0 where
  pub in_use : Bool
  pub sector : ℤ
  pub name : List ℕ

pub record Directory : Type 0 where
  pub table_size : ℕ
  pub table : List DirectoryEntry

-- `new DirectoryEntry[size]` leaves the entries as they are in memory, then each is marked free.
abbrev pub free_entries : (ℕ → DirectoryEntry) → ℕ → ℕ → List DirectoryEntry
free_entries g i zero = []
free_entries g i (suc r) = record (g i) { in_use = false } ∷ free_entries g (suc i) r

unfoldable pub directory : (ℕ → DirectoryEntry) → ℕ → Directory
directory g size = record { table_size = size; table = free_entries g 0 size }

abbrev pub matches : DirectoryEntry → List ℕ → Bool
matches e name = e.in_use && strncmp_equal file_name_max_len e.name name

-- The loop of `FindIndex`, over the entries from index `i` on.
unfoldable pub find_index_from : List DirectoryEntry → ℕ → List ℕ → ℤ
find_index_from [] i name = negsuc 0
find_index_from (e ∷ es) i name = if matches e name then pos i else find_index_from es (suc i) name

unfoldable pub find_index : Directory → List ℕ → ℤ
unfolding find_index_from
find_index d name = find_index_from d.table 0 name

-- `table[i].sector`; no caller has an index outside the table.
unfoldable pub sector_at : List DirectoryEntry → ℕ → ℤ
sector_at [] i = negsuc 0
sector_at (e ∷ es) zero = e.sector
sector_at (e ∷ es) (suc i) = sector_at es i

unfoldable pub find : Directory → List ℕ → ℤ
find d name = elim (find_index d name) [ pos i ↦ sector_at d.table i | negsuc n ↦ negsuc 0 ]

abbrev pub fill : DirectoryEntry → List ℕ → ℤ → DirectoryEntry
fill e name sector = record {
  in_use = true;
  sector = sector;
  name = strncpy file_name_max_len e.name name;
}

-- The loop of `Add`: the first entry that is not in use is filled.
unfoldable pub add_from : List DirectoryEntry → List ℕ → ℤ → Bool × List DirectoryEntry
add_from [] name sector = (false, [])
add_from (e ∷ es) name sector =
    let (done, es') = add_from es name sector in
    if e.in_use then (done, e ∷ es') else (true, fill e name sector ∷ es)

unfoldable pub add : Directory → List ℕ → ℤ → Bool × Directory
add d name sector = elim (find_index d name) [
  | pos i ↦ (false, d)
  | negsuc n ↦
      let (done, table') = add_from d.table name sector in (done, record d { table = table' })
]

-- `table[i].inUse = false`.
unfoldable pub release_at : List DirectoryEntry → ℕ → List DirectoryEntry
release_at [] i = []
release_at (e ∷ es) zero = record e { in_use = false } ∷ es
release_at (e ∷ es) (suc i) = e ∷ release_at es i

unfoldable pub remove : Directory → List ℕ → Bool × Directory
remove d name = elim (find_index d name) [
  | pos i ↦ (true, record d { table = release_at d.table i })
  | negsuc n ↦ (false, d)
]

-- `List`: the names that are printed, in the table's order.
unfoldable pub list_names : List DirectoryEntry → List (List ℕ)
list_names [] = []
list_names (e ∷ es) = if e.in_use then e.name ∷ list_names es else list_names es
