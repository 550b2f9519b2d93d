-- ===== src/Tests/TwoFiles.antt =====
-- A disk with two files.
use so.Prelude.{
  ℕ, zero, suc, ◌+◌, ◌≤◌, ◌<◌, ltb, ◌==◌, if◌then◌else◌, true, [], ◌∷◌, pos, some, ◌≡◌, refl, arith,
  ◌∙◌,
}
use so.Prelude.CString.{strncmp_equal}
use so.Userprog.BitMap.{BitMap}
use so.Userprog.BitMap.View.{IsValid, mark_lem}
use so.Filesys.Directory
use so.Filesys.Directory.{Directory, DirectoryEntry, find_index, find_index_from, sector_at}
use so.Filesys.Directory.Lookup.{Distinct, lookup}
use so.Filesys.FileHeader.{FileHeader}
use so.Filesys.FileHeader.Sectors.{holds, claims, InDisk}
use so.Filesys.FileSystem.{FileSystem}
use so.Filesys.FileSystem.Format.{fresh_map}
use so.Filesys.FileSystem.Consistent.{
  Consistent, FoundFile, IsFile, AreFiles, system_claims, table_claims, file_claims, header_claims,
}
use so.Filesys.OpenFile.{Bytes, Sectors, write_at}
use so.Filesys.OpenFile.Contents.{byte_at}
use so.Filesys.OpenFile.Isolation.{write_at-other_file}

-- The sectors below `n` are taken.
marked_below :
    (n : ℕ)
    → n ≤ 1024
    → (m : BitMap) × IsValid m
      × (m.num_bits ≡ 1024)
      × ((j : ℕ) → holds m j ≡ (if ltb j n then 1 else 0))
marked_below zero le =
    let (m, _, v, e, _, empty) = fresh_map (λ i. 0) in (m, v, e, λ j. ground (arith, empty j))
marked_below (suc n) le =
    let (m, v, e, taken) = marked_below n (omega arith) in
    let (m', _, v', e', mem) = mark_lem m n v (omega (arith, e)) in
    (m', v', e' ∙ e, λ j. ground (arith, mem j, taken j))

six_marked :
    (m : BitMap) × IsValid m
    × (m.num_bits ≡ 1024)
    × ((j : ℕ) → holds m j ≡ (if ltb j 6 then 1 else 0))
six_marked = marked_below 6 (omega arith)

abbrev one_sector : ℕ → FileHeader
one_sector s = record { num_bytes = 100; num_sectors = 1; data_sectors = pos s ∷ [] }

abbrev no_sector : FileHeader
no_sector = record { num_bytes = 0; num_sectors = 0; data_sectors = [] }

-- "a" has its header in sector 2 and its bytes in sector 3, "b" in 4 and 5.
abbrev two_files : FileSystem
two_files = record {
  free_map = six_marked.0;
  dir = record {
    table_size = 2;
    table =
        record { in_use = true; sector = pos 2; name = 97 ∷ 0 ∷ [] }
        ∷ record { in_use = true; sector = pos 4; name = 98 ∷ 0 ∷ [] }
        ∷ [];
  };
  header = λ s. if s == 2 then one_sector 3 else (if s == 4 then one_sector 5 else no_sector);
}

two_files-Consistent : Consistent two_files
unfolding Distinct lookup AreFiles IsFile InDisk system_claims table_claims file_claims
    header_claims claims strncmp_equal
two_files-Consistent = record {
  valid = six_marked.1;
  bits = six_marked.2;
  distinct = (λ u. refl, (λ u. refl, tt));
  files = (
    λ u. (2, refl, omega arith, ((3, refl, omega arith), tt)),
    (λ u. (4, refl, omega arith, ((5, refl, omega arith), tt)), tt),
  );
  exact = λ j. ground (arith, six_marked.3 j);
}

a_found : FoundFile two_files (97 ∷ 0 ∷ [])
unfolding find_index find_index_from sector_at lookup Directory.find InDisk strncmp_equal
a_found = record {
  index = 0;
  sector = 2;
  indexed = refl;
  at_index = refl;
  looked_up = refl;
  found = refl;
  in_disk = omega arith;
  data_in_disk = ((3, refl, omega arith), tt);
}

b_found : FoundFile two_files (98 ∷ 0 ∷ [])
unfolding find_index find_index_from sector_at lookup Directory.find InDisk strncmp_equal
b_found = record {
  index = 1;
  sector = 4;
  indexed = refl;
  at_index = refl;
  looked_up = refl;
  found = refl;
  in_disk = omega arith;
  data_in_disk = ((5, refl, omega arith), tt);
}

abbrev blank : Sectors
blank s o = 0

abbrev text : Bytes
text j = j + 65

write_at-other_file_example :
    (n : ℕ) × (d' : Sectors) × (write_at text blank (one_sector 3) text (pos 50) 20 ≡ some (n, d'))
    × ((p : ℕ) → p < 100 → byte_at d' (one_sector 5) p ≡ byte_at blank (one_sector 5) p)
unfolding a_found b_found
write_at-other_file_example =
    write_at-other_file two_files (97 ∷ 0 ∷ []) (98 ∷ 0 ∷ []) text blank text 50 20
      two_files-Consistent a_found b_found (λ e. omega arith) (omega arith) (omega arith)
      (omega arith)
