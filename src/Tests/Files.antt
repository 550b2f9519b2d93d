-- ===== src/Tests/Files.antt =====
-- Bytes of a file of two sectors.
use so.Prelude.{ℕ, zero, suc, ◌+◌, ◌*◌, ◌<◌, [], ◌∷◌, pos, some, ◌≡◌, refl, arith, get_elem?}
use so.Filesys.FileHeader.{FileHeader}
use so.Filesys.FileSystem.{OpenFile}
use so.Filesys.OpenFile.{Bytes, Sectors, read_at, write_at, read, write, seek}
use so.Filesys.OpenFile.Contents.{IsStored, sector_of}
use so.Filesys.OpenFile.Reading.{with_bytes, read_at_lem}
use so.Filesys.OpenFile.Writing.{IsUpdated, write_at_lem}
use so.Filesys.OpenFile.RoundTrip.{read-write}

-- 200 bytes, in the sectors 5 and 3.
abbrev pub two_sectors : FileHeader
two_sectors = record { num_bytes = 200; num_sectors = 2; data_sectors = pos 5 ∷ pos 3 ∷ [] }

abbrev pub contents : Sectors
contents s o = s * 1000 + o

abbrev pub zeros : Bytes
zeros j = 0

pub two_sectors-IsStored : IsStored two_sectors
two_sectors-IsStored = record {
  covered = omega arith;
  on_disk = omega arith;
  stored = λ i lt. held i lt;
  once = λ i j a b e. same i j a b e;
}
  where
    held :
        (i : ℕ)
        → i < 2
        → (get_elem? two_sectors.data_sectors i ≡ some (pos (sector_of two_sectors i)))
          × (sector_of two_sectors i < 1024)
    held zero lt = (refl, omega arith)
    held (suc zero) lt = (refl, omega arith)
    held (suc (suc i)) lt = absurd (omega arith)

    same : (i j : ℕ) → i < 2 → j < 2 → sector_of two_sectors i ≡ sector_of two_sectors j → i ≡ j
    same zero zero a b e = refl
    same zero (suc zero) a b e = absurd (omega arith)
    same (suc zero) zero a b e = absurd (omega arith)
    same (suc zero) (suc zero) a b e = refl
    same (suc (suc i)) j a b e = absurd (omega arith)
    same i (suc (suc j)) a b e = absurd (omega arith)

read_at_lem_example :
    (into' : Bytes) × (read_at zeros contents two_sectors zeros 7 (pos 100) 120 ≡ some (80, into'))
    × ((j : ℕ) → into' j ≡ with_bytes contents two_sectors zeros 7 80 120 j)
read_at_lem_example =
    read_at_lem zeros contents two_sectors zeros 7 100 120 two_sectors-IsStored (omega arith)

write_at_lem_example :
    (d' : Sectors) × (write_at zeros contents two_sectors zeros (pos 20) 120 ≡ some (20, d'))
    × IsUpdated contents d' two_sectors zeros 120 20
write_at_lem_example =
    write_at_lem zeros contents two_sectors zeros 20 120 two_sectors-IsStored (omega arith)

abbrev at_middle : OpenFile
at_middle = record { hdr = two_sectors; seek_position = 100 }

read-write_example :
    (n : ℕ) × (d' : Sectors) × (into' : Bytes) × (f' : OpenFile) × (write zeros contents at_middle
        zeros
        (pos 60)
      ≡ some (n, d', f'))
    × (read zeros d' (seek f' 100) (contents 5) (pos 60) ≡ some (n, into', f'))
    × ((k : ℕ) → k < n → into' k ≡ zeros k)
read-write_example =
    read-write zeros zeros contents at_middle zeros (contents 5) 60 two_sectors-IsStored
      (omega arith)
