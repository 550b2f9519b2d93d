-- ===== src/Tests/Copying.antt =====
-- A UNIX file that is copied to the formatted disk and printed.
use so.Prelude.{ℕ, ◌+◌, List, [], ◌∷◌, some, ◌≡◌, arith}
use so.Filesys.FileSystem.{FileSystem}
use so.Filesys.FileSystem.Consistent.{Consistent}
use so.Filesys.OpenFile.{Sectors}
use so.Filesys.Transfer.{Chunk, copy_file, print_file, shown}
use so.Filesys.Transfer.RoundTrip.{total, joined}
use so.Filesys.Transfer.Files.{print_file-copy_file}
use so.Tests.Files.{contents, zeros}
use so.Tests.Disk.{no_header, disk, disk-Consistent, disk_is_empty, disk_has_room, disk_left, notes}

-- 33 bytes, as `fread` gives them.
abbrev part : ℕ → ℕ → Chunk
part n first = record { amount_read = n; buffer = λ j. first + j }

abbrev parts : List Chunk
parts = part 10 0 ∷ part 10 10 ∷ part 10 20 ∷ part 3 30 ∷ []

print_file-copy_file_example :
    (s' : FileSystem) × (d' : Sectors) × (copy_file no_header zeros disk contents
        (some (total parts, parts))
        notes
      ≡ some (s', d'))
    × Consistent s'
    × (print_file 34 zeros s' d' notes zeros ≡ some (some (shown (joined parts) 0 (total parts))))
print_file-copy_file_example =
    print_file-copy_file no_header zeros zeros disk contents parts notes 1018 34 zeros
      disk-Consistent (disk_is_empty notes) disk_has_room disk_left (omega arith) (omega arith)
      (omega arith)
