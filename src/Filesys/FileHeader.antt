-- ===== src/Filesys/FileHeader.antt =====
-- filesys/filehdr.h and filesys/filehdr.cc: which disk sectors hold the data of a file. A file size
-- is taken to be no negative number.
pub mod Sectors
pub mod Release
use so.Prelude.{
  ℕ, zero, suc, ◌+◌, ◌/◌, ◌*◌, ltb, if◌then◌else◌, Bool, true, false, List, [], ◌∷◌, ℤ, Option,
  none, some, ◌>>=◌, ◌>>◌, assert, get_elem?, set, length,
}
use so.Userprog.BitMap
use so.Userprog.BitMap.{BitMap, div_round_up}

abbrev pub sector_size : ℕ
sector_size = 128

-- `NumDirect` with a four-byte `int`: a header fills one sector.
abbrev pub num_direct : ℕ
num_direct = 30

-- `dataSectors` is an array of `NumDirect` numbers.
pub record FileHeader : Type 0 where
  pub num_bytes : ℕ
  pub num_sectors : ℕ
  pub data_sectors : List ℤ

-- `dataSectors[i] = s`. A write past the array has no defined meaning, so it is a fault.
unfoldable pub write_sector : FileHeader → ℕ → ℤ → Option FileHeader
write_sector h i s =
    if ltb i (length h.data_sectors)
    then some (record h { data_sectors = set h.data_sectors i s })
    else none

-- The loop of `Allocate`, from index `i` on with `r` rounds left.
unfoldable pub allocate_from : FileHeader → BitMap → ℕ → ℕ → Option (FileHeader × BitMap)
allocate_from h free_map i zero = some (h, free_map)
allocate_from h free_map i (suc r) = do
  (s, free_map') ← BitMap.find free_map
  h' ← write_sector h i s
  allocate_from h' free_map' (suc i) r

unfoldable pub allocate : FileHeader → BitMap → ℕ → Option (Bool × FileHeader × BitMap)
allocate h free_map file_size = do
  free ← BitMap.num_clear free_map
  if ltb free sectors
      then some (false, h', free_map)
      else (do (h'', free_map') ← allocate_from h' free_map 0 sectors; some (true, h'', free_map'))
  where
    sectors : ℕ
    sectors = div_round_up file_size sector_size

    h' : FileHeader
    h' = record h { num_bytes = file_size; num_sectors = sectors }

-- The loop of `Deallocate`.
unfoldable pub deallocate_from : FileHeader → BitMap → ℕ → ℕ → Option BitMap
deallocate_from h free_map i zero = some free_map
deallocate_from h free_map i (suc r) = do
  s ← get_elem? h.data_sectors i
  used ← BitMap.test free_map s
  assert used
  free_map' ← BitMap.clear free_map s
  deallocate_from h free_map' (suc i) r

unfoldable pub deallocate : FileHeader → BitMap → Option BitMap
deallocate h free_map = deallocate_from h free_map 0 h.num_sectors

unfoldable pub byte_to_sector : FileHeader → ℕ → Option ℤ
byte_to_sector h offset = get_elem? h.data_sectors (offset / sector_size)

unfoldable pub file_length : FileHeader → ℕ
file_length h = h.num_bytes
