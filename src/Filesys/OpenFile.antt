-- ===== src/Filesys/OpenFile.antt =====
-- filesys/openfile.h and filesys/openfile.cc: bytes of a file, over the sectors of its header. A buffer is
-- read by index, from the address that the caller passes on; that it is long enough is the caller's part. A
-- position is an `int` as a number: from 2 ^ 31 on it is negative. `none` is an ASSERT of the disk that fails, an
-- index outside `dataSectors`, or a sum that is no `int`. What `new` finds in memory is a parameter.
pub mod Contents
pub mod Reading
pub mod Writing
pub mod RoundTrip
pub mod Claims
pub mod Isolation
use so.Prelude.{
  ℕ, zero, suc, ◌+◌, ◌-◌, ◌*◌, ◌/◌, ltb, leb, ◌==◌, if◌then◌else◌, ◌&&◌, ◌||◌, Bool, not, ℤ, pos,
  negsuc, Option, none, some, ◌>>=◌, ◌>>◌, assert,
}
use so.Filesys.FileHeader.{FileHeader, sector_size, byte_to_sector, file_length}
use so.Filesys.FileSystem.{OpenFile, num_sectors}

abbrev pub Bytes : Type 0
Bytes = ℕ → ℕ

-- The sectors of the disk.
abbrev pub Sectors : Type 0
Sectors = ℕ → Bytes

-- `bcopy(&src[from], &dst[to], n)`.
abbrev pub copy : Bytes → ℕ → Bytes → ℕ → ℕ → Bytes
copy src from dst to n j = if leb to j && ltb j (to + n) then src (from + (j - to)) else dst j

-- `SynchDisk::ReadSector` and `WriteSector` of filesys/synchdisk.cc, once the request is done.
unfoldable pub read_sector : Sectors → ℤ → Bytes → ℕ → Option Bytes
read_sector d (negsuc n) buf to = none
read_sector d (pos s) buf to = do assert (ltb s num_sectors); some (copy (d s) 0 buf to sector_size)

unfoldable pub write_sector : Sectors → ℤ → Bytes → ℕ → Option Sectors
write_sector d (negsuc n) buf from = none
write_sector d (pos s) buf from = do
  assert (ltb s num_sectors)
  some (λ t. if s == t then copy buf from (d s) 0 sector_size else d t)

-- The loop of `ReadAt`, from sector `i` of the file on with `r` rounds left.
unfoldable pub read_sectors : Sectors → FileHeader → ℕ → ℕ → ℕ → Bytes → Option Bytes
read_sectors d h first i zero buf = some buf
read_sectors d h first i (suc r) buf = do
  s ← byte_to_sector h (i * sector_size)
  buf' ← read_sector d s buf ((i - first) * sector_size)
  read_sectors d h first (suc i) r buf'

unfoldable pub write_sectors : Sectors → FileHeader → ℕ → ℕ → ℕ → Bytes → Option Sectors
write_sectors d h first i zero buf = some d
write_sectors d h first i (suc r) buf = do
  s ← byte_to_sector h (i * sector_size)
  d' ← write_sector d s buf ((i - first) * sector_size)
  write_sectors d' h first (suc i) r buf

abbrev pub int_limit : ℕ
int_limit = 2147483648

-- The test `position >= fileLength`, which a negative position does not meet.
abbrev pub is_past : FileHeader → ℕ → Bool
is_past h position = ltb position int_limit && leb (file_length h) position

-- How many bytes are left to transfer. The sum must be an `int`, which it is not for a negative position
-- either: what follows would then index `dataSectors` below 0.
abbrev pub clipped : FileHeader → ℕ → ℕ → Option ℕ
clipped h num_bytes position = do
  assert (ltb (position + num_bytes) int_limit)
  some (if ltb (file_length h) (position + num_bytes) then file_length h - position else num_bytes)

abbrev pub last_sector : ℕ → ℕ → ℕ
last_sector position n = (position + n - 1) / sector_size

-- `ReadAt` of a positive number of bytes inside the file, into `into` from `to` on.
unfoldable pub read_inside : Bytes → Sectors → FileHeader → Bytes → ℕ → ℕ → ℕ → Option (ℕ × Bytes)
read_inside g d h into to num_bytes position =
    let first = position / sector_size in
    do
      n ← clipped h num_bytes position
      let sectors = 1 + last_sector position n - first
      buf ← read_sectors d h first first sectors g
      some (n, copy buf (position - first * sector_size) into to n)

unfoldable pub read_at : Bytes → Sectors → FileHeader → Bytes → ℕ → ℤ → ℕ → Option (ℕ × Bytes)
read_at g d h into to (negsuc n) position = some (0, into)
read_at g d h into to (pos num_bytes) position =
    if num_bytes == 0 || is_past h position
    then some (0, into)
    else read_inside g d h into to num_bytes position

-- The first and the last sector are read first if only a part of them is written.
unfoldable pub fetch_first : Bytes → Sectors → FileHeader → Bytes → ℕ → Option Bytes
fetch_first g d h buf position =
    let first = position / sector_size in
    if position == first * sector_size
    then some buf
    else (do (_, buf') ← read_at g d h buf 0 (pos sector_size) (first * sector_size); some buf')

unfoldable pub fetch_last : Bytes → Sectors → FileHeader → Bytes → ℕ → ℕ → Option Bytes
fetch_last g d h buf position n =
    let first = position / sector_size in
    let last = last_sector position n in
    if not (position + n == (last + 1) * sector_size)
      && (not (first == last) || position == first * sector_size)
    then (do
      (_, buf') ←
          read_at g d h buf ((last - first) * sector_size) (pos sector_size) (last * sector_size)
      some buf')
    else some buf

unfoldable pub write_inside : Bytes → Sectors → FileHeader → Bytes → ℕ → ℕ → Option (ℕ × Sectors)
write_inside g d h from num_bytes position =
    let first = position / sector_size in
    do
      n ← clipped h num_bytes position
      let sectors = 1 + last_sector position n - first
      buf ← fetch_first g d h g position
      buf' ← fetch_last g d h buf position n
      d' ←
          write_sectors d h first first sectors
            (copy from 0 buf' (position - first * sector_size) n)
      some (n, d')

unfoldable pub write_at : Bytes → Sectors → FileHeader → Bytes → ℤ → ℕ → Option (ℕ × Sectors)
write_at g d h from (negsuc n) position = some (0, d)
write_at g d h from (pos num_bytes) position =
    if num_bytes == 0 || is_past h position
    then some (0, d)
    else write_inside g d h from num_bytes position

unfoldable pub seek : OpenFile → ℕ → OpenFile
seek f position = record f { seek_position = position }

-- `Read` and `Write` at the seek position, which moves on.
unfoldable pub read : Bytes → Sectors → OpenFile → Bytes → ℤ → Option (ℕ × Bytes × OpenFile)
read g d f into num_bytes = do
  (n, into') ← read_at g d f.hdr into 0 num_bytes f.seek_position
  some (n, into', seek f (f.seek_position + n))

unfoldable pub write : Bytes → Sectors → OpenFile → Bytes → ℤ → Option (ℕ × Sectors × OpenFile)
write g d f from num_bytes = do
  (n, d') ← write_at g d f.hdr from num_bytes f.seek_position
  some (n, d', seek f (f.seek_position + n))
