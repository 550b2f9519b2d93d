-- ===== src/Filesys/FileSystem.antt =====
-- filesys/filesys.h and filesys/filesys.cc. The disk is seen through what the kernel stores on it: the
-- bit map in the free map file, the table in the directory file, and the header in each sector that
-- holds one. `FetchFrom` and `WriteBack` are then reads and writes of those fields.
pub mod Consistent
pub mod Create
pub mod Remove
pub mod Format
use so.Prelude.{
  ℕ, zero, suc, ◌+◌, ◌/◌, ltb, ◌==◌, if◌then◌else◌, Bool, true, false, not, List, [], ◌∷◌, ℤ, pos,
  negsuc, Option, none, some, ◌>>=◌, ◌>>◌, assert,
}
use so.Userprog.BitMap
use so.Userprog.BitMap.{BitMap}
use so.Filesys.Directory
use so.Filesys.Directory.{Directory, DirectoryEntry}
use so.Filesys.FileHeader
use so.Filesys.FileHeader.{FileHeader}

-- `SectorsPerTrack * NumTracks` of machine/disk.h.
abbrev pub num_sectors : ℕ
num_sectors = 1024

abbrev pub free_map_sector : ℕ
free_map_sector = 0

abbrev pub directory_sector : ℕ
directory_sector = 1

-- `NumSectors / BitsInByte`.
abbrev pub free_map_file_size : ℕ
free_map_file_size = 128

abbrev pub num_dir_entries : ℕ
num_dir_entries = 10

-- `sizeof(DirectoryEntry) * NumDirEntries`: an entry takes 20 bytes.
abbrev pub directory_file_size : ℕ
directory_file_size = 200

pub record FileSystem : Type 0 where
  pub free_map : BitMap
  pub dir : Directory
  pub header : ℕ → FileHeader

abbrev pub update {ℓ} : {A : Type ℓ} → (ℕ → A) → ℕ → A → ℕ → A
update f k a j = if k == j then a else f j

-- The test `== -1` on an `int`.
abbrev pub is_minus_one : ℤ → Bool
is_minus_one (pos n) = false
is_minus_one (negsuc n) = n == 0

-- `FileHeader::FetchFrom` and `WriteBack`: the disk asserts that the sector exists.
unfoldable pub fetch_header : FileSystem → ℤ → Option FileHeader
fetch_header s (negsuc n) = none
fetch_header s (pos k) = do assert (ltb k num_sectors); some (s.header k)

unfoldable pub write_header : FileSystem → ℤ → FileHeader → Option FileSystem
write_header s (negsuc n) h = none
write_header s (pos k) h = do
  assert (ltb k num_sectors)
  some (record s { header = update s.header k h })

-- `FileSystem(true)`: `g`, `d` and `h` are what the memory holds before it is set.
unfoldable pub format :
    (ℕ → ℕ) → (ℕ → DirectoryEntry) → FileHeader → (ℕ → FileHeader) → Option FileSystem
format g d h disk = do
  free_map ← BitMap.bit_map g num_sectors
  free_map ← BitMap.mark free_map (pos free_map_sector)
  free_map ← BitMap.mark free_map (pos directory_sector)
  (ok, map_hdr, free_map) ← FileHeader.allocate h free_map free_map_file_size
  assert ok
  (ok, dir_hdr, free_map) ← FileHeader.allocate h free_map directory_file_size
  assert ok
  s ←
      write_header
        (record { free_map = free_map; dir = Directory.directory d num_dir_entries; header = disk })
        (pos free_map_sector) map_hdr
  write_header s (pos directory_sector) dir_hdr

-- `Create` once the directory is read and a sector for the header is asked for; nothing is written
-- back before everything worked.
unfoldable pub create_at :
    FileHeader → FileSystem → List ℕ → ℕ → ℤ → BitMap → Option (Bool × FileSystem)
create_at h s name initial_size sector free_map =
    if is_minus_one sector
    then some (false, s)
    else (let (added, dir') = Directory.add s.dir name sector in
        if not added then some (false, s) else (do
          (ok, hdr, free_map') ← FileHeader.allocate h free_map initial_size
          if not ok then some (false, s) else (do
            s' ← write_header s sector hdr
            some (true, record s' { dir = dir'; free_map = free_map' }))))

unfoldable pub create : FileHeader → FileSystem → List ℕ → ℕ → Option (Bool × FileSystem)
create h s name initial_size =
    if not (is_minus_one (Directory.find s.dir name)) then some (false, s) else (do
      (sector, free_map) ← BitMap.find s.free_map
      create_at h s name initial_size sector free_map)

-- `Open`: the header in the file's sector, or NULL; a new `OpenFile` starts at position 0.
pub record OpenFile : Type 0 where
  pub hdr : FileHeader
  pub seek_position : ℕ

unfoldable pub open_file : FileSystem → List ℕ → Option (Option OpenFile)
open_file s name = elim (Directory.find s.dir name) [
  | negsuc n ↦ some none
  | pos k ↦ (do h ← fetch_header s (pos k); some (some (record { hdr = h; seek_position = 0 })))
]

unfoldable pub remove : FileSystem → List ℕ → Option (Bool × FileSystem)
remove s name =
    let sector = Directory.find s.dir name in
    if is_minus_one sector then some (false, s) else (do
      file_hdr ← fetch_header s sector
      free_map ← FileHeader.deallocate file_hdr s.free_map
      free_map' ← BitMap.clear free_map sector
      some (true, record s { free_map = free_map'; dir = (Directory.remove s.dir name).1 }))
