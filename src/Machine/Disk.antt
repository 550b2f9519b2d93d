-- ===== src/Machine/Disk.antt =====
-- machine/disk.h and machine/disk.cc: a disk that takes one request at a time and interrupts when it is done.
-- The UNIX file that holds its sectors is a field. Times are `int`s that are taken not to overflow. `none` is
-- an ASSERT that fails.
pub mod Latency
pub mod Requests
use so.Prelude.{
  ℕ, ◌+◌, ◌-◌, ◌*◌, ◌/◌, ◌%◌, ltb, ◌==◌, if◌then◌else◌, ◌&&◌, Bool, true, false, not, ℤ, pos,
  negsuc, Option, none, some, ◌>>=◌, ◌>>◌, assert,
}
use so.Machine.Interrupt.{Kernel, schedule, disk_int}
use so.Filesys.FileSystem.{num_sectors}
use so.Filesys.OpenFile.{Bytes, Sectors, copy}

abbrev pub sectors_per_track : ℕ
sectors_per_track = 32

-- `RotationTime` and `SeekTime` of machine/stats.h.
abbrev pub rotation_time : ℕ
rotation_time = 500

abbrev pub seek_time : ℕ
seek_time = 500

-- `handler` and `handler_arg` stand for the function pointer and its argument, the counters are those of
-- `stats`, and `content` is the file `fileno`.
pub record Disk : Type 0 where
  pub handler : ℕ
  pub handler_arg : ℕ
  pub active : Bool
  pub last_sector : ℕ
  pub buffer_init : ℕ
  pub content : Sectors
  pub num_disk_reads : ℕ
  pub num_disk_writes : ℕ

-- `Disk::Disk`, over what the file holds.
unfoldable pub disk : ℕ → ℕ → Sectors → Disk
disk call_when_done call_arg content = record {
  handler = call_when_done;
  handler_arg = call_arg;
  active = false;
  last_sector = 0;
  buffer_init = 0;
  content = content;
  num_disk_reads = 0;
  num_disk_writes = 0;
}

-- `abs(a - b)`.
abbrev pub distance : ℕ → ℕ → ℕ
distance a b = (a - b) + (b - a)

-- `TimeToSeek` at a time: the seek, and the `*rotation` to the start of the next sector.
unfoldable pub time_to_seek : Disk → ℕ → ℕ → ℕ × ℕ
time_to_seek d total_ticks new_sector =
    let seek =
      distance (new_sector / sectors_per_track) (d.last_sector / sectors_per_track) * seek_time in
    let over = (total_ticks + seek) % rotation_time in
    (seek, if ltb 0 over then rotation_time - over else 0)

unfoldable pub modulo_diff : ℕ → ℕ → ℕ
modulo_diff to from =
    (to % sectors_per_track + sectors_per_track - from % sectors_per_track) % sectors_per_track

-- The test of the track buffer. Where `time_after - buffer_init` is negative, so that the quotient is no
-- positive number, it is 0 here, and the test is false both ways.
abbrev pub in_track_buffer : Disk → ℕ → ℕ → ℕ → Bool
in_track_buffer d seek time_after new_sector =
    seek == 0
    && ltb (modulo_diff new_sector (d.buffer_init / rotation_time))
        ((time_after - d.buffer_init) / rotation_time)

unfoldable pub compute_latency : Disk → ℕ → ℕ → Bool → ℕ
compute_latency d total_ticks new_sector writing =
    let (seek, rotation) = time_to_seek d total_ticks new_sector in
    let time_after = total_ticks + seek + rotation in
    if not writing && in_track_buffer d seek time_after new_sector
    then rotation_time
    else seek
      + (rotation + modulo_diff new_sector (time_after / rotation_time) * rotation_time)
      + rotation_time

unfoldable pub update_last : Disk → ℕ → ℕ → Disk
update_last d total_ticks new_sector =
    let (seek, rotate) = time_to_seek d total_ticks new_sector in
    record d {
      buffer_init = if seek == 0 then d.buffer_init else total_ticks + seek + rotate;
      last_sector = new_sector;
    }

abbrev pub after_read : Disk → ℕ → ℕ → Disk
after_read d total_ticks sector = record (update_last d total_ticks sector) {
  active = true;
  num_disk_reads = d.num_disk_reads + 1;
}

abbrev pub after_write : Disk → ℕ → ℕ → Bytes → Disk
after_write d total_ticks sector buf = record (update_last d total_ticks sector) {
  active = true;
  num_disk_writes = d.num_disk_writes + 1;
  content = λ t. if sector == t then copy buf 0 (d.content sector) 0 128 else d.content t;
}

module _ {ℓ} {W : Type ℓ} where
  -- `ReadRequest`: `disk_done` and `this` are the addresses of `DiskDone` and of the disk. The latency of a
  -- negative sector is not computed, since the ASSERT after it fails.
  unfoldable pub read_request :
      ℕ → ℕ → Disk → Kernel W → ℤ → Bytes → Option (Disk × Kernel W × Bytes)
  read_request disk_done this d k (negsuc n) buf = none
  read_request disk_done this d k (pos sector) buf = do
    let ticks = compute_latency d k.stats.total_ticks sector false
    assert (not d.active)
    assert (ltb sector num_sectors)
    k' ← schedule k disk_done this ticks disk_int
    some (after_read d k.stats.total_ticks sector, k', copy (d.content sector) 0 buf 0 128)

  unfoldable pub write_request : ℕ → ℕ → Disk → Kernel W → ℤ → Bytes → Option (Disk × Kernel W)
  write_request disk_done this d k (negsuc n) buf = none
  write_request disk_done this d k (pos sector) buf = do
    let ticks = compute_latency d k.stats.total_ticks sector true
    assert (not d.active)
    assert (ltb sector num_sectors)
    k' ← schedule k disk_done this ticks disk_int
    some (after_write d k.stats.total_ticks sector buf, k')

  -- `HandleInterrupt`: the handler does not reach into the disk.
  unfoldable pub handle_interrupt :
      (ℕ → ℕ → Kernel W → Option (Kernel W)) → Disk → Kernel W → Option (Disk × Kernel W)
  handle_interrupt call d k = do
    k' ← call d.handler d.handler_arg k
    some (record d { active = false }, k')
