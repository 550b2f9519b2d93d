-- ===== src/Filesys/SynchDisk.antt =====
-- filesys/synchdisk.cc: reads and writes of a sector that return when they are done, for threads that share the disk
-- of machine/disk.cc. They run under a lock. `V` and `P` act on the semaphore that the kernel keeps in `rest`; the
-- thread that `V` wakes is made ready by a step at the scheduler.
pub mod Atomic
use so.Prelude.{
  ℕ, zero, suc, ◌<◌, if◌then◌else◌, Bool, true, false, List, [], ◌∷◌, ℤ, pos, Option, none, some,
  ◌>>=◌, ◌≡◌, ◌⊎◌,
}
use so.Machine.Interrupt.{Kernel}
use so.Machine.Disk
use so.Machine.Disk.{Disk, read_request, write_request, handle_interrupt}
use so.Filesys.OpenFile.{Bytes, Sectors, read_sector, write_sector}
use so.Threads.Synch.{Semaphore, semaphore, p_round, v_take}
use so.Threads.Monitor.{Monitor}

-- What a thread calls when it has the lock, and where it stands before its `P`: with the buffer that the request has
-- filled, or the one that is written.
pub data DiskCall : Type 0 where
  call_read : ℕ → Bytes → DiskCall
  call_write : ℕ → Bytes → DiskCall

pub data DiskPlace : Type 0 where
  reading : ℕ → Bytes → Bytes → DiskPlace
  writing : ℕ → Bytes → DiskPlace

-- The fields of `SynchDisk` but the lock, and the calls that have returned, the last one first.
pub record SynchDisk : Type 0 where
  pub disk : Disk
  pub kernel : Kernel Semaphore
  pub returned : List DiskPlace

-- `SynchDisk::SynchDisk`, over a disk with `content`; `handler` is `DiskRequestDone`, and `this` its argument.
unfoldable pub synch_disk : ℕ → ℕ → Sectors → Kernel Semaphore → SynchDisk
unfolding semaphore
synch_disk handler this content k = record {
  disk = Disk.disk handler this content;
  kernel = record k { rest = semaphore 0 };
  returned = [];
}

-- `RequestDone`, as the handler of the disk calls it.
unfoldable pub request_done : ℕ → ℕ → Kernel Semaphore → Option (Kernel Semaphore)
request_done handler arg k = some (record k { rest = (v_take k.rest).1 })

-- The rest of `ReadSector` and `WriteSector` after the request: one round of `P`.
unfoldable pub wait_done : ℕ → DiskPlace → SynchDisk → Option DiskPlace × SynchDisk
wait_done t l d =
    let (passed, s) = p_round d.kernel.rest t in
    let d' : SynchDisk = record d { kernel = record d.kernel { rest = s } } in
    if passed then (none, record d' { returned = l ∷ d.returned }) else (some l, d')

-- `disk_done` and `address` are the addresses of `DiskDone` and of the disk.
module _ (disk_done address : ℕ) where
  -- What `ReadSector` and `WriteSector` do first under the lock.
  unfoldable pub request : DiskCall → SynchDisk → Option (DiskPlace × SynchDisk)
  request (call_read sector into) d = do
    (disk', k, out) ← read_request disk_done address d.disk d.kernel (pos sector) into
    some (reading sector into out, record d { disk = disk'; kernel = k })
  request (call_write sector from) d = do
    (disk', k) ← write_request disk_done address d.disk d.kernel (pos sector) from
    some (writing sector from, record d { disk = disk'; kernel = k })

  unfoldable pub DiskBody : ℕ → Option DiskPlace → SynchDisk → Option DiskPlace → SynchDisk → Type 0
  DiskBody t none d o' d' =
      (c : DiskCall) × (l : DiskPlace) × (request c d ≡ some (l, d')) × (o' ≡ some l)
  DiskBody t (some l) d o' d' = (o' ≡ (wait_done t l d).0) × (d' ≡ (wait_done t l d).1)

-- While a request is under way its interrupt may come; at any time the rest of the kernel may change.
unfoldable pub DiskInterrupt : SynchDisk → SynchDisk → Type 0
DiskInterrupt d d' =
    ((d.disk.active ≡ true)
      × (disk' : Disk) × (k : Kernel Semaphore) × (handle_interrupt request_done d.disk d.kernel
          ≡ some (disk', k))
      × (d' ≡ record d { disk = disk'; kernel = k }))
    ⊎ ((k : Kernel Semaphore) × (k.rest ≡ d.kernel.rest) × (d' ≡ record d { kernel = k }))

-- The calls that have returned, as calls of `read_sector` and `write_sector` one after the other: they lead from the
-- sectors `start` to `d`.
abbrev pub Replays : Sectors → List DiskPlace → Sectors → Type 0
Replays start [] d = d ≡ start
Replays start (reading sector into out ∷ l) d =
    (read_sector d (pos sector) into 0 ≡ some out) × Replays start l d
Replays start (writing sector from ∷ l) d =
    (before : Sectors) × (write_sector before (pos sector) from 0 ≡ some d) × Replays start l before
