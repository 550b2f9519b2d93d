-- ===== src/Tests/Drive.antt =====
-- Requests to a disk.
use so.Prelude.{ℕ, ◌+◌, ◌<◌, false, ℤ, pos, Option, none, some, ◌≡◌, refl, arith}
use so.Machine.Interrupt.{Kernel, init}
use so.Filesys.OpenFile.{Bytes, Sectors}
use so.Machine.Disk.{Disk, read_request, write_request, handle_interrupt}
use so.Machine.Disk.Requests.{IsIdle, read_request-write_request}

abbrev blank : Sectors
blank s o = 0

abbrev new_disk : Disk
new_disk = record {
  handler = 7;
  handler_arg = 8;
  active = false;
  last_sector = 0;
  buffer_init = 0;
  content = blank;
  num_disk_reads = 0;
  num_disk_writes = 0;
}

new_disk-IsIdle : IsIdle new_disk
new_disk-IsIdle = record { sound = record { aligned = refl; on_disk = omega arith }; idle = refl }

abbrev kernel : Kernel ℕ
unfolding init
kernel = init 0

-- `V` of the semaphore does not fail.
abbrev call : ℕ → ℕ → Kernel ℕ → Option (Kernel ℕ)
call handler arg k = some k

abbrev text : Bytes
text j = j + 65

read_request-write_request_example :
    (d₁ d₂ d₃ : Disk) × (k₁ k₄ : Kernel ℕ) × (out : Bytes) × (write_request 1 2 new_disk kernel
        (pos 77)
        text
      ≡ some (d₁, k₁))
    × ((k' : Kernel ℕ) (t : ℤ) (b : Bytes)
        → (read_request 1 2 d₁ k' t b ≡ none) × (write_request 1 2 d₁ k' t b ≡ none))
    × (handle_interrupt call d₁ kernel ≡ some (d₂, kernel))
    × IsIdle d₂
    × (read_request 1 2 d₂ kernel (pos 77) text ≡ some (d₃, k₄, out))
    × ((j : ℕ) → j < 128 → out j ≡ text j)
read_request-write_request_example =
    read_request-write_request 1 2 call new_disk kernel kernel kernel 77 text text new_disk-IsIdle
      (omega arith) refl
