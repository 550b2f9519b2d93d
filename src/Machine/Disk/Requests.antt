-- ===== src/Machine/Disk/Requests.antt =====
-- Requests to machine/disk.cc, one after the other.
use so.Prelude.{
  ℕ, ◌%◌, ◌<◌, ltb, ◌==◌, if◌then◌else◌, Bool, true, false, ℤ, pos, Option, none, some, ◌≡◌, refl,
  arith, inl, inr, Bool-cases, Option-cases, negsuc, lt→ltb,
}
use so.Machine.Interrupt.{Kernel, schedule, disk_int}
use so.Filesys.OpenFile.{Bytes, Sectors, copy}
use so.Machine.Disk.{
  Disk, time_to_seek, compute_latency, update_last, after_read, after_write, read_request,
  write_request, handle_interrupt,
}
use so.Machine.Disk.Latency.{over_track_lem, compute_latency_lem}

-- The track buffer starts at a sector, and the head is on the disk.
pub record IsSound (d : Disk) : Type 0 where
  pub aligned : d.buffer_init % 500 ≡ 0
  pub on_disk : d.last_sector < 1024

-- Between two requests.
pub record IsIdle (d : Disk) : Type 0 where
  pub sound : IsSound d
  pub idle : d.active ≡ false

update_last_lem :
    (d : Disk) (ticks sector : ℕ)
    → IsSound d
    → sector < 1024
    → ((update_last d ticks sector).buffer_init % 500 ≡ 0)
      × ((update_last d ticks sector).last_sector ≡ sector)
unfolding update_last
update_last_lem d ticks sector s small = elim (Bool-cases ((time_to_seek d ticks sector).0 == 0)) [
  | inl e ↦ (rw e s.aligned, refl)
  | inr e ↦ (rw e (over_track_lem d ticks sector), refl)
]

-- While a request is under way.
pub record Requested (d d' : Disk) (content : Sectors) : Type 0 where
  pub sound : IsSound d'
  pub busy : d'.active ≡ true
  pub held : d'.content ≡ content
  pub handler_same : (d'.handler ≡ d.handler) × (d'.handler_arg ≡ d.handler_arg)

busy_lem :
    (d : Disk) (ticks sector : ℕ) → IsSound d → sector < 1024 → IsSound (update_last d ticks sector)
busy_lem d ticks sector s small =
    let (a, b) = update_last_lem d ticks sector s small in
    record { aligned = a; on_disk = rw b small }

module _ {ℓ} {W : Type ℓ} (disk_done this : ℕ) where
  schedule_lem :
      (k : Kernel W) (d : Disk) (sector : ℕ) (writing : Bool)
      → IsSound d
      → sector < 1024
      → (k' : Kernel W) × (schedule k disk_done this
            (compute_latency d k.stats.total_ticks sector writing)
            disk_int
          ≡ some k')
  unfolding schedule
  schedule_lem k d sector writing s small =
      let ticks = compute_latency d k.stats.total_ticks sector writing in
      let l =
        (compute_latency_lem d k.stats.total_ticks sector writing s.aligned s.on_disk small).0 in
      let positive : ltb 0 ticks ≡ true = lt→ltb 0 ticks (omega arith) in
      elim (Option-cases (schedule k disk_done this ticks disk_int)) [
        | inl e ↦ absurd (let e₂ = rw positive at e in cc)
        | inr r ↦ r
      ]

  -- A read of a sector of an idle disk is accepted, and fills the buffer with the sector.
  pub read_request_lem :
      (d : Disk) (k : Kernel W) (sector : ℕ) (buf : Bytes)
      → IsIdle d
      → sector < 1024
      → (d' : Disk) × (k' : Kernel W) × (read_request disk_done this d k (pos sector) buf
          ≡ some (d', k', copy (d.content sector) 0 buf 0 128))
        × Requested d d' d.content
  unfolding read_request update_last
  read_request_lem d k sector buf i small =
      let (k', e) = schedule_lem k d sector false i.sound small in
      let b = busy_lem d k.stats.total_ticks sector i.sound small in
      (
        after_read d k.stats.total_ticks sector,
        k',
        rw (e, lt→ltb sector 1024 small, i.idle) refl,
        record {
          sound = record { aligned = b.aligned; on_disk = b.on_disk };
          busy = refl;
          held = refl;
          handler_same = (refl, refl);
        },
      )

  pub write_request_lem :
      (d : Disk) (k : Kernel W) (sector : ℕ) (buf : Bytes)
      → IsIdle d
      → sector < 1024
      → (d' : Disk) × (k' : Kernel W) × (write_request disk_done this d k (pos sector) buf
          ≡ some (d', k'))
        × Requested d d'
            (λ t. if sector == t then copy buf 0 (d.content sector) 0 128 else d.content t)
  unfolding write_request update_last
  write_request_lem d k sector buf i small =
      let (k', e) = schedule_lem k d sector true i.sound small in
      let b = busy_lem d k.stats.total_ticks sector i.sound small in
      (
        after_write d k.stats.total_ticks sector buf,
        k',
        rw (e, lt→ltb sector 1024 small, i.idle) refl,
        record {
          sound = record { aligned = b.aligned; on_disk = b.on_disk };
          busy = refl;
          held = refl;
          handler_same = (refl, refl);
        },
      )

  refused :
      (d : Disk) (k : Kernel W) (t : ℤ) (b : Bytes)
      → d.active ≡ true
      → (read_request disk_done this d k t b ≡ none) × (write_request disk_done this d k t b ≡ none)
  unfolding read_request write_request
  refused d k (negsuc n) b busy = (refl, refl)
  refused d k (pos s) b busy = (rw busy refl, rw busy refl)

  handled :
      (call : ℕ → ℕ → Kernel W → Option (Kernel W)) (d d₁ : Disk) (k₂ k₃ : Kernel W)
      → (d₁.handler ≡ d.handler) × (d₁.handler_arg ≡ d.handler_arg)
      → call d.handler d.handler_arg k₂ ≡ some k₃
      → handle_interrupt call d₁ k₂ ≡ some (record d₁ { active = false }, k₃)
  unfolding handle_interrupt
  handled call d d₁ k₂ k₃ same called = rw (same.0, same.1, called) refl

  -- From an idle disk, and with a handler that does not fail: a write to a sector of the disk is accepted;
  -- until its interrupt no other request is; the interrupt leaves the disk idle; and a read of the sector,
  -- accepted then at any time, fills the buffer with the bytes that were written.
  pub read_request-write_request :
      (call : ℕ → ℕ → Kernel W → Option (Kernel W)) (d : Disk) (k k₂ k₃ : Kernel W) (sector : ℕ)
      (from into : Bytes)
      → IsIdle d
      → sector < 1024
      → call d.handler d.handler_arg k₂ ≡ some k₃
      → (d₁ d₂ d₃ : Disk) × (k₁ k₄ : Kernel W) × (out : Bytes) × (write_request disk_done this d k
            (pos sector)
            from
          ≡ some (d₁, k₁))
        × ((k' : Kernel W) (t : ℤ) (b : Bytes)
            → (read_request disk_done this d₁ k' t b ≡ none)
              × (write_request disk_done this d₁ k' t b ≡ none))
        × (handle_interrupt call d₁ k₂ ≡ some (d₂, k₃))
        × IsIdle d₂
        × (read_request disk_done this d₂ k₃ (pos sector) into ≡ some (d₃, k₄, out))
        × ((j : ℕ) → j < 128 → out j ≡ from j)
  read_request-write_request call d k k₂ k₃ sector from into i small called =
      let (d₁, k₁, e, r) = write_request_lem d k sector from i small in
      let d₂ : Disk = record d₁ { active = false } in
      let idle : IsIdle d₂ = record {
        sound = record { aligned = r.sound.aligned; on_disk = r.sound.on_disk };
        idle = refl;
      } in
      let (d₃, k₄, e₂, _) = read_request_lem d₂ k₃ sector into idle small in
      (
        d₁,
        d₂,
        d₃,
        k₁,
        k₄,
        _,
        e,
        λ k' t b. refused d₁ k' t b r.busy,
        handled call d d₁ k₂ k₃ r.handler_same called,
        idle,
        e₂,
        λ j lt. same d₁ r.held j lt,
      )
    where
      same :
          (d₁ : Disk)
          → d₁.content
            ≡ (λ t. if sector == t then copy from 0 (d.content sector) 0 128 else d.content t)
          → (j : ℕ) → j < 128
          → copy (d₁.content sector) 0 into 0 128 j ≡ from j
      same d₁ held j lt = rw held ground arith
