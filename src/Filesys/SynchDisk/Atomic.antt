-- ===== src/Filesys/SynchDisk/Atomic.antt =====
-- That the calls of filesys/synchdisk.cc return as if each of them were made alone.
use so.Prelude.{
  ℕ, ◌<◌, ◌==◌, if◌then◌else◌, true, false, ◌∷◌, pos, Option, none, some, ◌≡◌, ◌⊎◌, refl, arith,
  ◌∙◌, sym, ap, inl, inr, subst, lt→ltb,
}
use so.Machine.Interrupt.{Kernel, schedule}
use so.Machine.Disk
use so.Machine.Disk.{Disk, read_request, write_request, handle_interrupt}
use so.Machine.Disk.Requests.{IsSound, IsIdle, read_request_lem, write_request_lem}
use so.Filesys.OpenFile.{Bytes, Sectors, read_sector, write_sector, copy}
use so.Threads.Synch.{Store, Semaphore, semaphore, p_round, v_take}
use so.Threads.Synch.Exclusion.{inside}
use so.Threads.Monitor
use so.Threads.Monitor.{Monitor, open_with}
use so.Threads.Monitor.Guarded.{Keeps, Reach-IsOrderly, at_place}
use so.Filesys.SynchDisk.{
  DiskCall, DiskPlace, SynchDisk, call_read, call_write, reading, writing, synch_disk, request_done,
  wait_done, request, DiskBody, DiskInterrupt, Replays,
}

abbrev pub sector_of : DiskCall → ℕ
sector_of (call_read sector into) = sector
sector_of (call_write sector from) = sector

-- The request is under way, or it is done and has posted the semaphore.
abbrev Pending : SynchDisk → Type 0
Pending d =
    ((d.disk.active ≡ true) × (d.kernel.rest.value ≡ 0))
    ⊎ ((d.disk.active ≡ false) × (d.kernel.rest.value ≡ 1))

module _ (disk_done address : ℕ) (d d' : Disk) (k k' : Kernel Semaphore) (sector : ℕ) where
  read_request-rest :
      (into out : Bytes)
      → read_request disk_done address d k (pos sector) into ≡ some (d', k', out)
      → k'.rest ≡ k.rest
  unfolding read_request schedule
  read_request-rest into out e = ground arith

  write_request-rest :
      (from : Bytes)
      → write_request disk_done address d k (pos sector) from ≡ some (d', k')
      → k'.rest ≡ k.rest
  unfolding write_request schedule
  write_request-rest from e = ground arith

read_of :
    (d : Sectors) (sector : ℕ) (into : Bytes)
    → sector < 1024
    → read_sector d (pos sector) into 0 ≡ some (copy (d sector) 0 into 0 128)
unfolding read_sector
read_of d sector into small = rw (lt→ltb sector 1024 small) refl

write_of :
    (d : Sectors) (sector : ℕ) (from : Bytes)
    → sector < 1024
    → write_sector d (pos sector) from 0
      ≡ some (λ t. if sector == t then copy from 0 (d sector) 0 128 else d t)
unfolding write_sector
write_of d sector from small = rw (lt→ltb sector 1024 small) refl

module _ (start : Sectors) where
  abbrev AtPlace : Option DiskPlace → SynchDisk → Type 0
  AtPlace none d =
      IsIdle d.disk × (d.kernel.rest.value ≡ 0) × Replays start d.returned d.disk.content
  AtPlace (some l) d = IsSound d.disk × Pending d × Replays start (l ∷ d.returned) d.disk.content

  module _ (disk_done address : ℕ) where
    -- On an idle disk a request for a sector of it is accepted.
    request_lem :
        (c : DiskCall) (d : SynchDisk)
        → AtPlace none d
        → sector_of c < 1024
        → (l : DiskPlace) × (d' : SynchDisk) × (request disk_done address c d ≡ some (l, d'))
          × AtPlace (some l) d'
    unfolding request
    request_lem (call_read sector into) d (i, z, h) small =
        let (disk', k, e, r) =
          read_request_lem disk_done address d.disk d.kernel sector into i small in
        (
          reading sector into (copy (d.disk.content sector) 0 into 0 128),
          record d { disk = disk'; kernel = k },
          rw e refl,
          (
            r.sound,
            inl (
              r.busy,
              ap (λ x. x.value)
                    (read_request-rest disk_done address d.disk disk' d.kernel k sector into
                      (copy (d.disk.content sector) 0 into 0 128) e)
                  ∙ z,
            ),
            rw r.held (read_of d.disk.content sector into small, h),
          ),
        )
    request_lem (call_write sector from) d (i, z, h) small =
        let (disk', k, e, r) =
          write_request_lem disk_done address d.disk d.kernel sector from i small in
        (
          writing sector from,
          record d { disk = disk'; kernel = k },
          rw e refl,
          (
            r.sound,
            inl (
              r.busy,
              ap (λ x. x.value)
                    (write_request-rest disk_done address d.disk disk' d.kernel k sector from e)
                  ∙ z,
            ),
            (d.disk.content, write_of d.disk.content sector from small ∙ ap some (sym r.held), h),
          ),
        )

    in_range :
        (c : DiskCall) (d d' : SynchDisk) (l : DiskPlace)
        → request disk_done address c d ≡ some (l, d')
        → sector_of c < 1024
    unfolding request read_request write_request
    in_range (call_read sector into) d d' l e = ground arith
    in_range (call_write sector from) d d' l e = ground arith

    request-AtPlace :
        (c : DiskCall) (d d' : SynchDisk) (l : DiskPlace)
        → request disk_done address c d ≡ some (l, d')
        → AtPlace none d
        → AtPlace (some l) d'
    request-AtPlace c d d' l e h =
        let (l₁, d₁, e₁, h₁) = request_lem c d h (in_range c d d' l e) in
        let same : ◌≡◌ {A = DiskPlace × SynchDisk} (l₁, d₁) (l, d') = cc in
        subst (λ x. AtPlace (some (x.0)) (x.1)) same h₁

  wait-AtPlace :
      (t : ℕ) (l : DiskPlace) (d : SynchDisk)
      → AtPlace (some l) d
      → AtPlace ((wait_done t l d).0) ((wait_done t l d).1)
  unfolding wait_done p_round
  wait-AtPlace t l d (s, inl (busy, z), h) =
      let test : (d.kernel.rest.value == 0) ≡ true = ground arith in rw test (s, inl (busy, z), h)
  wait-AtPlace t l d (s, inr (idle, z), h) =
      let test : (d.kernel.rest.value == 0) ≡ false = ground arith in
      rw test (record { sound = s; idle = idle }, omega arith, h)

  interrupt_lem :
      (d : SynchDisk) (disk' : Disk) (k : Kernel Semaphore)
      → handle_interrupt request_done d.disk d.kernel ≡ some (disk', k)
      → (disk' ≡ record (d.disk) { active = false })
        × (k ≡ record (d.kernel) { rest = (v_take d.kernel.rest).1 })
  unfolding handle_interrupt request_done
  interrupt_lem d disk' k e = (cc, cc)

  posted : (d : SynchDisk) → d.disk.active ≡ true → Pending d → ((v_take d.kernel.rest).1).value ≡ 1
  unfolding v_take
  posted d busy (inl (b, z)) = omega arith
  posted d busy (inr (b, z)) = absurd (let y = sym busy ∙ b in cc)

  interrupt-AtPlace :
      (o : Option DiskPlace) (d d' : SynchDisk) → DiskInterrupt d d' → AtPlace o d → AtPlace o d'
  unfolding DiskInterrupt
  interrupt-AtPlace none d d' (inl (busy, _, _, _, _)) (i, z, h) =
      absurd (let y = sym busy ∙ i.idle in cc)
  interrupt-AtPlace (some l) d d' (inl (busy, disk', k, e, same)) (s, p, h) =
      let (a, b) = interrupt_lem d disk' k e in
      rw (same, a, b)
        (record { aligned = s.aligned; on_disk = s.on_disk }, inr (refl, posted d busy p), h)
  interrupt-AtPlace none d d' (inr (k, e, same)) (i, z, h) = rw (same, e) (i, z, h)
  interrupt-AtPlace (some l) d d' (inr (k, e, same)) (s, p, h) = rw (same, e) (s, p, h)

  replayed :
      (o : Option DiskPlace) (d : SynchDisk)
      → AtPlace o d
      → (now : Sectors) × Replays start d.returned now
  replayed none d (i, z, h) = (d.disk.content, h)
  replayed (some (reading sector into out)) d (s, p, h) = (d.disk.content, h.1)
  replayed (some (writing sector from)) d (s, p, h) = (h.0, h.2)

  module _ (disk_done address : ℕ) where
    disk_keeps : Keeps (DiskBody disk_done address) DiskInterrupt AtPlace
    unfolding DiskBody
    disk_keeps = record { by_body = kept_by; by_interrupt = interrupt-AtPlace }
      where
        kept_by :
            (t : ℕ) (o o' : Option DiskPlace) (d d' : SynchDisk)
            → DiskBody disk_done address t o d o' d'
            → AtPlace o d
            → AtPlace o' d'
        kept_by t none o' d d' (c, l, e, same) h =
            rw same (request-AtPlace disk_done address c d d' l e h)
        kept_by t (some l) o' d d' (a, b) h = rw (a, b) (wait-AtPlace t l d h)

new-AtPlace :
    (handler this : ℕ) (content : Sectors) (k : Kernel Semaphore)
    → AtPlace content none (synch_disk handler this content k)
unfolding synch_disk Disk.disk semaphore
new-AtPlace handler this content k =
    (record { sound = record { aligned = refl; on_disk = omega arith }; idle = refl }, refl, refl)

-- Threads share a new disk by `ReadSector` and `WriteSector`, in any order of their steps, of the interrupts of the
-- disk, and of whatever else changes the kernel. The calls that have returned did what `read_sector` and
-- `write_sector` do when they are called one after the other, on the sectors that the disk had first. And no
-- ASSERT of the disk fails: whenever a thread has got the lock, its request for a sector of the disk is accepted,
-- and the disk holds what those calls have left.
pub synch_disk_atomic :
    (fuel disk_done address handler this : ℕ) (content : Sectors) (k : Kernel Semaphore)
    (st : Store) (m : Monitor SynchDisk DiskPlace)
    → Monitor.Reach
        (DiskBody disk_done address)
        DiskInterrupt
        fuel
        (open_with st (synch_disk handler this content k))
        m
    → ((now : Sectors) × Replays content m.guarded.returned now)
      × ((t : ℕ) (c : DiskCall)
          → m.system.phase t ≡ inside
          → m.place t ≡ none
          → sector_of c < 1024
          → Replays content m.guarded.returned m.guarded.disk.content
            × (l : DiskPlace) × (d' : SynchDisk) × (request disk_done address c m.guarded
                ≡ some (l, d')))
synch_disk_atomic fuel disk_done address handler this content k st m r =
    let keeps = disk_keeps content disk_done address in
    let first = new-AtPlace handler this content k in
    let d = synch_disk handler this content k in
    let i =
      Reach-IsOrderly (DiskBody disk_done address) DiskInterrupt fuel st d (AtPlace content) m keeps
        first r in
    (
      replayed content i.place m.guarded i.kept,
      λ t c at e small.
          let h =
            at_place (DiskBody disk_done address) DiskInterrupt fuel st d (AtPlace content) m t
              keeps first r at in
          let h' = subst (λ o. AtPlace content o m.guarded) e h in
          let (l, d', accepted, _) = request_lem content disk_done address c m.guarded h' small in
          (h'.2, l, d', accepted),
    )
