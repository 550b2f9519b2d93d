-- ===== src/Tests/Monitors.antt =====
-- Thread 9 gets a new lock, and runs the code under it.
use so.Prelude.{ℕ, ◌<◌, true, false, [], ◌∷◌, ◌++◌, Option, none, some, ◌≡◌, refl, inl}
use so.Machine.Interrupt.{Kernel, init, schedule}
use so.Machine.Disk
use so.Machine.Disk.{
  Disk, read_request, compute_latency, time_to_seek, modulo_diff, update_last, handle_interrupt,
}
use so.Filesys.OpenFile.{Sectors, copy}
use so.Filesys.SynchDisk.{
  SynchDisk, DiskPlace, DiskCall, reading, DiskBody, request_done, wait_done, DiskInterrupt,
  synch_disk, call_read, request, Replays,
}
use so.Filesys.SynchDisk.Atomic.{synch_disk_atomic, sector_of}
use so.Threads.KeyedList
use so.Threads.Synch.{
  Semaphore, is_held_by, lock, new_semaphore, semaphore, p_at, p_round, v_at, v, v_take, donate,
}
use so.Threads.Synch.Exclusion.{System, enter, p_inv, v_inv, p_sem, own, start, after_p, inside}
use so.Threads.Monitor
use so.Threads.Monitor.{Monitor, open_with, put_place}
use so.Threads.Monitor.Port.{
  Traffic, PortPlace, PortBody, NoInterrupt, port, port_step, begin, storing, marking_full, pending,
  send,
}
use so.Threads.Monitor.Port.Order.{fresh, port_refines_queue}
use so.Threads.Monitor.SynchList.{
  Exchange, ListPlace, ListBody, synch_list, list_step, call_append, appending,
}
use so.Threads.Monitor.SynchList.Order.{all_of, items, synch_list_fifo}
use so.Tests.Turns.{no_semaphores, s₀, s₁, s₂, s₃, s₄, s₅, stored}
use so.Tests.Files.{contents, zeros}

abbrev pub at : {D L : Type 0} → D → System → Monitor D L
at d s = record { system = s; place = λ t. none; guarded = d }

module _ {D L : Type 0} (Body : ℕ → Option L → D → Option L → D → Type 0) (Env : D → D → Type 0)
    (d : D) where
  pub acquired : Monitor.Reach Body Env 0 (open_with no_semaphores d) (at d s₅)
  unfolding open_with is_held_by start lock new_semaphore semaphore after_p p_at p_round v_at v
      v_take donate KeyedList.remove
  acquired =
      Monitor.next
        (Monitor.next
          (Monitor.next
            (Monitor.next
              (Monitor.next Monitor.here (
                Monitor.at_lock (open_with no_semaphores d) s₁ (enter s₀ 9 refl refl)
                  (λ t l e. absurd (cc))))
              (Monitor.at_lock (at d s₁) s₂ (p_inv s₁ 9 refl) (λ t l e. absurd (cc))))
            (Monitor.at_lock (at d s₂) s₃
              (v_inv s₂ 9 s₂.store.sched (stored s₂ (v_at s₂.store s₂.lock.sem_inv_p)) refl refl
                refl)
              (λ t l e. absurd (cc))))
          (Monitor.at_lock (at d s₃) s₄ (p_sem s₃ 9 refl) (λ t l e. absurd (cc))))
        (Monitor.at_lock (at d s₄) s₅ (own s₄ 9 refl) (λ t l e. absurd (cc)))

-- `Send(5)` at a new port.
abbrev sent_one : Traffic
sent_one = record { port = record { access = false; buffer = 5 }; sent = 5 ∷ []; received = [] }

abbrev stored_one : Traffic
stored_one = record { port = record { access = true; buffer = 5 }; sent = []; received = [] }

abbrev port₁ : Monitor Traffic PortPlace
port₁ = put_place (at (fresh 77) s₅) 9 (some (storing 5)) (fresh 77)

abbrev port₂ : Monitor Traffic PortPlace
port₂ = put_place port₁ 9 (some (marking_full 5)) stored_one

abbrev port₃ : Monitor Traffic PortPlace
port₃ = put_place port₂ 9 none sent_one

one_message : Monitor.Reach PortBody NoInterrupt 0 (open_with no_semaphores (fresh 77)) port₃
unfolding PortBody begin port_step port
one_message =
    Monitor.next
      (Monitor.next
        (Monitor.next (acquired PortBody NoInterrupt (fresh 77)) (
          Monitor.body (at (fresh 77) s₅) 9 (some (storing 5)) (fresh 77) refl
            (send 5, refl, refl)))
        (Monitor.body port₁ 9 (some (marking_full 5)) stored_one refl (refl, refl)))
      (Monitor.body port₂ 9 none sent_one refl (refl, refl))

port_refines_queue_example : 5 ∷ [] ≡ [] ++ pending sent_one.port
port_refines_queue_example = port_refines_queue 0 77 no_semaphores port₃ one_message

-- `Append(5)` at a new list.
abbrev list₁ : Monitor (Exchange ℕ) (ListPlace ℕ)
list₁ = put_place (at synch_list s₅) 9 (some (appending 5)) synch_list

abbrev list₂ : Monitor (Exchange ℕ) (ListPlace ℕ)
list₂ = put_place list₁ 9 none (list_step (appending 5) synch_list)

one_item : Monitor.Reach ListBody NoInterrupt 0 (open_with no_semaphores synch_list) list₂
unfolding ListBody list_step synch_list so.Threads.Monitor.SynchList.enter
one_item =
    Monitor.next
      (Monitor.next (acquired ListBody NoInterrupt synch_list) (
        Monitor.body (at synch_list s₅) 9 (some (appending 5)) synch_list refl
          (call_append 5, refl, refl)))
      (Monitor.body list₁ 9 none (list_step (appending 5) synch_list) refl (refl, refl))

synch_list_fifo_example :
    all_of (list₂.guarded.appended) ≡ list₂.guarded.removed ++ items list₂.guarded.list
synch_list_fifo_example = synch_list_fifo 0 no_semaphores list₂ one_item

-- A read of sector 77 of a new disk, its interrupt, and the `P` that passes then.
abbrev idle_kernel : Kernel Semaphore
unfolding init
idle_kernel = init (record { value = 3; queue = [] })

abbrev disk₀ : SynchDisk
disk₀ = synch_disk 7 8 contents idle_kernel

abbrev reading₇₇ : DiskPlace
reading₇₇ = reading 77 zeros (copy (contents 77) 0 zeros 0 128)

abbrev requested : Option (DiskPlace × SynchDisk) → SynchDisk
requested none = disk₀
requested (some r) = r.1

abbrev disk₁ : SynchDisk
disk₁ = requested (request 1 2 (call_read 77 zeros) disk₀)

abbrev interrupted : SynchDisk → Option (Disk × Kernel Semaphore) → SynchDisk
interrupted d none = d
interrupted d (some r) = record d { disk = r.0; kernel = r.1 }

abbrev disk₂ : SynchDisk
disk₂ = interrupted disk₁ (handle_interrupt request_done disk₁.disk disk₁.kernel)

abbrev disk₃ : SynchDisk
disk₃ = (wait_done 9 reading₇₇ disk₂).1

abbrev at_disk₁ : Monitor SynchDisk DiskPlace
at_disk₁ = put_place (at disk₀ s₅) 9 (some reading₇₇) disk₁

abbrev at_disk₂ : Monitor SynchDisk DiskPlace
at_disk₂ = record at_disk₁ { guarded = disk₂ }

abbrev at_disk₃ : Monitor SynchDisk DiskPlace
at_disk₃ = put_place at_disk₂ 9 none disk₃

one_read : Monitor.Reach (DiskBody 1 2) DiskInterrupt 0 (open_with no_semaphores disk₀) at_disk₃
unfolding DiskBody DiskInterrupt synch_disk Disk.disk request read_request compute_latency
    time_to_seek modulo_diff update_last schedule handle_interrupt request_done v_take
    KeyedList.remove wait_done p_round semaphore KeyedList.sorted_insert idle_kernel
one_read =
    Monitor.next
      (Monitor.next
        (Monitor.next (acquired (DiskBody 1 2) DiskInterrupt disk₀) (
          Monitor.body (at disk₀ s₅) 9 (some reading₇₇) disk₁ refl
            (call_read 77 zeros, reading₇₇, refl, refl)))
        (Monitor.interrupt at_disk₁ disk₂ (inl (refl, disk₂.disk, disk₂.kernel, refl, refl))))
      (Monitor.body at_disk₂ 9 none disk₃ refl (refl, refl))

synch_disk_atomic_example :
    ((now : Sectors) × Replays contents at_disk₃.guarded.returned now)
    × ((t : ℕ) (c : DiskCall)
        → at_disk₃.system.phase t ≡ inside
        → at_disk₃.place t ≡ none
        → sector_of c < 1024
        → Replays contents at_disk₃.guarded.returned at_disk₃.guarded.disk.content
          × (l : DiskPlace) × (d' : SynchDisk) × (request 1 2 c at_disk₃.guarded ≡ some (l, d')))
synch_disk_atomic_example =
    synch_disk_atomic 0 1 2 7 8 contents idle_kernel no_semaphores at_disk₃ one_read
