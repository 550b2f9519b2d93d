-- ===== src/Tests/Ready.antt =====
-- Concrete ready lists, semaphores and condition variables.
use so.Prelude.{
  ℕ, zero, suc, ◌<◌, ◌==◌, if◌then◌else◌, true, List, [], ◌∷◌, ◌++◌, none, some, ◌≡◌, ◌≢◌, refl,
  arith,
}
use so.Threads.KeyedList.{ListElement, element, sorted_insert}
use so.Threads.KeyedList.Sorted.{IsSorted, with_key, with_key-sorted_insert}
use so.Threads.Scheduler.{Scheduler, Thread, ready, running, queue, change_queue_priority}
use so.Threads.Scheduler.Change.{Without, kept, moved}
use so.Threads.Scheduler.Dropped.{change_drops_head}
use so.Threads.Synch.{Store, Lock, Condition, is_held_by, wait_begin, p_at}
use so.Threads.Synch.Findings.{wait_falls_through}

abbrev pending : List (ListElement ℕ)
pending = element 7 1 ∷ element 8 4 ∷ []

pending-IsSorted : IsSorted pending
pending-IsSorted = ((omega arith, tt), (tt, tt))

with_key-sorted_insert_example :
    with_key 4 (sorted_insert pending 9 4) ≡ with_key 4 pending ++ (if 4 == 4 then 9 ∷ [] else [])
with_key-sorted_insert_example = with_key-sorted_insert 4 pending 9 4 pending-IsSorted

-- Threads 3 and 4 are ready at priority 0, thread 5 at priority 1; thread 6 runs at priority 2.
abbrev threads : ℕ → Thread
threads t = record {
  status = if t == 6 then running else ready;
  priority = if t == 5 then 1 else (if t == 6 then 2 else 0);
}

abbrev ready_lists : Scheduler
ready_lists = record {
  ready_list_p = (element 3 0 ∷ element 4 0 ∷ []) ∷ (element 5 0 ∷ []) ∷ [] ∷ [];
  thread = threads;
}

change_drops_head_example :
    (s' : Scheduler) × (change_queue_priority 5 ready_lists 4 2 ≡ some s')
    × (queue s' 0 ≡ kept 4 (element 4 0 ∷ []))
    × (queue s' 2 ≡ moved 4 (element 4 0 ∷ []) [])
    × ((s'.thread 3).status ≡ ready)
    × ((q : ℕ) → Without 3 (queue s' q))
change_drops_head_example =
    change_drops_head 5 ready_lists 4 2 (element 3 0) (element 4 0 ∷ []) refl (omega arith)
      (omega arith) (omega arith) refl (omega arith) (omega arith, tt) elsewhere refl (omega arith)
  where
    elsewhere : (q : ℕ) → 0 ≢ q → Without 3 (queue ready_lists q)
    elsewhere zero ne = absurd (ne refl)
    elsewhere (suc zero) ne = (omega arith, tt)
    elsewhere (suc (suc zero)) ne = tt
    elsewhere (suc (suc (suc q))) ne = tt

abbrev store : Store
store = record {
  semaphores = λ a. record { value = 0; queue = [] };
  next_address = 2;
  sched = ready_lists;
}

abbrev held : Lock
held = record { holder = some 6; sem = 0; sem_inv_p = 1 }

abbrev no_waiters : Condition
no_waiters = record { sem_list = [] }

threads_below : (u : ℕ) → (threads u).priority < 3
threads_below u = ground arith

held_by_6 : is_held_by held 6 ≡ true
unfolding is_held_by
held_by_6 = refl

wait_falls_through_example :
    (sem : ℕ) × (l' : Lock) × (c' : Condition) × (st' : Store) × (wait_begin store held no_waiters 6
      ≡ some (sem, l', c', st'))
    × (l'.holder ≡ none)
    × ((p_at st' sem 6).0 ≡ true)
wait_falls_through_example = wait_falls_through store held no_waiters 6 held_by_6 refl threads_below
