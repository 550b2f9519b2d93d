-- ===== src/Threads/Scheduler.antt =====
-- threads/scheduler.h and threads/scheduler.cc: one ready list for each of three priorities. A thread is
-- the number that stands for its pointer; NULL is no thread. `none` is a fault: an index past the array of
-- lists, or a member of NULL.
pub mod Order
pub mod Change
pub mod Dropped
use so.Prelude.{
  ℕ, zero, suc, ◌+◌, ltb, ◌==◌, if◌then◌else◌, Bool, true, false, List, [], ◌∷◌, ◌++◌, Option, none,
  some, ◌>>=◌, ◌>>◌, assert, get_or, set, length,
}
use so.Threads.KeyedList
use so.Threads.KeyedList.{ListElement}

pub data ThreadStatus : Type 0 where
  just_created running ready blocked : ThreadStatus

-- What the scheduler reads and writes of a `Thread`.
pub record Thread : Type 0 where
  pub status : ThreadStatus
  pub priority : ℕ

abbrev pub ReadyList : Type 0
ReadyList = List (ListElement ℕ)

abbrev pub max_priority : ℕ
max_priority = 3

pub record Scheduler : Type 0 where
  pub ready_list_p : List ReadyList
  pub thread : ℕ → Thread

abbrev pub queue : Scheduler → ℕ → ReadyList
queue s p = get_or s.ready_list_p p []

abbrev pub set_queue : Scheduler → ℕ → ReadyList → Scheduler
set_queue s p l = record s { ready_list_p = set s.ready_list_p p l }

abbrev pub in_array : Scheduler → ℕ → Bool
in_array s p = ltb p (length s.ready_list_p)

unfoldable pub scheduler : (ℕ → Thread) → Scheduler
scheduler threads = record { ready_list_p = [] ∷ [] ∷ [] ∷ []; thread = threads }

abbrev pub set_thread : Scheduler → ℕ → Thread → Scheduler
set_thread s t x = record s { thread = λ u. if t == u then x else s.thread u }

unfoldable pub set_status : Scheduler → ℕ → ThreadStatus → Scheduler
set_status s t st = set_thread s t (record (s.thread t) { status = st })

unfoldable pub set_priority : Scheduler → ℕ → ℕ → Scheduler
set_priority s t p = set_thread s t (record (s.thread t) { priority = p })

unfoldable pub ready_to_run : Scheduler → ℕ → Option Scheduler
ready_to_run s t =
    let s' = set_status s t ready in
    let pi = (s'.thread t).priority in
    do assert (in_array s' pi); some (set_queue s' pi (KeyedList.append (queue s' pi) t))

-- The loop of `FindNextToRun`: the highest priority whose list is not empty, or 0.
unfoldable pub highest : Scheduler → ℕ → ℕ
highest s zero = 0
highest s (suc p) = if KeyedList.is_empty (queue s (suc p)) then highest s p else suc p

unfoldable pub find_next_to_run : Scheduler → Option ℕ × Scheduler
find_next_to_run s =
    let p = highest s 2 in let (t, l) = KeyedList.remove (queue s p) in (t, set_queue s p l)

-- The loop of `ChangeQueuePriority`, `head` being the thread that was first; it ends where that thread
-- comes round. A NULL from an empty list is no thread of the kernel, and goes round for ever.
unfoldable pub rotate : ℕ → Scheduler → ℕ → ℕ → ℕ → ℕ → Option Scheduler
rotate zero s i priority th head = none
rotate (suc fuel) s i priority th head = elim (queue s i) [
  | [] ↦ none
  | e ∷ l ↦
      let s' = set_queue s i l in
      let moved =
        rotate fuel (set_queue s' priority (KeyedList.prepend (queue s' priority) th)) i priority th
          head in
      let kept =
        rotate fuel (set_queue s' i (KeyedList.append (queue s' i) e.item)) i priority th head in
      if e.item == head then some s' else (if e.item == th then moved else kept)
]

-- `threadh->getName()` is evaluated for the debug message, so an empty list is a fault.
unfoldable pub change_queue_priority : ℕ → Scheduler → ℕ → ℕ → Option Scheduler
change_queue_priority fuel s th priority =
    let i = (s.thread th).priority in
    do
      assert (in_array s i)
      assert (in_array s priority)
      elim (queue s i) [
        | [] ↦ none
        | e ∷ l ↦
            let s' = set_queue s i l in
            if e.item == th
            then some (set_queue s' priority (KeyedList.prepend (queue s' priority) th))
            else rotate fuel (set_queue s' i (KeyedList.append (queue s' i) e.item)) i priority th
                e.item
      ]
