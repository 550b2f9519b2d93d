-- ===== src/Threads/Synch.antt =====
-- threads/synch.h and threads/synch.cc: semaphores, and locks and condition variables made of them. Code
-- between `SetLevel(IntOff)` and the old level runs without interruption, so it is one step here.
pub mod Semaphores
pub mod Findings
pub mod Exclusion
use so.Prelude.{
  ℕ, zero, suc, ◌+◌, ◌-◌, ltb, ◌==◌, if◌then◌else◌, ◌&&◌, Bool, true, false, not, List, [], ◌∷◌,
  ◌++◌, Option, none, some, ◌>>=◌, ◌>>◌, assert, length,
}
use so.Threads.KeyedList
use so.Threads.KeyedList.{ListElement}
use so.Threads.Scheduler.{
  Scheduler, Thread, ReadyList, ready_to_run, set_priority, change_queue_priority,
}

pub record Semaphore : Type 0 where
  pub value : ℕ
  pub queue : ReadyList

unfoldable pub semaphore : ℕ → Semaphore
semaphore initial_value = record { value = initial_value; queue = [] }

-- One round of the loop of `P` by thread `t`: it passes, or it queues up and sleeps. A thread that is
-- woken makes the next round.
unfoldable pub p_round : Semaphore → ℕ → Bool × Semaphore
p_round s t =
    if s.value == 0
    then (false, record s { queue = KeyedList.append s.queue t })
    else (true, record s { value = s.value - 1 })

-- `V` takes the first sleeper off the queue, if there is one, to make it ready, and adds to the value
-- all the same.
unfoldable pub v_take : Semaphore → Option ℕ × Semaphore
v_take s =
    let (thread, rest) = KeyedList.remove s.queue in
    (thread, record s { queue = rest; value = s.value + 1 })

unfoldable pub v : Semaphore → Scheduler → Option (Semaphore × Scheduler)
v s sched =
    let (thread, s') = v_take s in
    elim thread [
      | none ↦ some (s', sched)
      | some t ↦ (do sched' ← ready_to_run sched t; some (s', sched'))
    ]

-- The semaphores by their addresses, the next free address, and the scheduler.
pub record Store : Type 0 where
  pub semaphores : ℕ → Semaphore
  pub next_address : ℕ
  pub sched : Scheduler

abbrev pub put_semaphore : Store → ℕ → Semaphore → Store
put_semaphore st a s = record st { semaphores = λ b. if a == b then s else st.semaphores b }

unfoldable pub new_semaphore : Store → ℕ → ℕ × Store
new_semaphore st value = (
  st.next_address,
  put_semaphore (record st { next_address = st.next_address + 1 }) st.next_address
      (semaphore value),
)

unfoldable pub p_at : Store → ℕ → ℕ → Bool × Store
p_at st a t = let (passed, s) = p_round (st.semaphores a) t in (passed, put_semaphore st a s)

unfoldable pub v_at : Store → ℕ → Option Store
v_at st a = do
  (s, sched') ← v (st.semaphores a) st.sched
  some (record (put_semaphore st a s) { sched = sched' })

-- `holder` is `thname`, `sem` and `sem_inv_p` are addresses.
pub record Lock : Type 0 where
  pub holder : Option ℕ
  pub sem : ℕ
  pub sem_inv_p : ℕ

unfoldable pub lock : Store → Lock × Store
lock st =
    let (sem, st) = new_semaphore st 1 in
    let (inv, st) = new_semaphore st 1 in (record { holder = none; sem = sem; sem_inv_p = inv }, st)

unfoldable pub is_held_by : Lock → ℕ → Bool
is_held_by l t = elim l.holder [ none ↦ false | some u ↦ u == t ]

-- What `Acquire` does between the `P` and the `V` of `semInvP`: a holder of lower priority is moved to
-- the list of the current thread's priority and gets that priority.
unfoldable pub donate : ℕ → Scheduler → Option ℕ → ℕ → Option Scheduler
donate fuel sched none current = some sched
donate fuel sched (some holder) current =
    let pcurrent = (sched.thread current).priority in
    if ltb (sched.thread holder).priority pcurrent
    then (do
      sched' ← change_queue_priority fuel sched holder pcurrent
      some (set_priority sched' holder pcurrent))
    else some sched

-- `Acquire` up to its first round on `sem`; the flag says whether the thread has the lock. Where it has
-- not, it sleeps on `semInvP` or on `sem`, and goes on with its next round there.
unfoldable pub acquire : ℕ → Store → Lock → ℕ → Option (Bool × Lock × Store)
acquire fuel st l t =
    let (entered, st₁) = p_at st l.sem_inv_p t in
    if is_held_by l t
    then some (true, l, st)
    else (if not entered then some (false, l, st₁) else (do
      sched' ← donate fuel st₁.sched l.holder t
      st₂ ← v_at (record st₁ { sched = sched' }) l.sem_inv_p
      let (passed, st₃) = p_at st₂ l.sem t
      some (passed, (if passed then record l { holder = some t } else l), st₃)))

unfoldable pub release : Store → Lock → ℕ → Option (Lock × Store)
release st l t = do
  assert (is_held_by l t)
  st' ← v_at st l.sem
  some (record l { holder = none }, st')

-- `sem_list` holds the addresses of the semaphores of the threads that wait.
pub record Condition : Type 0 where
  pub sem_list : ReadyList

-- `Wait` up to its `P`: the thread makes a semaphore, puts it on the list and lets the lock go. The
-- result holds the semaphore that it then waits on.
unfoldable pub wait_begin : Store → Lock → Condition → ℕ → Option (ℕ × Lock × Condition × Store)
wait_begin st l c t = do
  assert (is_held_by l t)
  let (sem, st') = new_semaphore st 1
  (l', st'') ← release st' l t
  some (sem, l', record c { sem_list = KeyedList.append c.sem_list sem }, st'')

unfoldable pub signal : Store → Lock → Condition → ℕ → Option (Condition × Store)
signal st l c t = do
  assert (is_held_by l t)
  let (first, rest) = KeyedList.remove c.sem_list
  elim first [
    | none ↦ some (c, st)
    | some sem ↦ (do st' ← v_at st sem; some (record c { sem_list = rest }, st'))
  ]

-- The loop of `Broadcast`: a `Signal` for each semaphore on the list.
unfoldable pub broadcast_from :
    ReadyList → Store → Lock → Condition → ℕ → Option (Condition × Store)
broadcast_from [] st l c t = some (c, st)
broadcast_from (e ∷ es) st l c t = do (c', st') ← signal st l c t; broadcast_from es st' l c' t

unfoldable pub broadcast : Store → Lock → Condition → ℕ → Option (Condition × Store)
broadcast st l c t = do assert (is_held_by l t); broadcast_from c.sem_list st l c t
