-- ===== src/Threads/Synch/Findings.antt =====
-- What locks and condition variables do that their callers do not expect.
use so.Prelude.{ℕ, ◌+◌, ◌<◌, true, [], Option, none, some, ◌≡◌, refl, arith}
use so.Threads.KeyedList
use so.Threads.KeyedList.{ListElement}
use so.Threads.Scheduler.{Scheduler, queue, change_queue_priority}
use so.Threads.Scheduler.Order.{HasQueues, ready_to_run_lem}
use so.Threads.Synch.{
  Semaphore, semaphore, p_round, v_take, v, Store, new_semaphore, p_at, v_at, put_semaphore, Lock,
  Condition, is_held_by, release, wait_begin, donate,
}

v_returns :
    (s : Semaphore) (sched : Scheduler)
    → HasQueues sched
    → ((u : ℕ) → (sched.thread u).priority < 3)
    → (s' : Semaphore) × (sched' : Scheduler) × (v s sched ≡ some (s', sched'))
      × (s'.value ≡ s.value + 1)
unfolding v v_take
v_returns s sched h below = go (KeyedList.remove s.queue).0 refl
  where
    go :
        (x : Option ℕ)
        → (KeyedList.remove s.queue).0 ≡ x
        → (s' : Semaphore) × (sched' : Scheduler) × (v s sched ≡ some (s', sched'))
          × (s'.value ≡ s.value + 1)
    go none e = ((v_take s).1, sched, ground (arith, e), refl)
    go (some t) e =
        let (sched', r, _, _, _, _) = ready_to_run_lem sched t h (below t) in
        ((v_take s).1, sched', ground (arith, e, r), refl)

v_at_returns :
    (st : Store) (a b : ℕ)
    → HasQueues st.sched
    → ((u : ℕ) → (st.sched.thread u).priority < 3)
    → 0 < (st.semaphores b).value
    → (st' : Store) × (v_at st a ≡ some st') × (0 < (st'.semaphores b).value)
unfolding v_at
v_at_returns st a b h below pos_b =
    let (s, sched', r, e) = v_returns (st.semaphores a) st.sched h below in
    (record (put_semaphore st a s) { sched = sched' }, rw r refl, ground arith)

-- `Wait` never waits. For a thread that holds the lock, with the three lists there and no thread above
-- priority 2, it lets the lock go, and its `P` passes at once, before any `Signal`: the semaphore that
-- it made holds 1.
pub wait_falls_through :
    (st : Store) (l : Lock) (c : Condition) (t : ℕ)
    → is_held_by l t ≡ true
    → HasQueues st.sched
    → ((u : ℕ) → (st.sched.thread u).priority < 3)
    → (sem : ℕ) × (l' : Lock) × (c' : Condition) × (st' : Store) × (wait_begin st l c t
        ≡ some (sem, l', c', st'))
      × (l'.holder ≡ none)
      × ((p_at st' sem t).0 ≡ true)
unfolding wait_begin new_semaphore semaphore release p_at p_round
wait_falls_through st l c t held h below =
    let (st₂, r, one) = v_at_returns st₁ l.sem st.next_address h below (ground arith) in
    (
      st.next_address,
      record l { holder = none },
      record c { sem_list = KeyedList.append c.sem_list st.next_address },
      st₂,
      rw (held, r) refl,
      refl,
      ground arith,
    )
  where
    st₁ : Store
    st₁ = (new_semaphore st 1).1

-- `Acquire` of a lock whose holder has a lower priority, and no thread of that priority is ready, is a
-- fault: it reads the name of a NULL thread.
pub donate_faults :
    (fuel : ℕ) (s : Scheduler) (holder current : ℕ)
    → (s.thread holder).priority < (s.thread current).priority
    → queue s (s.thread holder).priority ≡ []
    → donate fuel s (some holder) current ≡ none
unfolding donate change_queue_priority
donate_faults fuel s holder current lt empty = ground arith
