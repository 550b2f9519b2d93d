-- ===== src/Threads/Synch/Exclusion.antt =====
-- A `Lock` of threads/synch.cc among any number of threads, of which any may run after each of its operations. A
-- thread that sleeps in `P` may try again at any time, which allows more orders than the kernel has.
pub mod Guard
pub mod Moves
pub mod Safety
use so.Prelude.{
  ℕ, zero, suc, ◌+◌, ◌-◌, ◌==◌, if◌then◌else◌, Bool, true, false, Option, none, some, ◌>>=◌, ◌≡◌,
  ◌≢◌, ◌⊎◌, refl, arith, ◌∙◌, sym, ap, inl, inr, Bool-cases, ℕ_discrete,
}
use so.Threads.KeyedList
use so.Threads.Scheduler.{Scheduler, ready_to_run}
use so.Threads.Synch.{
  Semaphore, Store, Lock, semaphore, p_round, v_take, v, p_at, v_at, lock, new_semaphore,
  put_semaphore, is_held_by, donate,
}

-- Where a thread stands in `Acquire` and `Release`: before the `P` of `semInvP`, between its `P` and `V`, before the
-- `P` of `sem`, past it, with the lock, and before the `V` of `sem`.
pub data Phase : Type 0 where
  outside before_inv donating before_sem past_sem inside leaving : Phase

pub record System : Type 0 where
  pub store : Store
  pub lock : Lock
  pub phase : ℕ → Phase

abbrev pub put_phase : System → ℕ → Phase → System
put_phase s t p = record s { phase = λ u. if t == u then p else s.phase u }

-- The system after `P` at a semaphore, which leads on to `p` or leaves the thread where it is.
unfoldable pub after_p : System → ℕ → ℕ → Phase → System
unfolding p_at
after_p s a t p =
    let (passed, st) = p_at s.store a t in
    let s' = record s { store = st } in if passed then put_phase s' t p else s'

-- One operation of one thread, or anything that leaves the two semaphores of the lock as they are.
pub data Step (fuel : ℕ) : System → System → Type 0 where
  enter :
      (s : System) (t : ℕ)
      → s.phase t ≡ outside
      → is_held_by s.lock t ≡ false
      → Step fuel s (put_phase s t before_inv)
  p_inv :
      (s : System) (t : ℕ)
      → s.phase t ≡ before_inv
      → Step fuel s (after_p s s.lock.sem_inv_p t donating)
  v_inv :
      (s : System) (t : ℕ) (sched : Scheduler) (st : Store)
      → s.phase t ≡ donating
      → donate fuel s.store.sched s.lock.holder t ≡ some sched
      → v_at (record s.store { sched = sched }) s.lock.sem_inv_p ≡ some st
      → Step fuel s (put_phase (record s { store = st }) t before_sem)
  p_sem :
      (s : System) (t : ℕ) → s.phase t ≡ before_sem → Step fuel s (after_p s s.lock.sem t past_sem)
  own :
      (s : System) (t : ℕ)
      → s.phase t ≡ past_sem
      → Step fuel s (put_phase (record s { lock = record s.lock { holder = some t } }) t inside)
  let_go :
      (s : System) (t : ℕ)
      → s.phase t ≡ inside
      → is_held_by s.lock t ≡ true
      → Step fuel s (put_phase (record s { lock = record s.lock { holder = none } }) t leaving)
  v_sem :
      (s : System) (t : ℕ) (st : Store)
      → s.phase t ≡ leaving
      → v_at s.store s.lock.sem ≡ some st
      → Step fuel s (put_phase (record s { store = st }) t outside)
  elsewhere :
      (s : System) (st : Store)
      → st.semaphores s.lock.sem ≡ s.store.semaphores s.lock.sem
      → st.semaphores s.lock.sem_inv_p ≡ s.store.semaphores s.lock.sem_inv_p
      → Step fuel s (record s { store = st })

-- A new lock, and no thread at it.
unfoldable pub start : Store → System
start st = let (l, st') = lock st in record { store = st'; lock = l; phase = λ t. outside }

pub data Reach (fuel : ℕ) (s : System) : System → Type 0 where
  here : Reach fuel s s
  next : {t u : System} → Reach fuel s t → Step fuel t u → Reach fuel s u

-- Past the `P` of `sem` and not yet past its `V`.
abbrev pub in_sem : Phase → Bool
in_sem past_sem = true
in_sem inside = true
in_sem leaving = true
in_sem p = false

abbrev pub in_inv : Phase → Bool
in_inv donating = true
in_inv p = false

abbrev pub is_inside : Phase → Bool
is_inside inside = true
is_inside p = false
