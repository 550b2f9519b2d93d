-- ===== src/Threads/Synch/Semaphores.antt =====
-- One semaphore among threads that enter `P`, wake, and post, in any order.
use so.Prelude.{ℕ, ◌+◌, ◌≤◌, if◌then◌else◌, List, [], ◌∷◌, ◌++◌, none, some, ◌≡◌, ◌⊎◌, length}
use so.Threads.KeyedList
use so.Threads.KeyedList.{ListElement}
use so.Threads.Synch.{Semaphore, semaphore, p_round, v_take}

-- The semaphore, the threads that were made ready and have not made their next round, and how many
-- rounds passed and how many posts there were.
pub record System : Type 0 where
  pub sem : Semaphore
  pub woken : List ℕ
  pub passed : ℕ
  pub posted : ℕ

pub start : ℕ → System
unfolding semaphore
start n = record { sem = semaphore n; woken = []; passed = 0; posted = 0 }

-- A round of `P`.
pub round : System → ℕ → System
unfolding p_round
round s t =
    let (passed, sem) = p_round s.sem t in
    record s { sem = sem; passed = if passed then s.passed + 1 else s.passed }

-- `V`; the thread that it makes ready joins the woken ones.
pub post : System → System
unfolding v_take
post s =
    let (first, sem) = v_take s.sem in
    record s {
      sem = sem;
      woken = elim first [ none ↦ s.woken | some t ↦ t ∷ s.woken ];
      posted = s.posted + 1;
    }

-- Any thread may enter `P` or post, and any woken thread may be the next to run.
pub data Step : System → System → Type 0 where
  enter : (s : System) (t : ℕ) → Step s (round s t)
  again :
      (s : System) (t : ℕ) (before after : List ℕ)
      → s.woken ≡ before ++ (t ∷ after)
      → Step s (round (record s { woken = before ++ after }) t)
  posts : (s : System) → Step s (post s)

pub data Reach (s : System) : System → Type 0 where
  here : Reach s s
  next : {t u : System} → Reach s t → Step t u → Reach s u

-- Every pass is paid for, and where threads sleep, as many as could pass are awake.
pub record IsFair (n : ℕ) (s : System) : Type 0 where
  pub paid : s.sem.value + s.passed ≡ n + s.posted
  pub no_lost_wakeup : (s.sem.queue ≡ []) ⊎ (s.sem.value ≤ length s.woken)
