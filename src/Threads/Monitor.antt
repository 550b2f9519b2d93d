-- ===== src/Threads/Monitor.antt =====
-- Code of threads/ and filesys/ that runs while its thread holds a `Lock` of threads/synch.cc: the data that the
-- lock guards, and the places in the code where a thread may stand while it holds the lock.
pub mod Guarded
pub mod Port
pub mod SynchList
use so.Prelude.{ℕ, ◌==◌, if◌then◌else◌, Option, none, some, ◌≡◌}
use so.Threads.Synch.{Store}
use so.Threads.Synch.Exclusion
use so.Threads.Synch.Exclusion.{System, Phase, inside, start}

-- The lock with its threads, the place of each thread that is in the middle of the guarded code, and the data.
pub record Monitor (D L : Type 0) : Type 0 where
  pub system : System
  pub place : ℕ → Option L
  pub guarded : D

abbrev pub put_place : {D L : Type 0} → Monitor D L → ℕ → Option L → D → Monitor D L
put_place m t o d = record m { place = λ u. if t == u then o else m.place u; guarded = d }

-- `Body t o d o' d'`: thread `t` goes on from the place `o` to `o'` and changes the data from `d` to `d'`; `none` is
-- the place of a thread that has just got the lock, or that lets it go next. `Env d d'`: an interrupt does so.
module _ {D L : Type 0} (Body : ℕ → Option L → D → Option L → D → Type 0)
    (Env : D → D → Type 0) where
  -- One step of a thread at the lock, of the thread that holds it, or of an interrupt. A thread in the middle of the
  -- guarded code makes no operation of the lock.
  pub data Step (fuel : ℕ) : Monitor D L → Monitor D L → Type 0 where
    at_lock :
        (m : Monitor D L) (s : System)
        → Exclusion.Step fuel m.system s
        → ((t : ℕ) (l : L) → m.place t ≡ some l → s.phase t ≡ m.system.phase t)
        → Step fuel m (record m { system = s })
    body :
        (m : Monitor D L) (t : ℕ) (o : Option L) (d : D)
        → m.system.phase t ≡ inside
        → Body t (m.place t) m.guarded o d
        → Step fuel m (put_place m t o d)
    interrupt : (m : Monitor D L) (d : D) → Env m.guarded d → Step fuel m (record m { guarded = d })

  pub data Reach (fuel : ℕ) (m : Monitor D L) : Monitor D L → Type 0 where
    here : Reach fuel m m
    next : {n k : Monitor D L} → Reach fuel m n → Step fuel n k → Reach fuel m k

-- A new lock, with no thread at it, and data.
unfoldable pub open_with : {D L : Type 0} → Store → D → Monitor D L
open_with st d = record { system = start st; place = λ t. none; guarded = d }
