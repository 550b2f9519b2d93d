-- ===== src/Threads/Synch/Exclusion/Safety.antt =====
-- That a `Lock` of threads/synch.cc excludes.
use so.Prelude.{ℕ, true, none, some, ◌≡◌, refl, arith, ap, inl}
use so.Threads.Synch.{Store, semaphore, lock, new_semaphore, is_held_by}
use so.Threads.Synch.Exclusion.{
  before_inv, inside, leaving, enter, p_inv, v_inv, p_sem, own, let_go, v_sem, elsewhere, here,
  next, System, Step, start, Reach, in_sem, is_inside,
}
use so.Threads.Synch.Exclusion.Guard.{IsGuarded, value_at, IsSafe, moved, restored}
use so.Threads.Synch.Exclusion.Moves.{p_sem_lem, p_inv_lem, v_inv_lem, v_sem_lem, alone, reowned}

Step-IsSafe : (fuel : ℕ) (s s' : System) → Step fuel s s' → IsSafe s → IsSafe s'
unfolding is_held_by value_at
Step-IsSafe fuel s _ (enter _ t at free) i =
    moved s t before_inv (rw at refl) (rw at refl) (rw at refl) i
Step-IsSafe fuel s _ (p_inv _ t at) i = p_inv_lem s t at i
Step-IsSafe fuel s _ (v_inv _ t sched st at d e) i = v_inv_lem s t sched st at e i
Step-IsSafe fuel s _ (p_sem _ t at) i = p_sem_lem s t at i
Step-IsSafe fuel s _ (own _ t at) i =
    reowned s t (some t) inside (rw at refl) refl (rw at refl) (λ u. ground arith) i
Step-IsSafe fuel s _ (let_go _ t at held) i =
    reowned s t none leaving (rw at refl) refl (rw at refl) (λ u. ground arith) i
Step-IsSafe fuel s _ (v_sem _ t st at e) i = v_sem_lem s t st at e i
Step-IsSafe fuel s _ (elsewhere _ st a b) i =
    restored s st (ap (λ x. x.value) a) (ap (λ x. x.value) b) i

start-IsSafe : (st : Store) → IsSafe (start st)
unfolding start lock new_semaphore semaphore is_held_by value_at IsGuarded
start-IsSafe st = record {
  apart = omega arith;
  sem_guarded = inl (ground arith, λ t. refl);
  inv_guarded = inl (ground arith, λ t. refl);
  held = λ t. refl;
}

Reach-IsSafe : (fuel : ℕ) (st : Store) (s : System) → Reach fuel (start st) s → IsSafe s
Reach-IsSafe fuel st _ here = start-IsSafe st
Reach-IsSafe fuel st s (next {t = t} r step) = Step-IsSafe fuel t s step (Reach-IsSafe fuel st t r)

-- A new `Lock` excludes: whatever the order in which threads make the operations of `Acquire` and `Release`, and
-- whatever else happens to the other semaphores and to the scheduler meanwhile, at most one thread stands
-- between the `P` and the `V` of `sem`; `isHeldByCurrentThread` is true for the thread that has returned from
-- `Acquire` and has not called `Release`, and for no other.
pub mutual_exclusion :
    (fuel : ℕ) (st : Store) (s : System)
    → Reach fuel (start st) s
    → ((t u : ℕ) → in_sem (s.phase t) ≡ true → in_sem (s.phase u) ≡ true → t ≡ u)
      × ((t : ℕ) → is_held_by s.lock t ≡ is_inside (s.phase t))
mutual_exclusion fuel st s r =
    let i = Reach-IsSafe fuel st s r in
    (
      λ t u x y.
          alone (value_at s.store s.lock.sem) (λ t. in_sem (s.phase t)) t u i.sem_guarded x y,
      i.held,
    )
