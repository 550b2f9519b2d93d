-- ===== src/Machine/Interrupt/Due.antt =====
-- Which interrupts have fired once the loops of `OneTick` and `Idle` are through, and that they end.
use so.Prelude.{
  ℕ, zero, suc, ◌+◌, ◌≤◌, ◌<◌, ltb, if◌then◌else◌, Bool, true, false, List, [], ◌∷◌, Option, none,
  some, ◌≡◌, ◌≢◌, refl, arith, ◌∙◌, sym, subst, Bool-cases, inl, inr,
}
use so.Threads.KeyedList
use so.Threads.KeyedList.{ListElement}
use so.Threads.KeyedList.Sorted.{
  AllFrom, AllFrom-mono, IsSorted, sorted_insert-IsSorted, AllFrom-sorted_insert, count_up_to,
  count_up_to-sorted_insert,
}
use so.Machine.Interrupt.{
  int_off, MachineStatus, idle_mode, system_mode, is_idle, IntType, PendingInterrupt, Kernel,
  schedule, invoke, check_taken, check_if_due, check_all,
}

-- How many pending interrupts are due now.
abbrev pub due {ℓ} : {W : Type ℓ} → Kernel W → ℕ
due k = count_up_to k.stats.total_ticks k.pending

-- Interrupts are off and the pending interrupts are in order.
pub record IsReady {ℓ} {W : Type ℓ} (k : Kernel W) : Type 0 where
  pub off : k.level ≡ int_off
  pub sorted : IsSorted k.pending

-- What handlers must do: return, with interrupts still off, the clock where it was, and no interrupt
-- scheduled that is due at once.
abbrev pub Behaves {ℓ} : {W : Type ℓ} → (ℕ → ℕ → Kernel W → Option (Kernel W)) → Type ℓ
Behaves {W} call =
    (h a : ℕ) (k : Kernel W)
    → IsReady k
    → (k' : Kernel W) × (call h a k ≡ some k')
      × IsReady k'
      × (k'.stats.total_ticks ≡ k.stats.total_ticks)
      × (due k' ≤ due k)

module _ {ℓ} {W : Type ℓ} (call : ℕ → ℕ → Kernel W → Option (Kernel W)) (delayed_load : W → W)
    (behaves : Behaves call) where
  -- What one call of `CheckIfDue(false)` does outside `IdleMode`: all interrupts are still to come, or one
  -- that was due is gone.
  abbrev Checked : Kernel W → Option (Bool × Kernel W) → Type ℓ
  Checked k r =
      (b : Bool) × (k' : Kernel W) × (r ≡ some (b, k'))
      × IsReady k'
      × (k'.status ≡ k.status)
      × (k'.stats.total_ticks ≡ k.stats.total_ticks)
      × (if b then due k' < due k else AllFrom (suc k.stats.total_ticks) k'.pending)

  invoke-Checked :
      (k : Kernel W) (e : ListElement PendingInterrupt) (l : List (ListElement PendingInterrupt))
      → IsReady k
      → k.pending ≡ e ∷ l
      → e.key ≤ k.stats.total_ticks
      → Checked k (invoke call delayed_load (record k { pending = l }) e)
  unfolding invoke count_up_to
  invoke-Checked k e l v at le =
      let start : Kernel W = record k {
        pending = l;
        in_handler = true;
        status = system_mode;
        rest = delayed_load k.rest;
      } in
      let (k', r, v', t, fewer) =
        behaves e.item.handler e.item.arg start
          (record { off = v.off; sorted = sorted_rest v.sorted }) in
      (
        true,
        record k' { status = k.status; in_handler = false },
        rw r refl,
        record { off = v'.off; sorted = v'.sorted },
        refl,
        t,
        ground (arith, fewer, t),
      )
    where
      sorted_rest : IsSorted k.pending → IsSorted l
      sorted_rest s = ground arith

  check_taken-Checked :
      (k : Kernel W) (e : ListElement PendingInterrupt) (l : List (ListElement PendingInterrupt))
      → IsReady k
      → k.status ≢ idle_mode
      → k.pending ≡ e ∷ l
      → Checked k (check_taken call delayed_load (record k { pending = l }) false e)
  unfolding check_taken
  check_taken-Checked k e l v busy at = elim (Bool-cases (ltb k.stats.total_ticks e.key)) [
    | inl later ↦ rw later (
      false,
      record k { pending = KeyedList.sorted_insert l e.item e.key },
      refl,
      record { off = v.off; sorted = sorted_insert-IsSorted l e.item e.key sorted.1 },
      refl,
      refl,
      AllFrom-sorted_insert (suc k.stats.total_ticks) l e.item e.key (ground arith)
          (AllFrom-mono (suc k.stats.total_ticks) e.key l (ground arith) sorted.0),
    )
    | inr now ↦ rw (now, not_idle k.status busy) (invoke-Checked k e l v at (ground arith))
  ]
    where
      sorted : IsSorted (e ∷ l)
      sorted = subst IsSorted at v.sorted

      not_idle : (s : MachineStatus) → s ≢ idle_mode → is_idle s ≡ false
      not_idle s h = ground arith

  check_if_due_taken :
      (k : Kernel W) (e : ListElement PendingInterrupt) (l : List (ListElement PendingInterrupt))
      (b : Bool)
      → k.level ≡ int_off
      → k.pending ≡ e ∷ l
      → check_if_due call delayed_load k b
        ≡ check_taken call delayed_load (record k { pending = l }) b e
  unfolding check_if_due KeyedList.sorted_remove
  check_if_due_taken k e l b off at = ground arith

  check_if_due_nothing :
      (k : Kernel W) (b : Bool)
      → k.level ≡ int_off
      → k.pending ≡ []
      → check_if_due call delayed_load k b ≡ some (false, k)
  unfolding check_if_due KeyedList.sorted_remove
  check_if_due_nothing k b off at = ground arith

  check_if_due-Checked :
      (k : Kernel W)
      → IsReady k
      → k.status ≢ idle_mode
      → Checked k (check_if_due call delayed_load k false)
  check_if_due-Checked k v busy = go k.pending refl
    where
      go :
          (l : List (ListElement PendingInterrupt))
          → k.pending ≡ l
          → Checked k (check_if_due call delayed_load k false)
      go [] at = (
        false,
        k,
        check_if_due_nothing k false v.off at,
        v,
        refl,
        refl,
        subst (AllFrom (suc k.stats.total_ticks)) (sym at) tt,
      )
      go (e ∷ l) at =
          rw (check_if_due_taken k e l false v.off at) (check_taken-Checked k e l v busy at)

  -- What the loop leaves: every pending interrupt lies in the future, the rest is as it was.
  abbrev Settled : Kernel W → Option (Kernel W) → Type ℓ
  Settled k r =
      (k' : Kernel W) × (r ≡ some k')
      × IsReady k'
      × (k'.status ≡ k.status)
      × (k'.stats.total_ticks ≡ k.stats.total_ticks)
      × AllFrom (suc k.stats.total_ticks) k'.pending

  -- Outside `IdleMode` the loop of `OneTick` ends after at most as many rounds as interrupts are due,
  -- with the clock where it was, and all interrupts that are still pending lie in the future.
  pub check_all_lem :
      (fuel : ℕ) (k : Kernel W)
      → IsReady k
      → k.status ≢ idle_mode
      → due k < fuel
      → Settled k (check_all call delayed_load fuel k)
  unfolding check_all
  check_all_lem zero k v busy lt = absurd (omega arith)
  check_all_lem (suc fuel) k v busy lt = go (check_if_due-Checked k v busy) (check_all_lem fuel)
    where
      go :
          Checked k (check_if_due call delayed_load k false)
          → ((k : Kernel W)
              → IsReady k
              → k.status ≢ idle_mode
              → due k < fuel
              → Settled k (check_all call delayed_load fuel k))
          → Settled k (check_all call delayed_load (suc fuel) k)
      go (true, k', r, v', s, t, fewer) loop =
          let (k'', r', v'', s', t', rest) = loop k' v' (λ e. busy (sym s ∙ e)) (omega arith) in
          (k'', rw r r', v'', s' ∙ s, t' ∙ t, subst (λ n. AllFrom (suc n) k''.pending) t rest)
      go (false, k', r, v', s, t, rest) loop = (k', rw r refl, v', s, t, rest)

module _ {ℓ} {W : Type ℓ} where
  -- `Schedule` for a later time keeps the order, and makes nothing due at once; for no time at all it
  -- aborts.
  pub schedule_lem :
      (k : Kernel W) (h a n : ℕ) (kind : IntType)
      → IsReady k
      → (schedule k h a 0 kind ≡ none)
        × (k' : Kernel W) × (schedule k h a (suc n) kind ≡ some k')
        × IsReady k'
        × (k'.stats.total_ticks ≡ k.stats.total_ticks)
        × (due k' ≡ due k)
        × (count_up_to (k.stats.total_ticks + suc n) k'.pending
            ≡ suc (count_up_to (k.stats.total_ticks + suc n) k.pending))
  unfolding schedule
  schedule_lem k h a n kind v = (
    refl,
    record k { pending = KeyedList.sorted_insert k.pending entry (now + suc n) },
    ground arith,
    record { off = v.off; sorted = sorted_insert-IsSorted k.pending entry (now + suc n) v.sorted },
    refl,
    ground (arith, count_up_to-sorted_insert now k.pending entry (now + suc n)),
    ground (arith, count_up_to-sorted_insert (now + suc n) k.pending entry (now + suc n)),
  )
    where
      now : ℕ
      now = k.stats.total_ticks

      entry : PendingInterrupt
      entry = record { handler = h; arg = a; when = now + suc n; kind = kind }
