-- ===== src/Threads/Scheduler/Dropped.antt =====
-- `ChangeQueuePriority` of a thread that is not at the head of its list.
use so.Prelude.{
  ℕ, ◌<◌, [], ◌∷◌, some, ◌≡◌, ◌≢◌, arith, ◌∙◌, sym, ap, length, length-set, set, subst, ℕ_discrete,
}
use so.Threads.KeyedList.{ListElement}
use so.Threads.Scheduler.{Scheduler, ReadyList, ready, queue, rotate, change_queue_priority}
use so.Threads.Scheduler.Order.{HasQueues}
use so.Threads.Scheduler.Change.{
  Without, kept, moved, Without-kept, Without-moved, Rotated, after_keep, queue-after_keep,
  rotate-Rotated,
}

change_rotates :
    (fuel : ℕ) (s : Scheduler) (th pr : ℕ) (e : ListElement ℕ) (l : ReadyList)
    → HasQueues s
    → (s.thread th).priority < 3
    → pr < 3
    → queue s (s.thread th).priority ≡ e ∷ l
    → e.item ≢ th
    → change_queue_priority fuel s th pr
      ≡ rotate fuel
          (after_keep s (s.thread th).priority l e.item)
          (s.thread th).priority
          pr
          th
          e.item
unfolding change_queue_priority
change_rotates fuel s th pr e l h hi hp at miss = rw (at, change_queue_priority) (ground arith)

-- A thread further down is moved, but the thread at the head of its list, which is ready and on no other list,
-- falls out of the lists: it is still ready afterwards, and on no list.
pub change_drops_head :
    (fuel : ℕ) (s : Scheduler) (th pr : ℕ) (e : ListElement ℕ) (l : ReadyList)
    → HasQueues s
    → (s.thread th).priority < 3
    → pr < 3
    → (s.thread th).priority ≢ pr
    → queue s (s.thread th).priority ≡ e ∷ l
    → e.item ≢ th
    → Without e.item l
    → ((q : ℕ) → (s.thread th).priority ≢ q → Without e.item (queue s q))
    → (s.thread e.item).status ≡ ready
    → length l < fuel
    → (s' : Scheduler) × (change_queue_priority fuel s th pr ≡ some s')
      × (queue s' (s.thread th).priority ≡ kept th l)
      × (queue s' pr ≡ moved th l (queue s pr))
      × ((s'.thread e.item).status ≡ ready)
      × ((q : ℕ) → Without e.item (queue s' q))
unfolding Rotated
change_drops_head fuel s th pr e l h hi hp ne at miss w elsewhere is_ready lt =
    let (s', r, h', same, ai, at_pr, aq) =
      rotate-Rotated fuel (after_keep s i l e.item) i pr th e.item l []
        (length-set (set s.ready_list_p i l) i _ ∙ length-set s.ready_list_p i l ∙ h) hi hp ne w
        (queue-after_keep s i l h hi e.item i ∙ ground arith) lt in
    let ap' : queue s' pr ≡ moved th l (queue s pr) =
      at_pr ∙ ap (moved th l) (queue-after_keep s i l h hi e.item pr ∙ ground arith) in
    (
      s',
      change_rotates fuel s th pr e l h hi hp at miss ∙ r,
      ai,
      ap',
      ap (λ f. (f e.item).status) same ∙ is_ready,
      λ q. elim (ℕ_discrete i q) [
        | yes same ↦
            subst (λ q. Without e.item (queue s' q)) same (rw ai (Without-kept e.item th l w))
        | no other ↦ elim (ℕ_discrete pr q) [
          | yes same ↦
              subst (λ q. Without e.item (queue s' q)) same
                (rw ap'
                  (Without-moved e.item th l (queue s pr) (λ z. miss (sym z)) (elsewhere pr ne)))
          | no third ↦
              let same : queue s' q ≡ queue s q =
                aq q other third ∙ queue-after_keep s i l h hi e.item q ∙ ground arith in
              rw same (elsewhere q other)
        ]
      ],
    )
  where
    i : ℕ
    i = (s.thread th).priority
