-- ===== src/Threads/Scheduler/Change.antt =====
-- `ChangeQueuePriority`: what its loop leaves, and a thread at the head of its list.
use so.Prelude.{
  ℕ, zero, suc, ◌<◌, ◌==◌, if◌then◌else◌, [], ◌∷◌, ◌++◌, Option, some, ◌≡◌, ◌≢◌, refl, arith, ◌∙◌,
  inl, inr, Bool-cases, length, length-set, set, ℕ_discrete, append_assoc, append-nil,
}
use so.Threads.KeyedList
use so.Threads.KeyedList.{ListElement, element}
use so.Threads.Scheduler.{Scheduler, ReadyList, queue, set_queue, rotate, change_queue_priority}
use so.Threads.Scheduler.Order.{HasQueues, queue-set_queue}

-- The thread `t` is not on the list.
abbrev pub Without : ℕ → ReadyList → Type 0
Without t [] = Unit
Without t (e ∷ l) = (e.item ≢ t) × Without t l

-- What the rotation keeps of a list, and what it makes of the list of the new priority.
unfoldable pub kept : ℕ → ReadyList → ReadyList
kept th [] = []
kept th (e ∷ l) = if e.item == th then kept th l else element e.item 0 ∷ kept th l

unfoldable pub moved : ℕ → ReadyList → ReadyList → ReadyList
moved th [] q = q
moved th (e ∷ l) q = moved th l (if e.item == th then element th 0 ∷ q else q)

pub Without-kept : (t th : ℕ) (l : ReadyList) → Without t l → Without t (kept th l)
unfolding kept
Without-kept t th [] w = tt
Without-kept t th (e ∷ l) w = elim (Bool-cases (e.item == th)) [
  | inl hit ↦ rw hit (Without-kept t th l w.1)
  | inr miss ↦ rw miss (w.0, Without-kept t th l w.1)
]

pub Without-moved : (t th : ℕ) (l q : ReadyList) → th ≢ t → Without t q → Without t (moved th l q)
unfolding moved
Without-moved t th [] q ne w = w
Without-moved t th (e ∷ l) q ne w =
    Without-moved t th l _ ne
      (elim (Bool-cases (e.item == th)) [ inl hit ↦ rw hit (ne, w) | inr miss ↦ rw miss w ])

-- A rotation from priority `i` to `pr` that ends: where the lists are then.
unfoldable pub Rotated : Scheduler → ℕ → ℕ → ReadyList → ReadyList → Option Scheduler → Type 0
Rotated s i pr at_i at_pr r =
    (s' : Scheduler) × (r ≡ some s')
    × HasQueues s'
    × (s'.thread ≡ s.thread)
    × (queue s' i ≡ at_i)
    × (queue s' pr ≡ at_pr)
    × ((q : ℕ) → i ≢ q → pr ≢ q → queue s' q ≡ queue s q)

-- The state after one round, which took `l`'s predecessor off list `i` and moved or kept it.
abbrev after_move : Scheduler → ℕ → ReadyList → ℕ → ℕ → Scheduler
after_move s i l pr th =
    let s' = set_queue s i l in set_queue s' pr (KeyedList.prepend (queue s' pr) th)

abbrev pub after_keep : Scheduler → ℕ → ReadyList → ℕ → Scheduler
after_keep s i l x = let s' = set_queue s i l in set_queue s' i (KeyedList.append (queue s' i) x)

module _ (fuel : ℕ) (s : Scheduler) (i pr th head : ℕ) (e : ListElement ℕ) (l : ReadyList)
    (at : queue s i ≡ e ∷ l) where
  rotate_stop : e.item ≡ head → rotate (suc fuel) s i pr th head ≡ some (set_queue s i l)
  unfolding rotate
  rotate_stop h = rw (at, rotate) (ground arith)

  rotate_move :
      e.item ≢ head
      → e.item ≡ th
      → rotate (suc fuel) s i pr th head ≡ rotate fuel (after_move s i l pr th) i pr th head
  unfolding rotate
  rotate_move ne h = rw (at, rotate) (ground arith)

  rotate_keep :
      e.item ≢ head
      → e.item ≢ th
      → rotate (suc fuel) s i pr th head ≡ rotate fuel (after_keep s i l e.item) i pr th head
  unfolding rotate
  rotate_keep ne h = rw (at, rotate) (ground arith)

module _ (s : Scheduler) (i : ℕ) (l : ReadyList) (h : HasQueues s) (hi : i < 3) where
  queue-after_move :
      (pr th q : ℕ)
      → pr < 3
      → i ≢ pr
      → queue (after_move s i l pr th) q
        ≡ (if pr == q then element th 0 ∷ queue s pr else (if i == q then l else queue s q))
  unfolding KeyedList.prepend
  queue-after_move pr th q hp ne = ground (
    arith,
    queue-set_queue s i q l h hi,
    queue-set_queue s i pr l h hi,
    queue-set_queue (set_queue s i l) pr q (element th 0 ∷ queue (set_queue s i l) pr)
        (length-set s.ready_list_p i l ∙ h) hp,
  )

  pub queue-after_keep :
      (x q : ℕ)
      → queue (after_keep s i l x) q ≡ (if i == q then l ++ (element x 0 ∷ []) else queue s q)
  unfolding KeyedList.append
  queue-after_keep x q = ground (
    arith,
    queue-set_queue s i q l h hi,
    queue-set_queue s i i l h hi,
    queue-set_queue (set_queue s i l) i q (queue (set_queue s i l) i ++ (element x 0 ∷ []))
        (length-set s.ready_list_p i l ∙ h) hi,
  )

pub rotate-Rotated :
    (fuel : ℕ) (s : Scheduler) (i pr th head : ℕ) (l done : ReadyList)
    → HasQueues s
    → i < 3
    → pr < 3
    → i ≢ pr
    → Without head l
    → queue s i ≡ l ++ (element head 0 ∷ done)
    → length l < fuel
    → Rotated s i pr (done ++ kept th l) (moved th l (queue s pr)) (rotate fuel s i pr th head)
unfolding Rotated kept moved
rotate-Rotated zero s i pr th head l done h hi hp ne w at lt = absurd (omega arith)
rotate-Rotated (suc fuel) s i pr th head [] done h hi hp ne w at lt = (
  set_queue s i done,
  rotate_stop fuel s i pr th head (element head 0) done at refl,
  length-set s.ready_list_p i done ∙ h,
  refl,
  queue-set_queue s i i done h hi ∙ ground (arith, append-nil done),
  queue-set_queue s i pr done h hi ∙ ground arith,
  λ q nq np. queue-set_queue s i q done h hi ∙ ground arith,
)
rotate-Rotated (suc fuel) s i pr th head (e ∷ l) done h hi hp ne w at lt =
    elim (ℕ_discrete e.item th) [
      | yes hit ↦
          let rest : ReadyList = l ++ (element head 0 ∷ done) in
          let s₁ : Scheduler = after_move s i rest pr th in
          let (s', r, h', same, ai, at_pr, aq) =
            rotate-Rotated fuel s₁ i pr th head l done (kept_length rest _) hi hp ne w.1
              (queue-after_move s i rest h hi pr th i hp ne ∙ ground arith) (omega arith) in
          (
            s',
            rotate_move fuel s i pr th head e rest at w.0 hit ∙ r,
            h',
            same,
            ai ∙ ground arith,
            at_pr ∙ ground (arith, queue-after_move s i rest h hi pr th pr hp ne),
            λ q nq np. aq q nq np ∙ queue-after_move s i rest h hi pr th q hp ne ∙ ground arith,
          )
      | no miss ↦
          let rest : ReadyList = l ++ (element head 0 ∷ done) in
          let s₁ : Scheduler = after_keep s i rest e.item in
          let (s', r, h', same, ai, at_pr, aq) =
            rotate-Rotated fuel s₁ i pr th head l (done ++ (element e.item 0 ∷ []))
              (kept_length' rest _) hi hp ne w.1
              (queue-after_keep s i rest h hi e.item i
                ∙ ground (arith, append_assoc l (element head 0 ∷ done) (element e.item 0 ∷ [])))
              (omega arith) in
          (
            s',
            rotate_keep fuel s i pr th head e rest at w.0 miss ∙ r,
            h',
            same,
            ai ∙ ground (arith, append_assoc done (element e.item 0 ∷ []) (kept th l)),
            at_pr ∙ ground (arith, queue-after_keep s i rest h hi e.item pr),
            λ q nq np. aq q nq np ∙ queue-after_keep s i rest h hi e.item q ∙ ground arith,
          )
    ]
  where
    kept_length : (a b : ReadyList) → length (set (set s.ready_list_p i a) pr b) ≡ 3
    kept_length a b = length-set (set s.ready_list_p i a) pr b ∙ length-set s.ready_list_p i a ∙ h

    kept_length' : (a b : ReadyList) → length (set (set s.ready_list_p i a) i b) ≡ 3
    kept_length' a b = length-set (set s.ready_list_p i a) i b ∙ length-set s.ready_list_p i a ∙ h

-- A thread at the head of its list goes to the head of the list of the new priority, and nothing else
-- changes.
pub change_of_head :
    (fuel : ℕ) (s : Scheduler) (th pr : ℕ) (e : ListElement ℕ) (l : ReadyList)
    → HasQueues s
    → (s.thread th).priority < 3
    → pr < 3
    → (s.thread th).priority ≢ pr
    → queue s (s.thread th).priority ≡ e ∷ l
    → e.item ≡ th
    → Rotated s
        (s.thread th).priority
        pr
        l
        (element th 0 ∷ queue s pr)
        (change_queue_priority fuel s th pr)
unfolding change_queue_priority Rotated
change_of_head fuel s th pr e l h hi hp ne at hit = (
  after_move s i l pr th,
  rw (at, change_queue_priority) (ground arith),
  length-set (set s.ready_list_p i l) pr _ ∙ length-set s.ready_list_p i l ∙ h,
  refl,
  queue-after_move s i l h hi pr th i hp ne ∙ ground arith,
  queue-after_move s i l h hi pr th pr hp ne ∙ ground arith,
  λ q nq np. queue-after_move s i l h hi pr th q hp ne ∙ ground arith,
)
  where
    i : ℕ
    i = (s.thread th).priority
