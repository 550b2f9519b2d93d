-- ===== src/Threads/Scheduler/Order.antt =====
-- Which thread runs next.
use so.Prelude.{
  ℕ, ◌<◌, ◌==◌, if◌then◌else◌, [], ◌∷◌, ◌++◌, none, some, ◌≡◌, ◌≢◌, refl, arith, ◌∙◌, ap, ◌⊎◌, inl,
  inr, length, length-set, get_or-set, set-get_or, List-cases, ℕ_discrete,
}
use so.Threads.KeyedList
use so.Threads.KeyedList.{ListElement, element}
use so.Threads.Scheduler.{
  Scheduler, ready, ReadyList, queue, set_queue, set_status, ready_to_run, highest,
  find_next_to_run,
}

-- There is a list for each priority.
abbrev pub HasQueues : Scheduler → Type 0
HasQueues s = length s.ready_list_p ≡ 3

pub queue-set_queue :
    (s : Scheduler) (p q : ℕ) (l : ReadyList)
    → HasQueues s
    → p < 3
    → queue (set_queue s p l) q ≡ (if p == q then l else queue s q)
queue-set_queue s p q l h lt = get_or-set s.ready_list_p p q l [] (omega (arith, h))

find_next_to_run_at :
    (s : Scheduler) (p : ℕ) (e : ListElement ℕ) (l : ReadyList)
    → highest s 2 ≡ p
    → queue s p ≡ e ∷ l
    → find_next_to_run s ≡ (some e.item, set_queue s p l)
unfolding find_next_to_run KeyedList.remove
find_next_to_run_at s p e l hp hq = rw (hp, hq) refl

find_next_to_run-none :
    (s : Scheduler)
    → HasQueues s
    → highest s 2 ≡ 0
    → queue s 0 ≡ []
    → find_next_to_run s ≡ (none, s)
unfolding find_next_to_run KeyedList.remove
find_next_to_run-none s h hp hq =
    rw (hp, hq)
      (ap (λ qs. (none, record s { ready_list_p = qs }))
        (set-get_or s.ready_list_p 0 [] [] hq (omega (arith, h))))

highest_lem :
    (s : Scheduler)
    → ((highest s 2 ≡ 2) × (queue s 2 ≢ []))
      ⊎ ((highest s 2 ≡ 1) × (queue s 1 ≢ []) × (queue s 2 ≡ []))
      ⊎ ((highest s 2 ≡ 0) × (queue s 1 ≡ []) × (queue s 2 ≡ []))
unfolding highest KeyedList.is_empty
highest_lem s = go (queue s 1) (queue s 2) refl refl
  where
    go :
        (l₁ l₂ : ReadyList)
        → queue s 1 ≡ l₁
        → queue s 2 ≡ l₂
        → ((highest s 2 ≡ 2) × (queue s 2 ≢ []))
          ⊎ ((highest s 2 ≡ 1) × (queue s 1 ≢ []) × (queue s 2 ≡ []))
          ⊎ ((highest s 2 ≡ 0) × (queue s 1 ≡ []) × (queue s 2 ≡ []))
    go l₁ (e ∷ l) h₁ h₂ = inl (rw h₂ refl, λ z. cc)
    go (e ∷ l) [] h₁ h₂ = inr (inl (rw (h₂, h₁) refl, (λ z. cc), h₂))
    go [] [] h₁ h₂ = inr (inr (rw (h₂, h₁) refl, h₁, h₂))

-- `FindNextToRun` hands out the first thread of the highest priority that has a ready thread, and takes
-- it from its list; NULL means that all three lists are empty. No other list changes.
pub find_next_to_run_lem :
    (s : Scheduler)
    → HasQueues s
    → ((find_next_to_run s ≡ (none, s)) × ((p : ℕ) → p < 3 → queue s p ≡ []))
      ⊎ ((p : ℕ) × (e : ListElement ℕ) × (l : ReadyList) × (p < 3)
          × (queue s p ≡ e ∷ l)
          × (find_next_to_run s ≡ (some e.item, set_queue s p l))
          × ((q : ℕ) → p < q → q < 3 → queue s q ≡ []))
find_next_to_run_lem s h = elim (highest_lem s) [
  | inl (hp, ne) ↦ inr (taken 2 (omega arith) hp ne (λ q lo hi. absurd (omega arith)))
  | inr (inl (hp, ne, h₂)) ↦
      inr (taken 1 (omega arith) hp ne (λ q lo hi. only q 2 (omega arith) h₂))
  | inr (inr (hp, h₁, h₂)) ↦ elim (List-cases (queue s 0)) [
    | inl h₀ ↦ inl (find_next_to_run-none s h hp h₀, λ p lt. all h₀ h₁ h₂ p lt)
    | inr (e, l, h₀) ↦ inr (taken 0 (omega arith) hp (λ z. cc) (λ q lo hi. above h₁ h₂ q lo hi))
  ]
]
  where
    only : (q k : ℕ) → q ≡ k → queue s k ≡ [] → queue s q ≡ []
    only q k e z = rw e z

    above : queue s 1 ≡ [] → queue s 2 ≡ [] → (q : ℕ) → 0 < q → q < 3 → queue s q ≡ []
    above h₁ h₂ q lo hi = elim (ℕ_discrete q 1) [
      | yes e ↦ only q 1 e h₁
      | no ne ↦ only q 2 (omega arith) h₂
    ]

    all : queue s 0 ≡ [] → queue s 1 ≡ [] → queue s 2 ≡ [] → (q : ℕ) → q < 3 → queue s q ≡ []
    all h₀ h₁ h₂ q hi = elim (ℕ_discrete q 0) [
      | yes e ↦ only q 0 e h₀
      | no ne ↦ above h₁ h₂ q (omega arith) hi
    ]

    taken :
        (p : ℕ)
        → p < 3
        → highest s 2 ≡ p
        → queue s p ≢ []
        → ((q : ℕ) → p < q → q < 3 → queue s q ≡ [])
        → (p : ℕ) × (e : ListElement ℕ) × (l : ReadyList) × (p < 3)
          × (queue s p ≡ e ∷ l)
          × (find_next_to_run s ≡ (some e.item, set_queue s p l))
          × ((q : ℕ) → p < q → q < 3 → queue s q ≡ [])
    taken p lt hp ne empty = elim (List-cases (queue s p)) [
      | inl z ↦ absurd (ne z)
      | inr (e, l, hq) ↦ (p, e, l, lt, hq, find_next_to_run_at s p e l hp hq, empty)
    ]

-- `ReadyToRun` marks the thread ready and puts it behind the threads of its priority; the other lists
-- stay as they are.
pub ready_to_run_lem :
    (s : Scheduler) (t : ℕ)
    → HasQueues s
    → (s.thread t).priority < 3
    → (s' : Scheduler) × (ready_to_run s t ≡ some s')
      × HasQueues s'
      × ((s'.thread t).status ≡ ready)
      × ((u : ℕ) → (s'.thread u).priority ≡ (s.thread u).priority)
      × ((q : ℕ)
          → queue s' q
            ≡ (if (s.thread t).priority == q then queue s q ++ (element t 0 ∷ []) else queue s q))
unfolding ready_to_run set_status KeyedList.append
ready_to_run_lem s t h lt = (
  set_queue s₁ pi l,
  ground arith,
  length-set s.ready_list_p pi l ∙ h,
  ground arith,
  λ u. ground arith,
  λ q. queue-set_queue s₁ pi q l h lt ∙ ground arith,
)
  where
    pi : ℕ
    pi = (s.thread t).priority

    s₁ : Scheduler
    s₁ = set_status s t ready

    l : ReadyList
    l = queue s pi ++ (element t 0 ∷ [])
