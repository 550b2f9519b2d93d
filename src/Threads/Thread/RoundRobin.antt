-- ===== src/Threads/Thread/RoundRobin.antt =====
-- Which threads run one after the other when each of them calls `Thread::Yield`.
use so.Prelude.{
  ℕ, zero, suc, ◌<◌, ◌==◌, if◌then◌else◌, ◌||◌, not, true, false, Bool-cases, List, [], ◌∷◌, ◌++◌,
  map, Option, some, ◌>>=◌, ◌≡◌, refl, arith, ◌∙◌, sym, ap, inl, inr, ℕ_discrete, dec_lt, length,
  length-set, get_or, append_assoc, subst,
}
use so.Machine.Interrupt.{IntStatus, int_off, int_on, is_off}
use so.Threads.KeyedList
use so.Threads.KeyedList.{element, ListElement}
use so.Threads.Scheduler.{
  Scheduler, ReadyList, queue, set_queue, set_status, running, ready_to_run, find_next_to_run,
}
use so.Threads.Scheduler.Order.{HasQueues, find_next_to_run_lem, ready_to_run_lem, queue-set_queue}
use so.Threads.Thread.Switch.{IsQuiet, HasSwitched, run_lem}
use so.Threads.Thread.{
  Cpu, ResumePoint, at_root, in_yield, in_sleep, run, set_level, go_on, yield, yield_next,
}

unfoldable pub HavePriority : Scheduler → ℕ → List ℕ → Type 0
HavePriority s p [] = Unit
HavePriority s p (x ∷ xs) = ((s.thread x).priority ≡ p) × HavePriority s p xs

-- The current thread and the ready threads `xs`, in this order, share the highest priority that is in use.
pub record IsRing (c : Cpu) (p : ℕ) (xs : List ℕ) : Type 0 where
  pub quiet : IsQuiet c
  pub queues : HasQueues c.sched
  pub in_range : p < 3
  pub own : (c.sched.thread c.current).priority ≡ p
  pub ready : queue c.sched p ≡ map (λ x. element x 0) xs
  pub alike : HavePriority c.sched p xs
  pub highest : (r : ℕ) → p < r → r < 3 → queue c.sched r ≡ []

abbrev items : List ℕ → ReadyList
items xs = map (λ x. element x 0) xs

next_of_ring :
    (c : Cpu) (p x : ℕ) (xs : List ℕ)
    → IsRing c p (x ∷ xs)
    → find_next_to_run c.sched ≡ (some x, set_queue c.sched p (items xs))
unfolding KeyedList.remove
next_of_ring c p x xs r = elim (find_next_to_run_lem c.sched r.queues) [
  | inl (e, empty) ↦ absurd (let z = sym (empty p r.in_range) ∙ r.ready in cc)
  | inr (p', e, l, lt, at, found, above) ↦ elim (ℕ_discrete p p') [
    | yes y ↦
        let same : e ∷ l ≡ items (x ∷ xs) = sym at ∙ rw (sym y) r.ready in
        found
        ∙ ap (λ q. ((KeyedList.remove q).0, set_queue c.sched p' ((KeyedList.remove q).1))) same
        ∙ rw (sym y) refl
    | no n ↦ elim (dec_lt p p') [
      | yes lo ↦ absurd (let z = sym at ∙ r.highest p' lo lt in cc)
      | no hi ↦ absurd (let z = sym r.ready ∙ above p (omega arith) r.in_range in cc)
    ]
  ]
]

priorities :
    (c : Cpu) (s : Scheduler) (p : ℕ) (xs : List ℕ)
    → ((u : ℕ) → (s.thread u).priority ≡ (c.sched.thread u).priority)
    → HavePriority c.sched p xs
    → HavePriority s p xs
unfolding HavePriority
priorities c s p [] same h = tt
priorities c s p (x ∷ xs) same h = (same x ∙ h.0, priorities c s p xs same h.1)

priorities-append :
    (s : Scheduler) (p x : ℕ) (xs : List ℕ)
    → HavePriority s p xs
    → (s.thread x).priority ≡ p
    → HavePriority s p (xs ++ (x ∷ []))
unfolding HavePriority
priorities-append s p x [] h e = (e, tt)
priorities-append s p x (y ∷ xs) h e = (h.0, priorities-append s p x xs h.1 e)

items-append : (x : ℕ) (xs : List ℕ) → items xs ++ (element x 0 ∷ []) ≡ items (xs ++ (x ∷ []))
items-append x [] = refl
items-append x (y ∷ xs) = ap (λ l. element y 0 ∷ l) (items-append x xs)

yield_to :
    (one_tick : Cpu → Option Cpu) (c c₁ c' : Cpu) (x : ℕ) (taken s : Scheduler)
    → find_next_to_run c.sched ≡ (some x, taken)
    → ready_to_run taken c.current ≡ some s
    → run (record c { level = int_off; sched = s }) (in_yield c.level) x ≡ some c₁
    → go_on one_tick c₁ ≡ some c'
    → yield one_tick c ≡ some c'
unfolding yield yield_next
yield_to one_tick c c₁ c' x taken s found e e₂ e₃ =
    ap (λ f. yield_next one_tick c (f.0) (f.1)) found ∙ rw (e, e₂) e₃

priority-set_status :
    (s : Scheduler) (x u : ℕ) → ((set_status s x running).thread u).priority ≡ (s.thread u).priority
unfolding set_status
priority-set_status s x u = ground arith

lists-set_status : (s : Scheduler) (x : ℕ) → (set_status s x running).ready_list_p ≡ s.ready_list_p
unfolding set_status
lists-set_status s x = refl

next-IsRing :
    (c c' : Cpu) (p x : ℕ) (xs : List ℕ) (s : Scheduler)
    → IsRing c p (x ∷ xs)
    → HasQueues s
    → ((u : ℕ) → (s.thread u).priority ≡ (c.sched.thread u).priority)
    → ((q : ℕ)
        → queue s q ≡ (
            if (c.sched.thread c.current).priority == q
            then queue (set_queue c.sched p (items xs)) q ++ (element c.current 0 ∷ [])
            else queue (set_queue c.sched p (items xs)) q))
    → HasSwitched (record c { level = int_off; sched = s }) c' (in_yield c.level) x
    → IsRing c' p (xs ++ (c.current ∷ []))
unfolding HavePriority
next-IsRing c c' p x xs s r queues same at sw = record {
  quiet = sw.quiet;
  queues = rw sw.same_sched kept;
  in_range = r.in_range;
  own = rw (sw.same_sched, sw.now) (priority-set_status s x x ∙ same x ∙ r.alike.0);
  ready = rw sw.same_sched (unmoved p ∙ at p ∙ joined);
  alike = rw sw.same_sched (
      priorities c (set_status s x running) p (xs ++ (c.current ∷ []))
        (λ u. priority-set_status s x u ∙ same u)
        (priorities-append c.sched p c.current xs r.alike.1 r.own));
  highest = λ h lo hi. rw sw.same_sched (unmoved h ∙ at h ∙ empty h lo hi);
}
  where
    kept : HasQueues (set_status s x running)
    kept = ap length (lists-set_status s x) ∙ queues

    unmoved : (q : ℕ) → queue (set_status s x running) q ≡ queue s q
    unmoved q = ap (λ l. get_or l q []) (lists-set_status s x)

    joined :
        (if (c.sched.thread c.current).priority == p
          then queue (set_queue c.sched p (items xs)) p ++ (element c.current 0 ∷ [])
          else queue (set_queue c.sched p (items xs)) p)
        ≡ items (xs ++ (c.current ∷ []))
    joined =
        let test : ((c.sched.thread c.current).priority == p) ≡ true = rw r.own ground arith in
        let here : (p == p) ≡ true = ground arith in
        let first = queue-set_queue c.sched p p (items xs) r.queues r.in_range in
        rw (test, first, here) (items-append c.current xs)

    empty :
        (h : ℕ)
        → p < h
        → h < 3
        → (if (c.sched.thread c.current).priority == h
            then queue (set_queue c.sched p (items xs)) h ++ (element c.current 0 ∷ [])
            else queue (set_queue c.sched p (items xs)) h)
          ≡ []
    empty h lo hi =
        let test : ((c.sched.thread c.current).priority == h) ≡ false = rw r.own ground arith in
        let there : (p == h) ≡ false = ground arith in
        let other = queue-set_queue c.sched p h (items xs) r.queues r.in_range in
        rw (test, other, there) (r.highest h lo hi)

-- The interrupts that are due where a thread turns them on leave the ring: they fail in no ASSERT, do not end the
-- thread's turn, and wake no thread of the ring's priority or a higher one.
unfoldable pub KeepsRing : (Cpu → Option Cpu) → Type 0
KeepsRing one_tick =
    (c : Cpu) (p : ℕ) (xs : List ℕ)
    → IsRing c p xs
    → (c' : Cpu) × (one_tick c ≡ some c') × (c'.current ≡ c.current) × IsRing c' p xs

level-IsRing :
    (c : Cpu) (p : ℕ) (xs : List ℕ) (now : IntStatus)
    → IsRing c p xs
    → IsRing (record c { level = now }) p xs
level-IsRing c p xs now r = record {
  quiet = record { stacks = r.quiet.stacks; no_carcass = r.quiet.no_carcass };
  queues = r.queues;
  in_range = r.in_range;
  own = r.own;
  ready = r.ready;
  alike = r.alike;
  highest = r.highest;
}

set_level-IsRing :
    (one_tick : Cpu → Option Cpu) (c : Cpu) (p : ℕ) (xs : List ℕ) (now : IntStatus)
    → KeepsRing one_tick
    → IsRing c p xs
    → (c' : Cpu) × (set_level one_tick c now ≡ some c') × (c'.current ≡ c.current) × IsRing c' p xs
unfolding set_level KeepsRing
set_level-IsRing one_tick c p xs now keeps r =
    let r' = level-IsRing c p xs now r in
    elim (Bool-cases (is_off now || not (is_off c.level))) [
      | inl e ↦ (record c { level = now }, rw e refl, refl, r')
      | inr e ↦
          let (c', e', same, r'') = keeps (record c { level = now }) p xs r' in
          (c', rw e e', same, r'')
    ]

go_on-IsRing :
    (one_tick : Cpu → Option Cpu) (c : Cpu) (p : ℕ) (xs : List ℕ)
    → KeepsRing one_tick
    → IsRing c p xs
    → (c' : Cpu) × (go_on one_tick c ≡ some c') × (c'.current ≡ c.current) × IsRing c' p xs
unfolding go_on
go_on-IsRing one_tick c p xs keeps r = at_point (c.block c.current).resume_point
  where
    at_point :
        (point : ResumePoint)
        → (c' : Cpu) × (elim point [
          | at_root ↦ set_level one_tick c int_on
          | in_yield old ↦ set_level one_tick c old
          | in_sleep ↦ some c
        ]
            ≡ some c')
          × (c'.current ≡ c.current)
          × IsRing c' p xs
    at_point at_root = set_level-IsRing one_tick c p xs int_on keeps r
    at_point (in_yield old) = set_level-IsRing one_tick c p xs old keeps r
    at_point in_sleep = (c, refl, refl, r)

-- `Yield` gives the CPU to the first of the ring, and puts the thread that had it at the end.
pub yield_lem :
    (one_tick : Cpu → Option Cpu) (c : Cpu) (p x : ℕ) (xs : List ℕ)
    → KeepsRing one_tick
    → IsRing c p (x ∷ xs)
    → (c' : Cpu) × (yield one_tick c ≡ some c')
      × (c'.current ≡ x)
      × IsRing c' p (xs ++ (c.current ∷ []))
yield_lem one_tick c p x xs keeps r =
    let taken = set_queue c.sched p (items xs) in
    let queues : HasQueues taken = length-set c.sched.ready_list_p p (items xs) ∙ r.queues in
    let (s, e, queues', _, same, at) =
      ready_to_run_lem taken c.current queues (rw r.own r.in_range) in
    let (c₁, e₂, sw) =
      run_lem (record c { level = int_off; sched = s }) (in_yield c.level) x
        (record { stacks = r.quiet.stacks; no_carcass = r.quiet.no_carcass }) in
    let (c', e₃, now, r') =
      go_on-IsRing one_tick c₁ p (xs ++ (c.current ∷ [])) keeps
        (next-IsRing c c₁ p x xs s r queues' same at sw) in
    (c', yield_to one_tick c c₁ c' x taken s (next_of_ring c p x xs r) e e₂ e₃, now ∙ sw.now, r')

-- `n` calls of `Yield`, each by the thread that has the CPU then.
unfoldable pub yields : (Cpu → Option Cpu) → ℕ → Cpu → Option Cpu
yields one_tick zero c = some c
yields one_tick (suc n) c = do c' ← yield one_tick c; yields one_tick n c'

-- Threads of one priority take turns: where the thread that has the CPU and the ready threads of the highest
-- priority in use have the same priority, no stack has overflowed, no thread waits to be destroyed, and the
-- interrupts that are due where `Yield` turns them on again leave this so and do not end a turn, the ready thread with `n` others before it has the CPU after `n + 1` calls of `Yield`, none of which fails.
pub yields-round_robin :
    (one_tick : Cpu → Option Cpu) (c : Cpu) (p x : ℕ) (before after : List ℕ)
    → KeepsRing one_tick
    → IsRing c p (before ++ (x ∷ after))
    → (c' : Cpu) × (yields one_tick (suc (length before)) c ≡ some c') × (c'.current ≡ x)
unfolding yields
yields-round_robin one_tick c p x [] after keeps r =
    let (c', e, now, _) = yield_lem one_tick c p x after keeps r in (c', rw e refl, now)
yields-round_robin one_tick c p x (y ∷ before) after keeps r =
    let (c', e, now, r') = yield_lem one_tick c p y (before ++ (x ∷ after)) keeps r in
    let r'' = subst (IsRing c' p) (append_assoc before (x ∷ after) (c.current ∷ [])) r' in
    let (c'', e₂, now₂) =
      yields-round_robin one_tick c' p x before (after ++ (c.current ∷ [])) keeps r'' in
    (c'', rw e e₂, now₂)
