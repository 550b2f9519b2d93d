-- ===== src/Tests/Turns.antt =====
-- Threads that take turns, and threads at a lock.
use so.Prelude.{ℕ, zero, suc, ◌+◌, ◌<◌, true, false, [], ◌∷◌, Option, none, some, ◌≡◌, refl, arith}
use so.Machine.Interrupt.{int_on}
use so.Threads.KeyedList
use so.Threads.KeyedList.{element}
use so.Threads.Scheduler.{Scheduler, ready}
use so.Threads.Thread.{Cpu, ThreadBlock, at_root, in_sleep, run}
use so.Threads.Thread.Switch.{IsQuiet, stops}
use so.Threads.Thread.RoundRobin.{IsRing, HavePriority, KeepsRing, yields, yields-round_robin}
use so.Threads.Thread.Registers.{Turn, take_turn, take_turns, Without, registers_kept}
use so.Threads.Synch.{
  Store, is_held_by, lock, new_semaphore, semaphore, p_at, p_round, v_at, v, v_take, donate,
}
use so.Threads.Synch.Exclusion.{
  System, Reach, start, here, next, enter, p_inv, in_sem, is_inside, before_inv, donating,
  before_sem, past_sem, inside, v_inv, p_sem, own, put_phase, after_p,
}
use so.Threads.Synch.Exclusion.Safety.{mutual_exclusion}

abbrev pub block : ThreadBlock
block = record {
  stack = some 3735928559;
  join = false;
  user_registers = λ i. i;
  has_space = true;
  resume_point = at_root;
}

-- Thread 4 runs, and 5 and 6 are ready.
abbrev pub three : Cpu
three = record {
  sched = record {
    ready_list_p = [] ∷ (element 5 0 ∷ element 6 0 ∷ []) ∷ [] ∷ [];
    thread = λ u. record { status = ready; priority = 1 };
  };
  block = λ u. block;
  current = 4;
  level = int_on;
  to_destroy = none;
  registers = λ i. i + 100;
  page_table = some 4;
}

three-IsQuiet : IsQuiet three
three-IsQuiet = record { stacks = λ u. refl; no_carcass = refl }

three-IsRing : IsRing three 1 (5 ∷ 6 ∷ [])
unfolding HavePriority
three-IsRing = record {
  quiet = three-IsQuiet;
  queues = refl;
  in_range = omega arith;
  own = refl;
  ready = refl;
  alike = (refl, (refl, tt));
  highest = λ r lo hi. above r lo hi;
}
  where
    above : (r : ℕ) → 1 < r → r < 3 → so.Threads.Scheduler.queue three.sched r ≡ []
    above zero lo hi = absurd (omega arith)
    above (suc zero) lo hi = absurd (omega arith)
    above (suc (suc zero)) lo hi = refl
    above (suc (suc (suc r))) lo hi = absurd (omega arith)

-- No interrupt is due.
nothing_due : KeepsRing (λ c. some c)
unfolding KeepsRing
nothing_due c p xs r = (c, refl, refl, r)

yields-round_robin_example :
    (c' : Cpu) × (yields (λ c. some c) 2 three ≡ some c') × (c'.current ≡ 6)
yields-round_robin_example =
    yields-round_robin (λ c. some c) three 1 6 (5 ∷ []) [] nothing_due three-IsRing

-- What a turn does to the registers.
abbrev turn_to : ℕ → Turn
turn_to t = record { computed = λ r i. r i + 1; point = in_sleep; next = t }

sleeper_stops : stops in_sleep ≡ true
unfolding stops
sleeper_stops = refl

turn_of_another : Without 4 (turn_to 6 ∷ [])
unfolding Without
turn_of_another = (λ e. omega arith, tt)

registers_kept_example :
    (c₁ c₂ c₃ : Cpu) × (run three in_sleep 5 ≡ some c₁)
    × (take_turns c₁ (turn_to 6 ∷ []) ≡ some c₂)
    × (take_turn c₂ (turn_to 4) ≡ some c₃)
    × (c₃.current ≡ 4)
    × (c₃.page_table ≡ some 4)
    × ((i : ℕ) → i < 40 → c₃.registers i ≡ i + 100)
registers_kept_example =
    registers_kept three in_sleep 5 (turn_to 6 ∷ []) (turn_to 4) three-IsQuiet refl sleeper_stops
      (λ e. omega arith) turn_of_another refl

abbrev pub no_semaphores : Store
no_semaphores = record {
  semaphores = λ a. record { value = 0; queue = [] };
  next_address = 10;
  sched = three.sched;
}

-- Thread 9 acquires a new lock.
abbrev pub s₀ : System
s₀ = start no_semaphores

abbrev pub s₁ : System
s₁ = put_phase s₀ 9 before_inv

abbrev pub s₂ : System
s₂ = after_p s₁ s₁.lock.sem_inv_p 9 donating

abbrev pub stored : System → Option Store → Store
stored s none = s.store
stored s (some st) = st

abbrev pub s₃ : System
s₃ = put_phase (record s₂ { store = stored s₂ (v_at s₂.store s₂.lock.sem_inv_p) }) 9 before_sem

abbrev pub s₄ : System
s₄ = after_p s₃ s₃.lock.sem 9 past_sem

abbrev pub s₅ : System
s₅ = put_phase (record s₄ { lock = record s₄.lock { holder = some 9 } }) 9 inside

in_order : Reach 0 s₀ s₅
unfolding is_held_by start lock new_semaphore semaphore after_p p_at p_round v_at v v_take donate
    KeyedList.remove
in_order =
    next {t = s₄}
      (next {t = s₃}
        (next {t = s₂} (next {t = s₁} (next {t = s₀} here (enter s₀ 9 refl refl)) (p_inv s₁ 9 refl))
          (v_inv s₂ 9 s₂.store.sched (stored s₂ (v_at s₂.store s₂.lock.sem_inv_p)) refl refl refl))
        (p_sem s₃ 9 refl))
      (own s₄ 9 refl)

mutual_exclusion_example :
    ((t u : ℕ) → in_sem (s₅.phase t) ≡ true → in_sem (s₅.phase u) ≡ true → t ≡ u)
    × ((t : ℕ) → is_held_by s₅.lock t ≡ is_inside (s₅.phase t))
mutual_exclusion_example = mutual_exclusion 0 no_semaphores s₅ in_order
