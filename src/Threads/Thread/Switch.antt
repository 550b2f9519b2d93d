-- ===== src/Threads/Thread/Switch.antt =====
-- What `Scheduler::Run` of threads/scheduler.cc leaves: who has the CPU, and what is saved and restored.
use so.Prelude.{
  ℕ, ◌<◌, ◌==◌, ◌&&◌, Bool, true, false, none, some, ◌≡◌, ◌≢◌, refl, arith, ◌∙◌, ap, inl, inr,
  Bool-cases,
}
use so.Threads.Scheduler.{set_status, running}
use so.Threads.Thread.{
  Cpu, ResumePoint, at_root, in_yield, in_sleep, intact, check_overflow, save_user_state,
  save_state, restore_state, restore_user_state, save_user_state, run_until_switch, destroy_carcass,
  after_switch, resume, run, put_block,
}

-- No stack has overflowed, and no thread waits to be destroyed.
pub record IsQuiet (c : Cpu) : Type 0 where
  pub stacks : (u : ℕ) → intact (c.block u) ≡ true
  pub no_carcass : c.to_destroy ≡ none

intact-save_state :
    (c : Cpu) (u : ℕ) → intact (c.block u) ≡ true → intact ((save_state c).block u) ≡ true
unfolding save_state save_user_state
intact-save_state c u i = elim (Bool-cases (c.current == u && (c.block c.current).has_space)) [
  | inl e ↦ let same : c.current ≡ u = ground arith in rw (e, same) i
  | inr e ↦ rw e i
]

-- A thread that has given up the CPU goes on in `Run`.
unfoldable pub stops : ResumePoint → Bool
stops at_root = false
stops (in_yield old) = true
stops in_sleep = true

-- What the thread that gets the CPU finds.
record HasResumed (c c' : Cpu) : Type 0 where
  quiet : IsQuiet c'
  same_current : c'.current ≡ c.current
  same_sched : c'.sched ≡ c.sched
  same_block : c'.block ≡ c.block
  restored :
      stops (c.block c.current).resume_point ≡ true
      → (c.block c.current).has_space ≡ true
      → (c'.page_table ≡ some c.current)
        × ((i : ℕ) → i < 40 → c'.registers i ≡ (c.block c.current).user_registers i)

-- A switch succeeds, and gives the CPU to the thread.
pub record HasSwitched (c c' : Cpu) (point : ResumePoint) (next : ℕ) : Type 0 where
  pub quiet : IsQuiet c'
  pub now : c'.current ≡ next
  pub same_sched : c'.sched ≡ set_status c.sched next running
  pub others : (u : ℕ) → u ≢ c.current → c'.block u ≡ c.block u
  pub saved :
      (c.block c.current).has_space ≡ true
      → ((c'.block c.current).has_space ≡ true)
        × ((c'.block c.current).resume_point ≡ point)
        × ((i : ℕ) → i < 40 → (c'.block c.current).user_registers i ≡ c.registers i)
  pub restored :
      next ≢ c.current
      → stops (c.block next).resume_point ≡ true
      → (c.block next).has_space ≡ true
      → (c'.page_table ≡ some next)
        × ((i : ℕ) → i < 40 → c'.registers i ≡ (c.block next).user_registers i)

restored_lem :
    (c : Cpu)
    → (c.block c.current).has_space ≡ true
    → ((restore_state c).page_table ≡ some c.current)
      × ((i : ℕ) → i < 40 → (restore_state c).registers i ≡ (c.block c.current).user_registers i)
unfolding restore_state restore_user_state
restored_lem c e = (rw e refl, λ i lt. rw e ground arith)

after_switch_lem : (c : Cpu) → IsQuiet c → (c' : Cpu) × (resume c ≡ some c') × HasResumed c c'
unfolding resume after_switch destroy_carcass restore_state stops
after_switch_lem c q = go (c.block c.current).resume_point refl
  where
    quiet : IsQuiet (restore_state c)
    quiet = record { stacks = q.stacks; no_carcass = q.no_carcass }

    go :
        (point : ResumePoint)
        → (c.block c.current).resume_point ≡ point
        → (c' : Cpu) × (resume c ≡ some c') × HasResumed c c'
    go at_root e = (
      c,
      rw (resume, e) refl,
      record {
        quiet = record { stacks = q.stacks; no_carcass = q.no_carcass };
        same_current = refl;
        same_sched = refl;
        same_block = refl;
        restored = λ r s. absurd (let z = rw e at r in cc);
      },
    )
    go (in_yield old) e = (
      restore_state c,
      rw (resume, e, q.no_carcass) refl,
      record {
        quiet = record { stacks = q.stacks; no_carcass = q.no_carcass };
        same_current = refl;
        same_sched = refl;
        same_block = refl;
        restored = λ r s. restored_lem c s;
      },
    )
    go in_sleep e = (
      restore_state c,
      rw (resume, e, q.no_carcass) refl,
      record {
        quiet = record { stacks = q.stacks; no_carcass = q.no_carcass };
        same_current = refl;
        same_sched = refl;
        same_block = refl;
        restored = λ r s. restored_lem c s;
      },
    )

pub run_lem :
    (c : Cpu) (point : ResumePoint) (next : ℕ)
    → IsQuiet c
    → (c' : Cpu) × (run c point next ≡ some c') × HasSwitched c c' point next
unfolding run run_until_switch check_overflow save_state save_user_state
run_lem c point next q =
    let (c', e, h) = after_switch_lem switching all_quiet in
    (
      c',
      result c' e,
      record {
        quiet = h.quiet;
        now = h.same_current;
        same_sched = h.same_sched;
        others = λ u ne. rw h.same_block (elsewhere u ne);
        saved = λ s. rw h.same_block (stored s);
        restored = λ ne s sp. back c' h.restored ne s sp;
      },
    )
  where
    pointed : Cpu
    pointed = put_block c c.current (record (c.block c.current) { resume_point = point })

    switching : Cpu
    switching = record (save_state pointed) {
      current = next;
      sched = set_status c.sched next running;
    }

    stacks : (u : ℕ) → intact (pointed.block u) ≡ true
    stacks u = elim (Bool-cases (c.current == u)) [
      | inl e ↦ rw e (q.stacks c.current)
      | inr e ↦ rw e (q.stacks u)
    ]

    all_quiet : IsQuiet switching
    all_quiet = record {
      stacks = λ u. intact-save_state pointed u (stacks u);
      no_carcass = q.no_carcass;
    }

    result : (c' : Cpu) → resume switching ≡ some c' → run c point next ≡ some c'
    result c' e = rw (intact-save_state pointed c.current (stacks c.current), e) refl

    elsewhere : (u : ℕ) → u ≢ c.current → (save_state pointed).block u ≡ c.block u
    elsewhere u ne =
        let other : (c.current == u) ≡ false = ground arith in rw (save_state, other) refl

    stored :
        (c.block c.current).has_space ≡ true
        → (((save_state pointed).block c.current).has_space ≡ true)
          × (((save_state pointed).block c.current).resume_point ≡ point)
          × ((i : ℕ)
              → i < 40
              → ((save_state pointed).block c.current).user_registers i ≡ c.registers i)
    stored s =
        let self : (c.current == c.current) ≡ true = ground arith in
        rw (self, s) (refl, refl, λ i lt. ground arith)

    back :
        (c' : Cpu)
        → (stops ((switching.block next).resume_point) ≡ true
            → (switching.block next).has_space ≡ true
            → (c'.page_table ≡ some next)
              × ((i : ℕ) → i < 40 → c'.registers i ≡ (switching.block next).user_registers i))
        → next ≢ c.current
        → stops (c.block next).resume_point ≡ true
        → (c.block next).has_space ≡ true
        → (c'.page_table ≡ some next)
          × ((i : ℕ) → i < 40 → c'.registers i ≡ (c.block next).user_registers i)
    back c' found ne s sp =
        let e = elsewhere next ne in
        let (table, registers) = found (rw e s) (rw e sp) in
        (table, λ i lt. registers i lt ∙ ap (λ b. b.user_registers i) e)
