-- ===== src/Threads/Thread/Registers.antt =====
-- The user registers of a thread while other threads have the CPU.
use so.Prelude.{ℕ, ◌<◌, true, List, [], ◌∷◌, Option, some, ◌>>=◌, ◌≡◌, ◌≢◌, refl, ◌∙◌, sym, ap}
use so.Threads.Thread.{Cpu, ResumePoint, run}
use so.Threads.Thread.Switch.{IsQuiet, stops, run_lem}

-- A thread runs, with any effect on the registers of the machine, and gives the CPU to `next`.
pub record Turn : Type 0 where
  pub computed : (ℕ → ℕ) → ℕ → ℕ
  pub point : ResumePoint
  pub next : ℕ

unfoldable pub take_turn : Cpu → Turn → Option Cpu
take_turn c t = run (record c { registers = t.computed c.registers }) t.point t.next

unfoldable pub take_turns : Cpu → List Turn → Option Cpu
take_turns c [] = some c
take_turns c (t ∷ ts) = do c' ← take_turn c t; take_turns c' ts

unfoldable pub Without : ℕ → List Turn → Type 0
Without t [] = Unit
Without t (x ∷ xs) = (x.next ≢ t) × Without t xs

-- The block of a thread that gave up the CPU with these registers.
pub record IsKept (c : Cpu) (t : ℕ) (registers : ℕ → ℕ) : Type 0 where
  pub quiet : IsQuiet c
  pub away : c.current ≢ t
  pub space : (c.block t).has_space ≡ true
  pub waits : stops (c.block t).resume_point ≡ true
  pub kept : (i : ℕ) → i < 40 → (c.block t).user_registers i ≡ registers i

turn_lem :
    (c : Cpu) (x : Turn) (t : ℕ) (registers : ℕ → ℕ)
    → IsKept c t registers
    → x.next ≢ t
    → (c' : Cpu) × (take_turn c x ≡ some c') × IsKept c' t registers
unfolding take_turn
turn_lem c x t registers k ne =
    let (c', e, s) =
      run_lem (record c { registers = x.computed c.registers }) x.point x.next
        (record { stacks = k.quiet.stacks; no_carcass = k.quiet.no_carcass }) in
    let same = s.others t (λ z. k.away (sym z)) in
    (
      c',
      e,
      record {
        quiet = s.quiet;
        away = λ z. ne (sym s.now ∙ z);
        space = rw same k.space;
        waits = rw same k.waits;
        kept = λ i lt. ap (λ b. b.user_registers i) same ∙ k.kept i lt;
      },
    )

turns_lem :
    (c : Cpu) (xs : List Turn) (t : ℕ) (registers : ℕ → ℕ)
    → IsKept c t registers
    → Without t xs
    → (c' : Cpu) × (take_turns c xs ≡ some c') × IsKept c' t registers
unfolding take_turns Without
turns_lem c [] t registers k w = (c, refl, k)
turns_lem c (x ∷ xs) t registers k w =
    let (c₁, e, k₁) = turn_lem c x t registers k w.0 in
    let (c₂, e₂, k₂) = turns_lem c₁ xs t registers k₁ w.1 in (c₂, rw e e₂, k₂)

-- A user program does not see the switches: where no stack has overflowed and no thread waits to be destroyed,
-- the thread of an address space gives up the CPU in `Yield` or `Sleep`, other threads take any number of
-- turns, with any effect on the registers, and one of them gives the CPU back. No ASSERT fails on the way, all
-- forty registers of the machine hold then what they held when the thread gave up the CPU, and the machine
-- translates by the thread's page table.
pub registers_kept :
    (c : Cpu) (point : ResumePoint) (next : ℕ) (xs : List Turn) (back : Turn)
    → IsQuiet c
    → (c.block c.current).has_space ≡ true
    → stops point ≡ true
    → next ≢ c.current
    → Without c.current xs
    → back.next ≡ c.current
    → (c₁ c₂ c₃ : Cpu) × (run c point next ≡ some c₁)
      × (take_turns c₁ xs ≡ some c₂)
      × (take_turn c₂ back ≡ some c₃)
      × (c₃.current ≡ c.current)
      × (c₃.page_table ≡ some c.current)
      × ((i : ℕ) → i < 40 → c₃.registers i ≡ c.registers i)
unfolding take_turn
registers_kept c point next xs back q space stop ne w e =
    let (c₁, e₁, s) = run_lem c point next q in
    let (sp, at, regs) = s.saved space in
    let k : IsKept c₁ c.current c.registers = record {
      quiet = s.quiet;
      away = λ z. ne (sym s.now ∙ z);
      space = sp;
      waits = rw at stop;
      kept = regs;
    } in
    let (c₂, e₂, k₂) = turns_lem c₁ xs c.current c.registers k w in
    let (c₃, e₃, s₃) =
      run_lem (record c₂ { registers = back.computed c₂.registers }) back.point back.next
        (record { stacks = k₂.quiet.stacks; no_carcass = k₂.quiet.no_carcass }) in
    let (table, final) = s₃.restored (λ z. k₂.away (sym z ∙ e)) (rw e k₂.waits) (rw e k₂.space) in
    (
      c₁,
      c₂,
      c₃,
      e₁,
      e₂,
      e₃,
      s₃.now ∙ e,
      table ∙ ap some e,
      λ i lt. final i lt ∙ ap (λ u. (c₂.block u).user_registers i) e ∙ k₂.kept i lt,
    )
