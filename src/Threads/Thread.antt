-- ===== src/Threads/Thread.antt =====
-- threads/thread.h and threads/thread.cc, with `Scheduler::Run` of threads/scheduler.cc: which thread has the CPU,
-- and what a switch from one to another saves and restores. `none` is an ASSERT that fails. `SWITCH` goes on where
-- the other thread stopped, so `Run` is in two parts: `run_until_switch` by the old thread, `after_switch` by the
-- new one. Userprog/Processes has `Join`, and what `Finish` does before it sleeps.
pub mod Switch
pub mod RoundRobin
pub mod Registers
use so.Prelude.{
  ℕ, zero, suc, ltb, ◌==◌, ◌&&◌, ◌||◌, if◌then◌else◌, Bool, true, false, not, Option, none, some,
  ◌>>=◌, ◌>>◌, assert,
}
use so.Machine.Interrupt.{IntStatus, int_off, int_on, is_off}
use so.Machine.Memory.{num_total_regs}
use so.Threads.Scheduler
use so.Threads.Scheduler.{
  Scheduler, ThreadStatus, just_created, blocked, running, set_thread, set_status, set_priority,
  ready_to_run, find_next_to_run,
}

-- Where a thread goes on when it gets the CPU: at `ThreadRoot`, in `Yield` with its `oldLevel`, or in `Sleep`.
pub data ResumePoint : Type 0 where
  at_root : ResumePoint
  in_yield : IntStatus → ResumePoint
  in_sleep : ResumePoint

-- The fields of `Thread` that the scheduler does not read. `stack` is the word at the end of the stack, if there
-- is one, and `has_space` says that `space` is not NULL.
pub record ThreadBlock : Type 0 where
  pub stack : Option ℕ
  pub join : Bool
  pub user_registers : ℕ → ℕ
  pub has_space : Bool
  pub resume_point : ResumePoint

-- The globals: `current` is `currentThread`, `to_destroy` is `threadToBeDestroyed`, `registers` are those of the
-- machine, and `page_table` names the thread whose address space the machine translates by.
pub record Cpu : Type 0 where
  pub sched : Scheduler
  pub block : ℕ → ThreadBlock
  pub current : ℕ
  pub level : IntStatus
  pub to_destroy : Option ℕ
  pub registers : ℕ → ℕ
  pub page_table : Option ℕ

-- `Interrupt::SetLevel`, outside a handler. `one_tick` is what `OneTick` does to the threads: Machine/Interrupt has it,
-- for any handlers of the interrupts that are due, and it may call `Yield`.
unfoldable pub set_level : (Cpu → Option Cpu) → Cpu → IntStatus → Option Cpu
set_level one_tick c now =
    if is_off now || not (is_off c.level)
    then some (record c { level = now })
    else one_tick (record c { level = now })

abbrev pub stack_fencepost : ℕ
stack_fencepost = 3735928559

abbrev pub put_block : Cpu → ℕ → ThreadBlock → Cpu
put_block c t b = record c { block = λ u. if t == u then b else c.block u }

-- `Thread::Thread` at an address.
unfoldable pub thread : Cpu → ℕ → (ℕ → ℕ) → Cpu
thread c t garbage =
    record (put_block c t (record {
      stack = none;
      join = false;
      user_registers = garbage;
      has_space = false;
      resume_point = at_root;
    })) { sched = set_thread c.sched t (record { status = just_created; priority = 0 }) }

-- `Thread::~Thread`: `this` is gone, which needs no change to what is kept of it.
unfoldable pub delete_thread : Cpu → ℕ → Option Cpu
delete_thread c t = do assert (not (t == c.current)); some c

unfoldable pub stack_allocate : Cpu → ℕ → Cpu
stack_allocate c t =
    put_block c t (record (c.block t) { stack = some stack_fencepost; resume_point = at_root })

-- `Fork`: `wants_join` is `!j`.
unfoldable pub fork : (Cpu → Option Cpu) → Cpu → ℕ → Bool → ℕ → Option Cpu
fork one_tick c t wants_join priority =
    let c₁ = stack_allocate c t in
    let c₂ = if wants_join then put_block c₁ t (record (c₁.block t) { join = true }) else c₁ in
    do
      sched' ← ready_to_run (set_priority c₂.sched t priority) t
      set_level one_tick (record c₂ { level = int_off; sched = sched' }) c.level

abbrev pub intact : ThreadBlock → Bool
intact b = elim b.stack [ none ↦ true | some w ↦ w == stack_fencepost ]

unfoldable pub check_overflow : Cpu → ℕ → Option (Unit {0})
check_overflow c t = assert (intact (c.block t))

unfoldable pub save_user_state : Cpu → ℕ → ThreadBlock
save_user_state c t = record (c.block t) {
  user_registers =
      λ i. if ltb i num_total_regs then c.registers i else (c.block t).user_registers i;
}

unfoldable pub restore_user_state : Cpu → ℕ → ℕ → ℕ
restore_user_state c t i =
    if ltb i num_total_regs then (c.block t).user_registers i else c.registers i

-- What `Run` does first for a thread with an address space; `AddrSpace::SaveState` does nothing.
unfoldable pub save_state : Cpu → Cpu
save_state c = record c {
  block = λ u.
      if c.current == u && (c.block c.current).has_space
      then save_user_state c c.current
      else c.block u;
}

-- `Scheduler::Run` up to `SWITCH`.
unfoldable pub run_until_switch : Cpu → ℕ → Option Cpu
run_until_switch c next =
    let c' = save_state c in
    do
      check_overflow c' c.current
      some (record c' { current = next; sched = set_status c.sched next running })

unfoldable pub destroy_carcass : Cpu → Option Cpu
destroy_carcass c = elim c.to_destroy [
  | none ↦ some c
  | some t ↦ (do c' ← delete_thread c t; some (record c' { to_destroy = none }))
]

-- What `Run` does last for a thread with an address space: `AddrSpace::RestoreState` sets the page table.
unfoldable pub restore_state : Cpu → Cpu
restore_state c =
    let has_space = (c.block c.current).has_space in
    record c {
      registers = λ i. if has_space then restore_user_state c c.current i else c.registers i;
      page_table = if has_space then some c.current else c.page_table;
    }

-- `Scheduler::Run` from `SWITCH` on.
unfoldable pub after_switch : Cpu → Option Cpu
after_switch c = do c' ← destroy_carcass c; some (restore_state c')

-- What the thread that has got the CPU does first, up to where it sets the level of the interrupts.
unfoldable pub resume : Cpu → Option Cpu
resume c = elim (c.block c.current).resume_point [
  | at_root ↦ some c
  | in_yield old ↦ after_switch c
  | in_sleep ↦ after_switch c
]

-- What it does next: a new thread enables interrupts, `Yield` ends with `SetLevel(oldLevel)`, and `Sleep` returns.
unfoldable pub go_on : (Cpu → Option Cpu) → Cpu → Option Cpu
go_on one_tick c = elim (c.block c.current).resume_point [
  | at_root ↦ set_level one_tick c int_on
  | in_yield old ↦ set_level one_tick c old
  | in_sleep ↦ some c
]

-- `Run`, for a thread that goes on at `point` when it gets the CPU back.
unfoldable pub run : Cpu → ResumePoint → ℕ → Option Cpu
run c point next = do
  c' ←
      run_until_switch (put_block c c.current (record (c.block c.current) { resume_point = point }))
        next
  resume c'

-- The `if` of `Yield`, with what `FindNextToRun` found.
unfoldable pub yield_next : (Cpu → Option Cpu) → Cpu → Option ℕ → Scheduler → Option Cpu
yield_next one_tick c none sched' =
    set_level one_tick (record c { level = int_off; sched = sched' }) c.level
yield_next one_tick c (some t) sched' = do
  sched'' ← ready_to_run sched' c.current
  c' ← run (record c { level = int_off; sched = sched'' }) (in_yield c.level) t
  go_on one_tick c'

unfoldable pub yield : (Cpu → Option Cpu) → Cpu → Option Cpu
yield one_tick c =
    let (next, sched') = find_next_to_run c.sched in yield_next one_tick c next sched'

-- `Sleep`, up to where the thread that gets the CPU goes on; the flag is false where no thread is ready, and the
-- loop goes on after `Idle`.
unfoldable pub sleep : Cpu → Option (Bool × Cpu)
sleep c = do
  assert (is_off c.level)
  let (next, sched') = find_next_to_run (set_status c.sched c.current blocked)
  let c' = record c { sched = sched' }
  elim next [ none ↦ some (false, c') | some t ↦ (do c'' ← run c' in_sleep t; some (true, c'')) ]

-- `Finish`, once `portJoin->Send(0)` is done.
unfoldable pub finish : Cpu → Option (Bool × Cpu)
finish c = sleep (record c { level = int_off; to_destroy = some c.current })
