-- ===== src/Userprog/Processes/Exec.antt =====
-- SC_Exec of userprog/exception.cc: the new process, and its place in the table.
use so.Prelude.{
  ℕ, zero, suc, ◌+◌, ◌/◌, ◌≤◌, ◌<◌, ltb, true, List, [], ◌∷◌, ◌++◌, Option, none, some, ◌>>=◌,
  get_elem?, set, length, length-set, get_elem?-some, ◌≡◌, ◌⊎◌, refl, arith, ◌∙◌, ap, inl, inr,
  lt→ltb, Bool-cases, ◌||◌, not,
}
use so.Filesys.FileHeader.{FileHeader}
use so.Filesys.FileHeader.Sectors.{holds}
use so.Filesys.OpenFile.{Bytes}
use so.Threads.KeyedList.{element}
use so.Threads.Scheduler.{Scheduler, queue, set_priority}
use so.Threads.Scheduler.Order.{HasQueues, ready_to_run_lem}
use so.Threads.Thread.{Cpu, put_block, thread, fork, stack_allocate, set_level}
use so.Machine.Interrupt.{IntStatus, int_off, is_off}
use so.Threads.Monitor.Port.{port}
use so.Userprog.BitMap.{BitMap}
use so.Userprog.AddrSpace.{AddrSpace, addr_space, clean_my_bitmap}
use so.Userprog.AddrSpace.Loadable.{IsLoadable, addr_space_lem}
use so.Userprog.Exception.Descriptors.{IsFull, free_id_from_lem}
use so.Userprog.Processes.{
  Processes, Fresh, at, free_pid, set_entry, do_exec, exec_open, give_space, in_register,
}

-- Where an entry from 1 on is free, the loop finds it, with those before it taken; otherwise it leaves the table.
pub free_pid_lem :
    (table : List (Option ℕ))
    → ((free_pid table ≡ none)
        × ((j : ℕ) → 1 ≤ j → j < length table → (t : ℕ) × (get_elem? table j ≡ some (some t))))
      ⊎ ((pid : ℕ) × (free_pid table ≡ some pid)
          × (1 ≤ pid)
          × (pid < length table)
          × (get_elem? table pid ≡ some none)
          × ((j : ℕ) → 1 ≤ j → j < pid → (t : ℕ) × (get_elem? table j ≡ some (some t))))
unfolding free_pid IsFull
free_pid_lem [] = inl (refl, λ j lo hi. absurd (omega arith))
free_pid_lem (e ∷ es) = elim (free_id_from_lem es 1) [
  | inl (missed, full) ↦ inl (missed, λ j lo hi. taken (length es) j lo hi full)
  | inr (k, found, free, lt, full) ↦ inr (
    suc k,
    found ∙ ap some (omega arith),
    omega arith,
    omega arith,
    free,
    λ j lo hi. taken k j lo hi full,
  )
]
  where
    taken :
        (n j : ℕ)
        → 1 ≤ j
        → j < suc n
        → ((i : ℕ) → i < n → (t : ℕ) × (get_elem? es i ≡ some (some t)))
        → (t : ℕ) × (get_elem? (e ∷ es) j ≡ some (some t))
    taken n zero lo hi full = absurd (omega arith)
    taken n (suc j) lo hi full = full j (omega arith)

-- What `new Thread` and `Fork` leave: the new thread is the last of the ready threads of priority 0, and can be joined.
pub record IsForked (c c' : Cpu) (t : ℕ) : Type 0 where
  pub ready : queue c'.sched 0 ≡ queue c.sched 0 ++ (element t 0 ∷ [])
  pub joinable : (c'.block t).join ≡ true
  pub same_current : c'.current ≡ c.current

abbrev prepared : Cpu → ℕ → (ℕ → ℕ) → Cpu
prepared c t registers =
    let c₁ = stack_allocate (give_space (thread c t registers) t) t in
    put_block c₁ t (record (c₁.block t) { join = true })

before_fork : Cpu → ℕ → (ℕ → ℕ) → Scheduler
before_fork c t registers = set_priority ((prepared c t registers).sched) t 0

-- No interrupt that is due where `Fork` turns them on again does anything to the threads.
unfoldable pub IsStill : (Cpu → Option Cpu) → Type 0
IsStill one_tick = (c : Cpu) → one_tick c ≡ some c

set_level-still :
    (one_tick : Cpu → Option Cpu) (c : Cpu) (now : IntStatus)
    → IsStill one_tick
    → set_level one_tick c now ≡ some (record c { level = now })
unfolding set_level IsStill
set_level-still one_tick c now still = elim (Bool-cases (is_off now || not (is_off c.level))) [
  | inl e ↦ rw e refl
  | inr e ↦ rw e (still (record c { level = now }))
]

forked_lem :
    (one_tick : Cpu → Option Cpu) (c : Cpu) (t : ℕ) (registers : ℕ → ℕ)
    → IsStill one_tick
    → HasQueues c.sched
    → (c' : Cpu) × (fork one_tick (give_space (thread c t registers) t) t true 0 ≡ some c')
      × IsForked c c' t
unfolding fork thread stack_allocate set_priority before_fork
forked_lem one_tick c t registers still h =
    let (s', e, _, _, _, at) = ready_to_run_lem (before_fork c t registers) t h (ground arith) in
    (
      record (prepared c t registers) { sched = s' },
      ap
            (λ o. o >>= λ s.
              set_level one_tick (record (prepared c t registers) { level = int_off; sched = s })
                c.level)
            e
          ∙ set_level-still one_tick
              (record (prepared c t registers) { level = int_off; sched = s' }) c.level still,
      record { ready = at 0 ∙ ground arith; joinable = ground arith; same_current = refl },
    )

-- The table in which the process that calls has put its own entry.
abbrev pub entered : Processes → List (Option ℕ)
entered p = set p.table (p.pid p.cpu.current) (some p.cpu.current)

-- A new process: it has the first free entry from 1 on, whose number the caller gets; its thread is ready; its frames
-- were free, and are given back with its address space.
pub record IsStarted (f : Fresh) (p : Processes) (pid : ℕ) (p' : Processes) : Type 0 where
  pub was_free : get_elem? (entered p) pid ≡ some none
  pub before : (j : ℕ) → 1 ≤ j → j < pid → (t : ℕ) × (get_elem? (entered p) j ≡ some (some t))
  pub entry : p'.table ≡ set (entered p) pid (some f.address)
  pub result : p'.machine.registers 2 ≡ pid
  pub counted : p'.cant_processes ≡ p.cant_processes + 1
  pub known : p'.pid f.address ≡ pid
  pub forked : IsForked p.cpu p'.cpu f.address
  pub memory :
      (a : ℕ) → 0 < holds p.my_bitmap (a / 128) → p'.machine.main_memory a ≡ p.machine.main_memory a
  pub space : AddrSpace
  pub its_space : p'.space f.address ≡ some space
  pub given_back : BitMap
  pub cleaned : clean_my_bitmap space p'.my_bitmap ≡ some given_back
  pub back : (j : ℕ) → holds given_back j ≡ holds p.my_bitmap j

new_process : Fresh → Processes → ℕ → AddrSpace → BitMap → Bytes → Cpu → Processes
new_process f p pid s m' mem' c' = record (in_register p pid) {
  machine = record ((in_register p pid).machine) { main_memory = mem' };
  my_bitmap = m';
  cpu = c';
  live = at p.live f.address true;
  pid = at p.pid f.address pid;
  space = at p.space f.address (some s);
  port_join = at p.port_join f.address (port f.buffer);
  table = set (entered p) pid (some f.address);
  cant_processes = p.cant_processes + 1;
}

module _ (f : Fresh) (h : FileHeader) (p : Processes) (pid : ℕ) (e₀ : Option ℕ)
    (own : get_elem? p.table (p.pid p.cpu.current) ≡ some e₀)
    (found : free_pid (entered p) ≡ some pid) (small : pid < 100)
    (free : get_elem? (entered p) pid ≡ some none) where
  exec_open_eq :
      (s : AddrSpace) (m' : BitMap) (mem' : Bytes) (c' : Cpu)
      → addr_space f.bytes p.sectors h p.my_bitmap p.machine.main_memory ≡ some (s, m', mem')
      → fork f.one_tick (give_space (thread p.cpu f.address f.registers) f.address) f.address true 0
        ≡ some c'
      → exec_open f h p ≡ some (new_process f p pid s m' mem' c')
  unfolding exec_open do_exec set_entry new_process
  exec_open_eq s m' mem' c' e e₂ =
      let test : ltb pid 100 ≡ true = lt→ltb pid 100 small in
      rw (own, found, test, free, e, e₂) refl

  started :
      IsStill f.one_tick
      → HasQueues p.cpu.sched
      → IsLoadable f.bytes p.sectors h p.my_bitmap
      → ((j : ℕ) → 1 ≤ j → j < pid → (t : ℕ) × (get_elem? (entered p) j ≡ some (some t)))
      → (p' : Processes) × (exec_open f h p ≡ some p') × IsStarted f p pid p'
  unfolding new_process
  started still queues l before =
      let (s, m', mem', m'', e, same, cleaned, back) =
        addr_space_lem f.bytes p.sectors h p.my_bitmap p.machine.main_memory l in
      let (c', e₂, forked) = forked_lem f.one_tick p.cpu f.address f.registers still queues in
      (
        new_process f p pid s m' mem' c',
        exec_open_eq s m' mem' c' e e₂,
        record {
          was_free = free;
          before = before;
          entry = refl;
          result = refl;
          counted = refl;
          known = ground arith;
          forked = forked;
          memory = same;
          space = s;
          its_space = ground arith;
          given_back = m'';
          cleaned = cleaned;
          back = back;
        },
      )

-- `SC_Exec` of an executable that is open and can be loaded, in a table of `maxCantProcess` entries, with
-- no interrupt due at the end of `Fork` that touches the threads. Where an entry
-- from 1 on is free, the new process has the first of them, the caller gets its number in register 2, and a thread
-- for it, which can be joined, is the last of the ready threads of priority 0; there is one process more; memory
-- in frames that were taken is as it was; and the address space gives back the frames that it took, and no
-- others. Where all of them are taken, the loop leaves the table.
pub exec_open_lem :
    (f : Fresh) (h : FileHeader) (p : Processes)
    → length p.table ≡ 100
    → p.pid p.cpu.current < 100
    → IsStill f.one_tick
    → HasQueues p.cpu.sched
    → IsLoadable f.bytes p.sectors h p.my_bitmap
    → ((exec_open f h p ≡ none)
        × ((j : ℕ) → 1 ≤ j → j < 100 → (t : ℕ) × (get_elem? (entered p) j ≡ some (some t))))
      ⊎ ((pid : ℕ) × (p' : Processes) × (1 ≤ pid)
          × (pid < 100)
          × (exec_open f h p ≡ some p')
          × IsStarted f p pid p')
unfolding exec_open set_entry
exec_open_lem f h p size in_table still queues l =
    let (e₀, own) = get_elem?-some p.table (p.pid p.cpu.current) (omega (arith, size)) in
    let long = length-set p.table (p.pid p.cpu.current) (some p.cpu.current) ∙ size in
    elim (free_pid_lem (entered p)) [
      | inl (missed, full) ↦ inl (rw (own, missed) refl, λ j lo hi. full j lo (omega (arith, long)))
      | inr (pid, found, lo, lt, free, before) ↦
          let small : pid < 100 = omega (arith, long) in
          let (p', e, s) = started f h p pid e₀ own found small free still queues l before in
          inr (pid, p', lo, small, e, s)
    ]
