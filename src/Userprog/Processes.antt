-- ===== src/Userprog/Processes.antt =====
-- userprog/exception.cc: the table of processes, and the system calls SC_Exec, SC_Join, SC_Exit and SC_Halt. A thread
-- is the number that stands for its pointer; a pointer to it is good while it is `live`. `none` is an ASSERT that
-- fails, a pointer or an index that leads nowhere, or a second `delete`.
pub mod Exec
pub mod Exit
pub mod Join
use so.Prelude.{
  ℕ, zero, suc, ◌+◌, ◌-◌, leb, ltb, ◌==◌, if◌then◌else◌, ◌&&◌, Bool, true, false, not, List, [],
  ◌∷◌, pos, Option, none, some, ◌>>=◌, ◌>>◌, assert, get_elem?, set,
}
use so.Machine.Memory.{Machine, set_register}
use so.Filesys.FileHeader.{FileHeader}
use so.Filesys.FileSystem
use so.Filesys.FileSystem.{FileSystem}
use so.Filesys.OpenFile.{Bytes, Sectors}
use so.Threads.Scheduler
use so.Threads.Thread.{Cpu, ThreadBlock, put_block, thread, delete_thread, fork, finish}
use so.Threads.Monitor.Port.{Port, port, send, receive, call_now}
use so.Userprog.BitMap.{BitMap}
use so.Userprog.AddrSpace.{AddrSpace, addr_space, clean_my_bitmap}
use so.Userprog.User.{read_str_from_usr, read_str_from_usr_special}
use so.Userprog.Exception.{free_id_from, rounds}

-- `table` is `processIdTable`, `cant_processes` is `cantProcesses`, and `pid`, `space` and `port_join` are fields of
-- each thread. The registers of a user program are those of `machine`.
pub record Processes : Type 0 where
  pub machine : Machine
  pub file_system : FileSystem
  pub sectors : Sectors
  pub my_bitmap : BitMap
  pub cpu : Cpu
  pub live : ℕ → Bool
  pub pid : ℕ → ℕ
  pub space : ℕ → Option AddrSpace
  pub port_join : ℕ → Port
  pub table : List (Option ℕ)
  pub cant_processes : ℕ

-- `maxCantProcess` of threads/system.h.
abbrev pub max_cant_process : ℕ
max_cant_process = 100

abbrev pub at {ℓ} : {A : Type ℓ} → (ℕ → A) → ℕ → A → ℕ → A
at f t a u = if t == u then a else f u

abbrev pub in_register : Processes → ℕ → Processes
in_register p v = record p { machine = set_register p.machine 2 v }

-- The loop that looks for a free entry, from 1 on.
unfoldable pub free_pid : List (Option ℕ) → Option ℕ
free_pid [] = none
free_pid (e ∷ es) = free_id_from es 1

-- `processIdTable[i] = entry`.
unfoldable pub set_entry : Processes → ℕ → Option ℕ → Option Processes
set_entry p i entry = do _ ← get_elem? p.table i; some (record p { table = set p.table i entry })

-- What `new Thread` and `Fork` find in memory, the address of the new thread, and what `OneTick` does to the threads
-- where `Fork` turns the interrupts on again.
pub record Fresh : Type 0 where
  pub address : ℕ
  pub registers : ℕ → ℕ
  pub buffer : ℕ
  pub bytes : Bytes
  pub one_tick : Cpu → Option Cpu

-- The address space of `execThread`, once it is made.
abbrev pub give_space : Cpu → ℕ → Cpu
give_space c t = put_block c t (record (c.block t) { has_space = true })

-- `do_Exec` of an executable with the header `h`.
unfoldable pub do_exec : Fresh → FileHeader → ℕ → Processes → Option Processes
do_exec f h pid p = do
  p₁ ←
      set_entry
        (record p {
          cpu = thread p.cpu f.address f.registers;
          live = at p.live f.address true;
          pid = at p.pid f.address pid;
        })
        pid (some f.address)
  (s, m', mem') ← addr_space f.bytes p.sectors h p.my_bitmap p.machine.main_memory
  cpu' ← fork f.one_tick (give_space p₁.cpu f.address) f.address true 0
  some (record p₁ {
    machine = record p.machine { main_memory = mem' };
    my_bitmap = m';
    space = at p.space f.address (some s);
    cant_processes = p.cant_processes + 1;
    cpu = cpu';
    port_join = at p.port_join f.address (port f.buffer);
  })

-- `SC_Exec` once the executable is open.
unfoldable pub exec_open : Fresh → FileHeader → Processes → Option Processes
exec_open f h p = do
  p₁ ← set_entry p (p.pid p.cpu.current) (some p.cpu.current)
  pid ← free_pid p₁.table
  assert (ltb pid max_cant_process)
  do_exec f h pid (in_register p₁ pid)

-- The loop of `SC_Exec` over the arguments, which are not used then; `fuel` bounds the blanks before each.
unfoldable pub read_arguments : ℕ → ℕ → Machine → ℕ → Option Machine
read_arguments fuel zero m addr = some m
read_arguments fuel (suc n) m addr = do
  (_, addr', m') ← read_str_from_usr_special fuel 128 m addr 32
  read_arguments fuel n m' addr'

-- `SC_Exec`.
unfoldable pub sys_exec : ℕ → Fresh → Processes → Option Processes
sys_exec fuel f p = do
  (filename, m₁) ← read_str_from_usr 128 p.machine (p.machine.registers 4)
  m₂ ← read_arguments fuel (rounds (p.machine.registers 5)) m₁ (p.machine.registers 6)
  executable ← FileSystem.open_file p.file_system filename
  file ← executable
  exec_open f file.hdr (record p { machine = m₂ })

-- `Thread::Join` of a thread that is not deleted, with what `Receive` leads to: the flag is false while the caller
-- waits at the port.
unfoldable pub joined : ℕ → Option Port → Processes → Bool × Processes
joined t none p = (false, p)
joined t (some q) p = (true, record p { port_join = at p.port_join t q })

unfoldable pub join_thread : ℕ → Processes → Option (Bool × Processes)
join_thread t p = do
  assert (p.live t)
  some (if (p.cpu.block t).join then joined t (call_now receive (p.port_join t)) p else (true, p))

-- `SC_Join`.
unfoldable pub sys_join : Processes → Option (Bool × Processes)
sys_join p =
    let pid = p.machine.registers 4 in
    do
      entry ← get_elem? p.table pid
      child ← entry
      (done, p₁) ← join_thread child p
      let left = (do p₂ ← set_entry p₁ pid none; some (true, in_register p₂ 0))
      if done then left else some (false, p₁)

-- `delete currentThread->space`, which gives the frames back, and `space = NULL`.
unfoldable pub delete_space : AddrSpace → Processes → Option Processes
delete_space s p = do
  m' ← clean_my_bitmap s p.my_bitmap
  let t = p.cpu.current
  some (record p {
    my_bitmap = m';
    space = at p.space t none;
    cpu = put_block p.cpu t (record (p.cpu.block t) { has_space = false });
  })

-- What `SC_Exit` does for a thread with an address space.
unfoldable pub leave_space : Option AddrSpace → Processes → Option Processes
leave_space none p = some p
leave_space (some s) p = do p' ← delete_space s p; set_entry p' (p.pid p.cpu.current) none

unfoldable pub leave : Processes → Option Processes
leave p = leave_space (p.space p.cpu.current) p

abbrev pub with_cpu : Processes → Cpu → Processes
with_cpu p c = record p { cpu = c; machine = record p.machine { registers = c.registers } }

-- Whether `Run` has deleted the thread that finished.
abbrev pub is_gone : Option ℕ → Bool
is_gone none = true
is_gone (some t) = false

-- `Finish`, with what `Send` leads to: the flag is false while the thread waits at its port, or no thread is ready.
unfoldable pub finish_sent : Option Port → Processes → Option (Bool × Processes)
finish_sent none p = some (false, p)
finish_sent (some q) p = do
  (switched, c) ← finish (record p.cpu { registers = p.machine.registers })
  let t = p.cpu.current
  some (
    switched,
    with_cpu
        (record p {
          port_join = at p.port_join t q;
          live = at p.live t (not (is_gone c.to_destroy) && p.live t);
        })
        c,
  )

unfoldable pub finish_process : Processes → Option (Bool × Processes)
finish_process p =
    let port = p.port_join p.cpu.current in
    finish_sent (if (p.cpu.block p.cpu.current).join then call_now (send 0) port else some port) p

-- What a system call leads to that may end in `Halt`.
pub data Outcome : Type 0 where
  halted : Outcome
  goes_on : Bool → Processes → Outcome

-- `SC_Exit`.
unfoldable pub sys_exit : Processes → Option Outcome
sys_exit p =
    let p₁ : Processes = record p { cant_processes = p.cant_processes - 1 } in
    let finished = (do
      p₂ ← leave p₁
      (switched, p₃) ← finish_process p₂
      some (goes_on switched p₃)) in
    if leb p₁.cant_processes 0 then some halted else finished

-- `delete` of a thread.
unfoldable pub delete_live : ℕ → Processes → Option Processes
delete_live t p = do
  assert (p.live t)
  c ← delete_thread p.cpu t
  some (record p { cpu = c; live = at p.live t false })

-- The inner loop of `SC_Halt`, with `n` rounds left; `delete` of NULL does nothing.
unfoldable pub delete_rounds : ℕ → Option ℕ → Processes → Option Processes
delete_rounds zero entry p = some p
delete_rounds (suc n) none p = delete_rounds n none p
delete_rounds (suc n) (some t) p = do p' ← delete_live t p; delete_rounds n (some t) p'

unfoldable pub halt_entry : Option ℕ → Processes → Option Processes
halt_entry entry p = do
  p' ← delete_rounds 100 entry p
  elim entry [
    | none ↦ some p'
    | some t ↦ (if t == p'.cpu.current then some p' else delete_live t p')
  ]

-- The loop over the table; each entry is NULL afterwards.
unfoldable pub halt_table : List (Option ℕ) → Processes → Option Processes
halt_table [] p = some p
halt_table (entry ∷ es) p = do p' ← halt_entry entry p; halt_table es p'

-- `SC_Halt`.
unfoldable pub sys_halt : Processes → Option Outcome
sys_halt p = do
  p₁ ← halt_table p.table p
  p₂ ← elim (p₁.space p₁.cpu.current) [ none ↦ some p₁ | some s ↦ delete_space s p₁ ]
  some halted
