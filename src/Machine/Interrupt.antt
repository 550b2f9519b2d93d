-- ===== src/Machine/Interrupt.antt =====
-- machine/interrupt.h and machine/interrupt.cc: simulated time and pending interrupts. Times are `int`s
-- that are taken not to overflow. `none` is an ASSERT that fails.
pub mod Due
use so.Prelude.{
  ℕ, zero, suc, ◌+◌, ◌-◌, ltb, ◌==◌, if◌then◌else◌, ◌&&◌, ◌||◌, Bool, true, false, not, List, [],
  ◌∷◌, Option, none, some, ◌>>=◌, ◌>>◌, assert,
}
use so.Threads.KeyedList
use so.Threads.KeyedList.{ListElement}

pub data IntStatus : Type 0 where
  int_off int_on : IntStatus

pub data MachineStatus : Type 0 where
  idle_mode system_mode user_mode : MachineStatus

pub data IntType : Type 0 where
  timer_int disk_int console_write_int console_read_int network_send_int network_recv_int : IntType

-- `handler` and `arg` stand for the function pointer and its argument.
pub record PendingInterrupt : Type 0 where
  pub handler : ℕ
  pub arg : ℕ
  pub when : ℕ
  pub kind : IntType

pub record Statistics : Type 0 where
  pub total_ticks : ℕ
  pub idle_ticks : ℕ
  pub system_ticks : ℕ
  pub user_ticks : ℕ

abbrev pub user_tick : ℕ
user_tick = 1

abbrev pub system_tick : ℕ
system_tick = 10

abbrev pub is_off : IntStatus → Bool
is_off int_off = true
is_off int_on = false

abbrev pub is_idle : MachineStatus → Bool
is_idle idle_mode = true
is_idle s = false

abbrev pub is_system : MachineStatus → Bool
is_system system_mode = true
is_system s = false

abbrev pub is_timer : IntType → Bool
is_timer timer_int = true
is_timer t = false

-- The fields of `Interrupt`, the statistics, and in `rest` whatever else the kernel has.
pub record Kernel {ℓ} (W : Type ℓ) : Type ℓ where
  pub level : IntStatus
  pub pending : List (ListElement PendingInterrupt)
  pub in_handler : Bool
  pub yield_on_return : Bool
  pub status : MachineStatus
  pub stats : Statistics
  pub rest : W

-- `Interrupt::Interrupt`, with the counters of `Statistics` at zero.
unfoldable pub init {ℓ} : {W : Type ℓ} → W → Kernel W
init w = record {
  level = int_off;
  pending = [];
  in_handler = false;
  yield_on_return = false;
  status = system_mode;
  stats = record { total_ticks = 0; idle_ticks = 0; system_ticks = 0; user_ticks = 0 };
  rest = w;
}

module _ {ℓ} {W : Type ℓ} where
  unfoldable pub change_level : Kernel W → IntStatus → Kernel W
  change_level k now = record k { level = now }

  unfoldable pub ask_yield_on_return : Kernel W → Kernel W
  ask_yield_on_return k = record k { yield_on_return = true }

  -- `Schedule`: `from_now` must be positive.
  unfoldable pub schedule : Kernel W → ℕ → ℕ → ℕ → IntType → Option (Kernel W)
  schedule k handler arg from_now kind = do
    assert (ltb 0 from_now)
    some (record k { pending = KeyedList.sorted_insert k.pending to_occur when })
    where
      when : ℕ
      when = k.stats.total_ticks + from_now

      to_occur : PendingInterrupt
      to_occur = record { handler = handler; arg = arg; when = when; kind = kind }

  abbrev pub advance_to : Kernel W → ℕ → Kernel W
  advance_to k when = record k {
    stats = record (k.stats) {
      idle_ticks = k.stats.idle_ticks + (when - k.stats.total_ticks);
      total_ticks = when;
    };
  }

-- What the kernel calls: `call` runs the handler with its argument, `delayed_load` is
-- `machine->DelayedLoad(0, 0)`, and `yield` is `currentThread->Yield()`.
module _ {ℓ} {W : Type ℓ} (call : ℕ → ℕ → Kernel W → Option (Kernel W)) (delayed_load : W → W) where
  -- The end of `CheckIfDue`: the handler of `e` runs.
  unfoldable pub invoke : Kernel W → ListElement PendingInterrupt → Option (Bool × Kernel W)
  invoke k e = do
    k' ←
        call e.item.handler e.item.arg
          (record k { in_handler = true; status = system_mode; rest = delayed_load k.rest })
    some (true, record k' { status = k.status; in_handler = false })

  -- `CheckIfDue` once an interrupt is taken off the list, which is `k.pending` now.
  unfoldable pub check_taken :
      Kernel W → Bool → ListElement PendingInterrupt → Option (Bool × Kernel W)
  check_taken k advance_clock e =
      let put_back = record k { pending = KeyedList.sorted_insert k.pending e.item e.key } in
      if ltb k.stats.total_ticks e.key && not advance_clock
      then some (false, put_back)
      else (let k' = if ltb k.stats.total_ticks e.key then advance_to k e.key else k in
          if is_idle k.status && is_timer e.item.kind && KeyedList.is_empty k.pending
          then some (false, record k' { pending = KeyedList.sorted_insert k.pending e.item e.key })
          else invoke k' e)

  unfoldable pub check_if_due : Kernel W → Bool → Option (Bool × Kernel W)
  check_if_due k advance_clock = do
    assert (is_off k.level)
    check_removed (KeyedList.sorted_remove k.pending)
    where
      check_removed :
          Option (ListElement PendingInterrupt) × List (ListElement PendingInterrupt)
          → Option (Bool × Kernel W)
      check_removed (none, l) = some (false, k)
      check_removed (some e, l) = check_taken (record k { pending = l }) advance_clock e

  -- `while (CheckIfDue(false));` on fuel; `none` also when the fuel runs out.
  unfoldable pub check_all : ℕ → Kernel W → Option (Kernel W)
  check_all zero k = none
  check_all (suc fuel) k = do
    (fired, k') ← check_if_due k false
    elim fired [ true ↦ check_all fuel k' | false ↦ some k' ]

  -- `Idle`; the flag is false where nothing fired and the machine halts.
  unfoldable pub idle : ℕ → Kernel W → Option (Bool × Kernel W)
  idle fuel k = do
    (fired, k') ← check_if_due (record k { status = idle_mode }) true
    if fired
        then (do
          k'' ← check_all fuel k'
          some (true, record k'' { yield_on_return = false; status = system_mode }))
        else some (false, k')

  module _ (yield : Kernel W → Option (Kernel W)) where
    abbrev pub tick : Kernel W → Kernel W
    tick k = record k {
      stats =
          if is_system k.status
          then record (k.stats) {
            total_ticks = k.stats.total_ticks + system_tick;
            system_ticks = k.stats.system_ticks + system_tick;
          }
          else record (k.stats) {
            total_ticks = k.stats.total_ticks + user_tick;
            user_ticks = k.stats.user_ticks + user_tick;
          };
    }

    unfoldable pub one_tick : ℕ → Kernel W → Option (Kernel W)
    one_tick fuel k = do
      k' ← check_all fuel (change_level (tick k) int_off)
      let k'' = change_level k' int_on
      if k''.yield_on_return
          then (do
            k₃ ← yield (record k'' { yield_on_return = false; status = system_mode })
            some (record k₃ { status = k.status }))
          else some k''

    -- `SetLevel`; the old level is the result.
    unfoldable pub set_level : ℕ → Kernel W → IntStatus → Option (IntStatus × Kernel W)
    set_level fuel k now = do
      assert (is_off now || not k.in_handler)
      if is_off now || not (is_off k.level)
          then some (k.level, change_level k now)
          else (do k' ← one_tick fuel (change_level k now); some (k.level, k'))

    unfoldable pub enable : ℕ → Kernel W → Option (Kernel W)
    enable fuel k = do (_, k') ← set_level fuel k int_on; some k'
