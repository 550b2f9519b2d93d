-- ===== src/Tests/Clock.antt =====
-- A clock with pending interrupts, whose handlers schedule themselves again.
use so.Prelude.{ℕ, suc, false, [], ◌∷◌, Option, some, ◌≡◌, refl, arith}
use so.Threads.KeyedList.{ListElement, element}
use so.Threads.KeyedList.Sorted.{AllFrom, count_up_to}
use so.Machine.Interrupt.{
  int_off, system_mode, timer_int, disk_int, PendingInterrupt, Kernel, schedule, check_all,
}
use so.Machine.Interrupt.Due.{IsReady, Behaves, due, check_all_lem, schedule_lem}

-- A handler that asks for the next interrupt 100 ticks later, as the timer's does.
abbrev again : ℕ → ℕ → Kernel ℕ → Option (Kernel ℕ)
again h a k = schedule k h a 100 timer_int

again-Behaves : Behaves again
again-Behaves h a k v =
    let (_, k', e, v', t, d, _) = schedule_lem k h a 99 timer_int v in
    (k', e, v', t, omega (arith, d))

abbrev tick_of : ℕ → ListElement PendingInterrupt
tick_of when = element (record { handler = 0; arg = 0; when = when; kind = disk_int }) when

-- At time 50, two interrupts are due and one is not.
abbrev clock : Kernel ℕ
clock = record {
  level = int_off;
  pending = tick_of 30 ∷ tick_of 50 ∷ tick_of 60 ∷ [];
  in_handler = false;
  yield_on_return = false;
  status = system_mode;
  stats = record { total_ticks = 50; idle_ticks = 0; system_ticks = 50; user_ticks = 0 };
  rest = 0;
}

clock-IsReady : IsReady clock
clock-IsReady = record {
  off = refl;
  sorted = ((omega arith, (omega arith, tt)), ((omega arith, tt), (tt, tt)));
}

two_due : due clock ≡ 2
unfolding count_up_to
two_due = refl

check_all_lem_example :
    (k' : Kernel ℕ) × (check_all again suc 3 clock ≡ some k')
    × IsReady k'
    × (k'.status ≡ system_mode)
    × (k'.stats.total_ticks ≡ 50)
    × AllFrom 51 k'.pending
check_all_lem_example =
    check_all_lem again suc again-Behaves 3 clock clock-IsReady (λ e. cc) (omega (arith, two_due))
