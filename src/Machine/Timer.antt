-- ===== src/Machine/Timer.antt =====
-- machine/timer.h and machine/timer.cc: the timer that interrupts the CPU. `random` is what `Random()` of the
-- host returns, and the handler is the address that the interrupt is scheduled for.
use so.Prelude.{
  ℕ, ◌+◌, ◌*◌, ◌%◌, ◌<◌, Bool, Option, some, ◌≡◌, if◌then◌else◌, refl, arith, false, ◌>>=◌, inl,
  inr, Bool-cases,
}
use so.Machine.Interrupt.{Kernel, schedule, timer_int}

-- `TimerTicks` of machine/stats.h.
abbrev pub timer_ticks : ℕ
timer_ticks = 100

pub record Timer : Type 0 where
  pub randomize : Bool
  pub handler : ℕ
  pub arg : ℕ

unfoldable pub time_of_next_interrupt : Timer → ℕ → ℕ
time_of_next_interrupt t random =
    if t.randomize then 1 + random % (timer_ticks * 2) else timer_ticks

module _ {ℓ} {W : Type ℓ} (call : ℕ → ℕ → Kernel W → Option (Kernel W)) where
  -- `Timer::Timer`: `timer_handler` and `this` are the addresses of the routine and of the timer.
  unfoldable pub timer : ℕ → ℕ → ℕ → ℕ → Bool → ℕ → Kernel W → Option (Timer × Kernel W)
  timer timer_handler this handler arg randomize random k =
      let t : Timer = record { randomize = randomize; handler = handler; arg = arg } in
      do
        k' ← schedule k timer_handler this (time_of_next_interrupt t random) timer_int
        some (t, k')

  unfoldable pub timer_expired : ℕ → ℕ → Timer → ℕ → Kernel W → Option (Kernel W)
  timer_expired timer_handler this t random k = do
    k' ← schedule k timer_handler this (time_of_next_interrupt t random) timer_int
    call t.handler t.arg k'

-- The timer never asks for an interrupt at the time it is, whatever the host's random number: each `Schedule`
-- of it succeeds, and the next interrupt comes within twice `TimerTicks`, and in exactly `TimerTicks` if the
-- timer is not random.
pub time_of_next_interrupt-bounds :
    (t : Timer) (random : ℕ)
    → (0 < time_of_next_interrupt t random)
      × (time_of_next_interrupt t random < 2 * timer_ticks + 1)
      × (t.randomize ≡ false → time_of_next_interrupt t random ≡ timer_ticks)
unfolding time_of_next_interrupt
time_of_next_interrupt-bounds t random = elim (Bool-cases t.randomize) [
  | inl e ↦ rw e (omega arith, omega arith, λ b. cc)
  | inr e ↦ rw e (omega arith, omega arith, λ b. refl)
]
