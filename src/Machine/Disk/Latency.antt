-- ===== src/Machine/Disk/Latency.antt =====
-- How long a request of machine/disk.cc takes.
use so.Prelude.{
  ℕ, ◌+◌, ◌-◌, ◌*◌, ◌/◌, ◌%◌, ◌≤◌, ◌<◌, ltb, if◌then◌else◌, ◌&&◌, Bool, true, false, not, ◌≡◌, ◌⊎◌,
  refl, arith, inl, inr, Bool-cases,
}
use so.Machine.Disk.{Disk, compute_latency, time_to_seek, modulo_diff, in_track_buffer, distance}

-- Sector `sector` starts to pass under the head at time `t`.
abbrev pub Passes : ℕ → ℕ → Type 0
Passes sector t = (t % 500 ≡ 0) × ((t / 500) % 32 ≡ sector % 32)

rounded : (t : ℕ) → (t + (if ltb 0 (t % 500) then 500 - t % 500 else 0)) % 500 ≡ 0
rounded t = ground arith

ahead : (to q : ℕ) → (q + (to % 32 + 32 - q % 32) % 32) % 32 ≡ to % 32
ahead to q = omega arith

arrives :
    (sector time : ℕ)
    → time % 500 ≡ 0
    → Passes sector (time + modulo_diff sector (time / 500) * 500)
unfolding modulo_diff
arrives sector time e =
    let d = (sector % 32 + 32 - (time / 500) % 32) % 32 in
    let q : (time + d * 500) / 500 ≡ time / 500 + d = omega arith in
    (omega arith, rw q (ahead sector (time / 500)))

time_to_seek-bounds :
    (d : Disk) (ticks sector : ℕ)
    → d.last_sector < 1024
    → sector < 1024
    → ((time_to_seek d ticks sector).0 ≤ 15500) × ((time_to_seek d ticks sector).1 ≤ 499)
unfolding time_to_seek
time_to_seek-bounds d ticks sector last small = (ground arith, ground arith)

modulo_diff-bound : (to from : ℕ) → modulo_diff to from ≤ 31
unfolding modulo_diff
modulo_diff-bound to from = omega arith

-- Sector `sector` is in the track buffer at time `t`: all of it has passed under the head since the buffer
-- was started.
abbrev pub Buffered : Disk → ℕ → ℕ → Type 0
Buffered d sector t = (u : ℕ) × (d.buffer_init ≤ u) × (u + 500 ≤ t) × Passes sector u

-- When the head is over the track and a sector starts to pass.
abbrev pub over_track : Disk → ℕ → ℕ → ℕ
over_track d ticks sector =
    ticks + (time_to_seek d ticks sector).0 + (time_to_seek d ticks sector).1

pub over_track_lem : (d : Disk) (ticks sector : ℕ) → over_track d ticks sector % 500 ≡ 0
unfolding time_to_seek
over_track_lem d ticks sector = rounded (ticks + distance (sector / 32) (d.last_sector / 32) * 500)

pub compute_latency_lem :
    (d : Disk) (ticks sector : ℕ) (writing : Bool)
    → d.buffer_init % 500 ≡ 0
    → d.last_sector < 1024
    → sector < 1024
    → (500 ≤ compute_latency d ticks sector writing)
      × (compute_latency d ticks sector writing ≤ 31999)
      × (Passes sector (ticks + compute_latency d ticks sector writing - 500)
          ⊎ ((writing ≡ false)
              × (compute_latency d ticks sector writing ≡ 500)
              × Buffered d sector (over_track d ticks sector)))
unfolding compute_latency
compute_latency_lem d ticks sector writing aligned last small =
    elim (Bool-cases (
      not writing
      && in_track_buffer d (time_to_seek d ticks sector).0 (over_track d ticks sector) sector)) [
        | inl e ↦
            rw e (omega arith, omega arith, inr (ground arith, refl, in_buffer (ground arith)))
        | inr e ↦ rw e (
          omega arith,
          bound,
          inl (
              rw in_order
                (arrives sector (over_track d ticks sector) (over_track_lem d ticks sector))),
        )
      ]
  where
    wait : ℕ
    wait = modulo_diff sector (over_track d ticks sector / 500)

    bound :
        (time_to_seek d ticks sector).0 + ((time_to_seek d ticks sector).1 + wait * 500) + 500
        ≤ 31999
    bound =
        let b = time_to_seek-bounds d ticks sector last small in
        let b₂ = modulo_diff-bound sector (over_track d ticks sector / 500) in omega arith

    in_order :
        ticks
          + ((time_to_seek d ticks sector).0 + ((time_to_seek d ticks sector).1 + wait * 500) + 500)
          - 500
        ≡ over_track d ticks sector + wait * 500
    in_order = omega arith

    in_buffer :
        ltb
            (modulo_diff sector (d.buffer_init / 500))
            ((over_track d ticks sector - d.buffer_init) / 500)
          ≡ true
        → Buffered d sector (over_track d ticks sector)
    in_buffer lt =
        let m = modulo_diff sector (d.buffer_init / 500) in
        (d.buffer_init + m * 500, omega arith, ground arith, arrives sector d.buffer_init aligned)
