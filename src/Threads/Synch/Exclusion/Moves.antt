-- ===== src/Threads/Synch/Exclusion/Moves.antt =====
-- That each operation on a `Lock` of threads/synch.cc keeps what holds in each state.
use so.Prelude.{
  ℕ, ◌==◌, if◌then◌else◌, Bool, true, false, Option, some, ◌≡◌, refl, arith, ◌∙◌, sym, inl, inr,
  Bool-cases,
}
use so.Threads.Scheduler.{Scheduler}
use so.Threads.Synch.{Store, v, p_at, v_at, is_held_by}
use so.Threads.Synch.Exclusion.{
  outside, before_inv, donating, before_sem, past_sem, inside, leaving, Phase, System, put_phase,
  after_p, in_sem, in_inv, is_inside,
}
use so.Threads.Synch.Exclusion.Guard.{
  IsGuarded, IsGuarded-same, IsGuarded-take, IsGuarded-free, value_at, value_at-v_at, value_at-p_at,
  phase_at, phase_same, IsSafe, restored,
}

pub p_sem_lem :
    (s : System) (t : ℕ)
    → s.phase t ≡ before_sem
    → IsSafe s
    → IsSafe (after_p s s.lock.sem t past_sem)
unfolding after_p
p_sem_lem s t at i =
    let (v, b, o) = value_at-p_at s.store s.lock.sem t in
    let inv = o s.lock.sem_inv_p (λ e. i.apart (sym e)) in
    elim (Bool-cases ((p_at s.store s.lock.sem t).0)) [
      | inl e ↦
          rw (after_p, e)
            record {
              apart = i.apart;
              sem_guarded = rw v (
                  rw e (
                    IsGuarded-take (value_at s.store s.lock.sem) (λ u. in_sem (s.phase u))
                      (λ u. in_sem ((put_phase s t past_sem).phase u)) t
                      (let z = sym e ∙ b in ground arith) (λ u. phase_at in_sem s t past_sem u)
                      i.sem_guarded));
              inv_guarded = rw inv (
                  IsGuarded-same (value_at s.store s.lock.sem_inv_p)
                    (value_at s.store s.lock.sem_inv_p) (λ u. in_inv (s.phase u))
                    (λ u. in_inv ((put_phase s t past_sem).phase u)) refl
                    (λ u. phase_same in_inv s t past_sem u (rw at refl)) i.inv_guarded);
              held = λ u. i.held u ∙ sym (phase_same is_inside s t past_sem u (rw at refl));
            }
      | inr e ↦
          rw (after_p, e) (restored s ((p_at s.store s.lock.sem t).1) (v ∙ rw e omega arith) inv i)
    ]

pub p_inv_lem :
    (s : System) (t : ℕ)
    → s.phase t ≡ before_inv
    → IsSafe s
    → IsSafe (after_p s s.lock.sem_inv_p t donating)
unfolding after_p
p_inv_lem s t at i =
    let (v, b, o) = value_at-p_at s.store s.lock.sem_inv_p t in
    let sem = o s.lock.sem i.apart in
    elim (Bool-cases ((p_at s.store s.lock.sem_inv_p t).0)) [
      | inl e ↦
          rw (after_p, e)
            record {
              apart = i.apart;
              inv_guarded = rw v (
                  rw e (
                    IsGuarded-take (value_at s.store s.lock.sem_inv_p) (λ u. in_inv (s.phase u))
                      (λ u. in_inv ((put_phase s t donating).phase u)) t
                      (let z = sym e ∙ b in ground arith) (λ u. phase_at in_inv s t donating u)
                      i.inv_guarded));
              sem_guarded = rw sem (
                  IsGuarded-same (value_at s.store s.lock.sem) (value_at s.store s.lock.sem)
                    (λ u. in_sem (s.phase u)) (λ u. in_sem ((put_phase s t donating).phase u)) refl
                    (λ u. phase_same in_sem s t donating u (rw at refl)) i.sem_guarded);
              held = λ u. i.held u ∙ sym (phase_same is_inside s t donating u (rw at refl));
            }
      | inr e ↦
          rw (after_p, e)
            (restored s ((p_at s.store s.lock.sem_inv_p t).1) sem (v ∙ rw e omega arith) i)
    ]

pub v_inv_lem :
    (s : System) (t : ℕ) (sched : Scheduler) (st : Store)
    → s.phase t ≡ donating
    → v_at (record s.store { sched = sched }) s.lock.sem_inv_p ≡ some st
    → IsSafe s
    → IsSafe (put_phase (record s { store = st }) t before_sem)
unfolding value_at
v_inv_lem s t sched st at e i =
    let (v, o) = value_at-v_at (record s.store { sched = sched }) st s.lock.sem_inv_p e in
    record {
      apart = i.apart;
      inv_guarded = rw v (
          IsGuarded-free (value_at s.store s.lock.sem_inv_p) (λ u. in_inv (s.phase u))
            (λ u. in_inv ((put_phase s t before_sem).phase u)) t (rw at refl)
            (λ u. phase_at in_inv s t before_sem u) i.inv_guarded);
      sem_guarded = rw (o s.lock.sem i.apart) (
          IsGuarded-same (value_at s.store s.lock.sem) (value_at s.store s.lock.sem)
            (λ u. in_sem (s.phase u)) (λ u. in_sem ((put_phase s t before_sem).phase u)) refl
            (λ u. phase_same in_sem s t before_sem u (rw at refl)) i.sem_guarded);
      held = λ u. i.held u ∙ sym (phase_same is_inside s t before_sem u (rw at refl));
    }

pub v_sem_lem :
    (s : System) (t : ℕ) (st : Store)
    → s.phase t ≡ leaving
    → v_at s.store s.lock.sem ≡ some st
    → IsSafe s
    → IsSafe (put_phase (record s { store = st }) t outside)
v_sem_lem s t st at e i =
    let (v, o) = value_at-v_at s.store st s.lock.sem e in
    record {
      apart = i.apart;
      sem_guarded = rw v (
          IsGuarded-free (value_at s.store s.lock.sem) (λ u. in_sem (s.phase u))
            (λ u. in_sem ((put_phase s t outside).phase u)) t (rw at refl)
            (λ u. phase_at in_sem s t outside u) i.sem_guarded);
      inv_guarded = rw (o s.lock.sem_inv_p (λ z. i.apart (sym z))) (
          IsGuarded-same (value_at s.store s.lock.sem_inv_p) (value_at s.store s.lock.sem_inv_p)
            (λ u. in_inv (s.phase u)) (λ u. in_inv ((put_phase s t outside).phase u)) refl
            (λ u. phase_same in_inv s t outside u (rw at refl)) i.inv_guarded);
      held = λ u. i.held u ∙ sym (phase_same is_inside s t outside u (rw at refl));
    }

inside-in_sem : (p : Phase) → is_inside p ≡ true → in_sem p ≡ true
inside-in_sem outside e = cc
inside-in_sem before_inv e = cc
inside-in_sem donating e = cc
inside-in_sem before_sem e = cc
inside-in_sem past_sem e = refl
inside-in_sem inside e = refl
inside-in_sem leaving e = refl

-- Nobody else holds the lock while a thread is past the `P`.
pub alone :
    (value : ℕ) (busy : ℕ → Bool) (t u : ℕ)
    → IsGuarded value busy
    → busy t ≡ true
    → busy u ≡ true
    → t ≡ u
unfolding IsGuarded
alone value busy t u (inl (a, b)) x y = absurd (let z : true ≡ false = sym x ∙ b t in cc)
alone value busy t u (inr (a, (o, b, c))) x y = c t x ∙ sym (c u y)

held_after :
    (s : System) (t : ℕ) (h : Option ℕ) (p : Phase)
    → in_sem (s.phase t) ≡ true
    → ((u : ℕ)
        → is_held_by (record s.lock { holder = h }) u ≡ (if t == u then is_inside p else false))
    → IsSafe s
    → (u : ℕ) → is_held_by (record s.lock { holder = h }) u ≡ is_inside ((put_phase s t p).phase u)
held_after s t h p busy new i u =
    new u
    ∙ sym (
        phase_at is_inside s t p u ∙ elim (Bool-cases (t == u)) [
          | inl e ↦ rw e refl
          | inr e ↦ rw e (elim (Bool-cases (is_inside (s.phase u))) [
            | inl w ↦ absurd (
                let z =
                  alone (value_at s.store s.lock.sem) (λ u. in_sem (s.phase u)) t u i.sem_guarded
                    busy (inside-in_sem (s.phase u) w) in
                ground arith)
            | inr w ↦ w
          ])
        ])

pub reowned :
    (s : System) (t : ℕ) (h : Option ℕ) (p : Phase)
    → in_sem (s.phase t) ≡ true
    → in_sem p ≡ true
    → in_inv p ≡ in_inv (s.phase t)
    → ((u : ℕ)
        → is_held_by (record s.lock { holder = h }) u ≡ (if t == u then is_inside p else false))
    → IsSafe s
    → IsSafe (put_phase (record s { lock = record s.lock { holder = h } }) t p)
reowned s t h p a b c new i = record {
  apart = i.apart;
  sem_guarded =
      IsGuarded-same (value_at s.store s.lock.sem) (value_at s.store s.lock.sem)
        (λ u. in_sem (s.phase u)) (λ u. in_sem ((put_phase s t p).phase u)) refl
        (λ u. phase_same in_sem s t p u (b ∙ sym a)) i.sem_guarded;
  inv_guarded =
      IsGuarded-same (value_at s.store s.lock.sem_inv_p) (value_at s.store s.lock.sem_inv_p)
        (λ u. in_inv (s.phase u)) (λ u. in_inv ((put_phase s t p).phase u)) refl
        (λ u. phase_same in_inv s t p u c) i.inv_guarded;
  held = λ u. held_after s t h p a new i u;
}
