-- ===== src/Threads/Synch/Exclusion/Guard.antt =====
-- A semaphore of threads/synch.cc that lets one thread pass.
use so.Prelude.{
  ℕ, ◌+◌, ◌-◌, ◌==◌, if◌then◌else◌, Bool, true, false, some, ◌≡◌, ◌≢◌, ◌⊎◌, refl, arith, ◌∙◌, sym,
  inl, inr, Bool-cases,
}
use so.Threads.Synch.{Store, p_round, v_take, v, p_at, v_at, is_held_by}
use so.Threads.Synch.Exclusion.{Phase, System, put_phase, in_sem, in_inv, is_inside}

-- A semaphore of value 1 or 0, and the threads it has let pass: none, or one.
unfoldable pub IsGuarded : ℕ → (ℕ → Bool) → Type 0
IsGuarded value busy =
    ((value ≡ 1) × ((t : ℕ) → busy t ≡ false))
    ⊎ ((value ≡ 0) × ((o : ℕ) × (busy o ≡ true) × ((t : ℕ) → busy t ≡ true → t ≡ o)))

pub IsGuarded-same :
    (value value' : ℕ) (busy busy' : ℕ → Bool)
    → value' ≡ value
    → ((t : ℕ) → busy' t ≡ busy t)
    → IsGuarded value busy
    → IsGuarded value' busy'
unfolding IsGuarded
IsGuarded-same value value' busy busy' e same (inl (a, b)) = inl (e ∙ a, λ t. same t ∙ b t)
IsGuarded-same value value' busy busy' e same (inr (a, (o, b, c))) =
    inr (e ∙ a, (o, same o ∙ b, λ t z. c t (sym (same t) ∙ z)))

pub IsGuarded-take :
    (value : ℕ) (busy busy' : ℕ → Bool) (t : ℕ)
    → (value == 0) ≡ false
    → ((u : ℕ) → busy' u ≡ (if t == u then true else busy u))
    → IsGuarded value busy
    → IsGuarded (value - 1) busy'
unfolding IsGuarded
IsGuarded-take value busy busy' t free new (inl (a, b)) = inr (
  omega arith,
  (
    t,
    new t ∙ ground arith,
    λ u z. elim (Bool-cases (t == u)) [
      | inl e ↦ ground arith
      | inr e ↦ absurd (let y : true ≡ false = sym z ∙ new u ∙ rw e (b u) in cc)
    ],
  ),
)
IsGuarded-take value busy busy' t free new (inr (a, (o, b, c))) = ground arith

pub IsGuarded-free :
    (value : ℕ) (busy busy' : ℕ → Bool) (t : ℕ)
    → busy t ≡ true
    → ((u : ℕ) → busy' u ≡ (if t == u then false else busy u))
    → IsGuarded value busy
    → IsGuarded (value + 1) busy'
unfolding IsGuarded
IsGuarded-free value busy busy' t held new (inl (a, b)) = absurd (let z = sym held ∙ b t in cc)
IsGuarded-free value busy busy' t held new (inr (a, (o, b, c))) = inl (
  omega arith,
  λ u. new u ∙ elim (Bool-cases (t == u)) [
    | inl e ↦ rw e refl
    | inr e ↦ rw e (elim (Bool-cases (busy u)) [
      | inl w ↦ absurd (let x = c u w in let y = c t held in ground arith)
      | inr w ↦ w
    ])
  ],
)

-- The value of a semaphore of a store.
unfoldable pub value_at : Store → ℕ → ℕ
value_at st a = (st.semaphores a).value

pub value_at-v_at :
    (st st' : Store) (a : ℕ)
    → v_at st a ≡ some st'
    → (value_at st' a ≡ value_at st a + 1) × ((b : ℕ) → b ≢ a → value_at st' b ≡ value_at st b)
unfolding value_at v_at v v_take
value_at-v_at st st' a e = ground arith

pub value_at-p_at :
    (st : Store) (a t : ℕ)
    → (value_at ((p_at st a t).1) a ≡ value_at st a - (if (p_at st a t).0 then 1 else 0))
      × ((p_at st a t).0 ≡ (if value_at st a == 0 then false else true))
      × ((b : ℕ) → b ≢ a → value_at ((p_at st a t).1) b ≡ value_at st b)
unfolding value_at p_at p_round
value_at-p_at st a t = elim (Bool-cases ((st.semaphores a).value == 0)) [
  | inl e ↦ rw e (ground arith, refl, λ b ne. ground arith)
  | inr e ↦ rw e (ground arith, refl, λ b ne. ground arith)
]

pub phase_at :
    (f : Phase → Bool) (s : System) (t : ℕ) (p : Phase) (u : ℕ)
    → f ((put_phase s t p).phase u) ≡ (if t == u then f p else f (s.phase u))
phase_at f s t p u = elim (Bool-cases (t == u)) [ inl e ↦ rw e refl | inr e ↦ rw e refl ]

pub phase_same :
    (f : Phase → Bool) (s : System) (t : ℕ) (p : Phase) (u : ℕ)
    → f p ≡ f (s.phase t)
    → f ((put_phase s t p).phase u) ≡ f (s.phase u)
phase_same f s t p u e = phase_at f s t p u ∙ elim (Bool-cases (t == u)) [
  | inl h ↦ let same : t ≡ u = ground arith in rw h (e ∙ rw same refl)
  | inr h ↦ rw h refl
]

-- What holds in each state.
pub record IsSafe (s : System) : Type 0 where
  pub apart : s.lock.sem ≢ s.lock.sem_inv_p
  pub sem_guarded : IsGuarded (value_at s.store s.lock.sem) (λ t. in_sem (s.phase t))
  pub inv_guarded : IsGuarded (value_at s.store s.lock.sem_inv_p) (λ t. in_inv (s.phase t))
  pub held : (t : ℕ) → is_held_by s.lock t ≡ is_inside (s.phase t)

-- A thread that moves on without a semaphore and without the lock.
pub moved :
    (s : System) (t : ℕ) (p : Phase)
    → in_sem p ≡ in_sem (s.phase t)
    → in_inv p ≡ in_inv (s.phase t)
    → is_inside p ≡ is_inside (s.phase t)
    → IsSafe s
    → IsSafe (put_phase s t p)
moved s t p a b c i = record {
  apart = i.apart;
  sem_guarded =
      IsGuarded-same (value_at s.store s.lock.sem) (value_at s.store s.lock.sem)
        (λ u. in_sem (s.phase u)) (λ u. in_sem ((put_phase s t p).phase u)) refl
        (λ u. phase_same in_sem s t p u a) i.sem_guarded;
  inv_guarded =
      IsGuarded-same (value_at s.store s.lock.sem_inv_p) (value_at s.store s.lock.sem_inv_p)
        (λ u. in_inv (s.phase u)) (λ u. in_inv ((put_phase s t p).phase u)) refl
        (λ u. phase_same in_inv s t p u b) i.inv_guarded;
  held = λ u. i.held u ∙ sym (phase_same is_inside s t p u c);
}

-- Any change of the store that leaves the values of the two semaphores.
pub restored :
    (s : System) (st : Store)
    → value_at st s.lock.sem ≡ value_at s.store s.lock.sem
    → value_at st s.lock.sem_inv_p ≡ value_at s.store s.lock.sem_inv_p
    → IsSafe s
    → IsSafe (record s { store = st })
restored s st a b i = record {
  apart = i.apart;
  sem_guarded = rw a i.sem_guarded;
  inv_guarded = rw b i.inv_guarded;
  held = i.held;
}
