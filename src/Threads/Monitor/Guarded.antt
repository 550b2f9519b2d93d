-- ===== src/Threads/Monitor/Guarded.antt =====
-- What a lock of threads/synch.cc gives to the code that runs under it.
use so.Prelude.{
  ℕ, ◌==◌, Option, none, some, ◌≡◌, ◌⊎◌, refl, arith, ◌∙◌, sym, ap, inl, inr, Bool-cases,
  Option-cases,
}
use so.Threads.Synch.{Store}
use so.Threads.Synch.Exclusion
use so.Threads.Synch.Exclusion.{System, Phase, inside, start, in_sem}
use so.Threads.Synch.Exclusion.Safety.{mutual_exclusion}
use so.Threads.Monitor
use so.Threads.Monitor.{Monitor, open_with, put_place}

module _ {D L : Type 0} (Body : ℕ → Option L → D → Option L → D → Type 0)
    (Env : D → D → Type 0) where
  system_reached :
      (fuel : ℕ) (st : Store) (d : D) (m : Monitor D L)
      → Monitor.Reach Body Env fuel (open_with st d) m
      → Exclusion.Reach fuel (start st) m.system
  unfolding open_with
  system_reached fuel st d _ Monitor.here = Exclusion.here
  system_reached fuel st d _ (Monitor.next r (Monitor.at_lock n s step _)) =
      Exclusion.next (system_reached fuel st d n r) step
  system_reached fuel st d _ (Monitor.next r (Monitor.body n _ _ _ _ _)) =
      system_reached fuel st d n r
  system_reached fuel st d _ (Monitor.next r (Monitor.interrupt n _ _)) =
      system_reached fuel st d n r

  -- What the guarded code keeps: `P o d` is to hold while `o` is the place of the thread that has the lock.
  pub record Keeps (P : Option L → D → Type 0) : Type 0 where
    pub by_body : (t : ℕ) (o o' : Option L) (d d' : D) → Body t o d o' d' → P o d → P o' d'
    pub by_interrupt : (o : Option L) (d d' : D) → Env d d' → P o d → P o d'

  -- At most one thread is in the middle of the guarded code, it has the lock, and `P` holds for its place.
  pub record IsOrderly (P : Option L → D → Type 0) (m : Monitor D L) : Type 0 where
    pub held : (t : ℕ) (l : L) → m.place t ≡ some l → m.system.phase t ≡ inside
    pub place : Option L
    pub only : (t : ℕ) (l : L) → m.place t ≡ some l → place ≡ some l
    pub whose : (place ≡ none) ⊎ ((t : ℕ) × (m.place t ≡ place))
    pub kept : P place m.guarded

  inside_alone :
      (fuel : ℕ) (st : Store) (d : D) (m : Monitor D L) (t u : ℕ)
      → Monitor.Reach Body Env fuel (open_with st d) m
      → m.system.phase t ≡ inside
      → m.system.phase u ≡ inside
      → t ≡ u
  inside_alone fuel st d m t u r a b =
      (mutual_exclusion fuel st m.system (system_reached fuel st d m r)).0 t u (rw a refl)
        (rw b refl)

  place_of_holder :
      (fuel : ℕ) (st : Store) (d : D) (P : Option L → D → Type 0) (m : Monitor D L) (t : ℕ)
      → Monitor.Reach Body Env fuel (open_with st d) m
      → m.system.phase t ≡ inside
      → (i : IsOrderly P m) → m.place t ≡ i.place
  place_of_holder fuel st d P m t r at i = elim (Option-cases (m.place t)) [
    | inr (l, e) ↦ e ∙ sym (i.only t l e)
    | inl e ↦ e ∙ elim i.whose [
      | inl z ↦ sym z
      | inr (u, w) ↦ elim (Option-cases i.place) [
        | inl z ↦ sym z
        | inr (l, z) ↦
            let same = inside_alone fuel st d m t u r at (i.held u l (w ∙ z)) in
            sym e ∙ ap m.place same ∙ w
      ]
    ]
  ]

  body-IsOrderly :
      (fuel : ℕ) (st : Store) (d : D) (P : Option L → D → Type 0) (m : Monitor D L) (t : ℕ)
      (o : Option L) (d' : D)
      → Keeps P
      → Monitor.Reach Body Env fuel (open_with st d) m
      → m.system.phase t ≡ inside
      → Body t (m.place t) m.guarded o d'
      → IsOrderly P m
      → IsOrderly P (put_place m t o d')
  body-IsOrderly fuel st d P m t o d' k r at b i = record {
    held = held';
    place = o;
    only = only';
    whose = inr (t, ground arith);
    kept =
        k.by_body t (m.place t) o m.guarded d' b
          (rw (place_of_holder fuel st d P m t r at i) i.kept);
  }
    where
      held' : (u : ℕ) (l : L) → (put_place m t o d').place u ≡ some l → m.system.phase u ≡ inside
      held' u l e = elim (Bool-cases (t == u)) [
        | inl y ↦ let same : t ≡ u = ground arith in ap m.system.phase (sym same) ∙ at
        | inr n ↦ i.held u l (ground arith)
      ]

      only' : (u : ℕ) (l : L) → (put_place m t o d').place u ≡ some l → o ≡ some l
      only' u l e = elim (Bool-cases (t == u)) [
        | inl y ↦ ground arith
        | inr n ↦
            let there : m.place u ≡ some l = ground arith in
            let same = inside_alone fuel st d m t u r at (i.held u l there) in absurd (ground arith)
      ]

  -- Whatever order threads take, the guarded code of one thread runs as if it were alone: what each of its steps and
  -- each interrupt keeps holds in every state that is reached.
  pub Reach-IsOrderly :
      (fuel : ℕ) (st : Store) (d : D) (P : Option L → D → Type 0) (m : Monitor D L)
      → Keeps P
      → P none d
      → Monitor.Reach Body Env fuel (open_with st d) m
      → IsOrderly P m
  unfolding open_with
  Reach-IsOrderly fuel st d P _ k start Monitor.here = record {
    held = λ t l e. absurd (cc);
    place = none;
    only = λ t l e. e;
    whose = inl refl;
    kept = start;
  }
  Reach-IsOrderly fuel st d P _ k start (Monitor.next r (Monitor.at_lock m s step stay)) =
      let i = Reach-IsOrderly fuel st d P m k start r in
      record {
        held = λ t l e. stay t l e ∙ i.held t l e;
        place = i.place;
        only = i.only;
        whose = i.whose;
        kept = i.kept;
      }
  Reach-IsOrderly fuel st d P _ k start (Monitor.next r (Monitor.body m t o d' at b)) =
      body-IsOrderly fuel st d P m t o d' k r at b (Reach-IsOrderly fuel st d P m k start r)
  Reach-IsOrderly fuel st d P _ k start (Monitor.next r (Monitor.interrupt m d' e)) =
      let i = Reach-IsOrderly fuel st d P m k start r in
      record {
        held = i.held;
        place = i.place;
        only = i.only;
        whose = i.whose;
        kept = k.by_interrupt i.place m.guarded d' e i.kept;
      }

  -- The thread that has the lock is at the place for which the data are as the code keeps them.
  pub at_place :
      (fuel : ℕ) (st : Store) (d : D) (P : Option L → D → Type 0) (m : Monitor D L) (t : ℕ)
      → Keeps P
      → P none d
      → Monitor.Reach Body Env fuel (open_with st d) m
      → m.system.phase t ≡ inside
      → P (m.place t) m.guarded
  at_place fuel st d P m t k start r at =
      let i = Reach-IsOrderly fuel st d P m k start r in
      rw (place_of_holder fuel st d P m t r at i) i.kept
