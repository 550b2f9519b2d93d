-- ===== src/Userprog/Exception/Descriptors.antt =====
-- The descriptors that `AssignId` of userprog/exception.cc hands out.
use so.Prelude.{
  ℕ, zero, suc, ◌+◌, ◌≤◌, ◌<◌, leb, ◌&&◌, true, List, [], ◌∷◌, Option, none, some, get_elem?, set,
  length, length-set, get_elem?-set_self, get_elem?-set_ne, ◌≡◌, ◌≢◌, ◌⊎◌, refl, arith, ◌∙◌, sym,
  ap, inl, inr, ℕ_discrete,
}
use so.Filesys.FileSystem.{OpenFile}
use so.Userprog.Exception.{Process, put_result, free_id_from, assign_id, sys_close, file_of}
use so.Machine.Memory.{set_register}

-- Each entry below `n` is taken.
unfoldable pub IsFull : {A : Type 0} → List (Option A) → ℕ → Type 0
IsFull {A} ds n = (j : ℕ) → j < n → (f : A) × (get_elem? ds j ≡ some (some f))

pub free_id_from_lem :
    {A : Type 0} (ds : List (Option A)) (i : ℕ)
    → ((free_id_from ds i ≡ none) × IsFull ds (length ds))
      ⊎ ((k : ℕ) × (free_id_from ds i ≡ some (i + k))
          × (get_elem? ds k ≡ some none)
          × (k < length ds)
          × IsFull ds k)
unfolding free_id_from IsFull
free_id_from_lem [] i = inl (refl, λ j lt. ground arith)
free_id_from_lem (none ∷ ds) i =
    inr (0, ap some (omega arith), refl, omega arith, λ j lt. ground arith)
free_id_from_lem {A} (some f ∷ ds) i = elim (free_id_from_lem ds (suc i)) [
  | inl (e, full) ↦ inl (e, λ j lt. later j lt full)
  | inr (k, e, free, lt, full) ↦
      inr (suc k, e ∙ ap some (omega arith), free, omega arith, λ j l. later j l full)
]
  where
    later :
        {n : ℕ} (j : ℕ)
        → j < suc n
        → ((j : ℕ) → j < n → (g : A) × (get_elem? ds j ≡ some (some g)))
        → (g : A) × (get_elem? (some f ∷ ds) j ≡ some (some g))
    later zero lt full = (f, refl)
    later (suc j) lt full = full j (omega arith)

closed_again :
    (ds : List (Option OpenFile)) (i j : ℕ) (f : OpenFile)
    → get_elem? ds i ≡ some none
    → i < length ds
    → get_elem? (set (set ds i (some f)) i none) j ≡ get_elem? ds j
closed_again ds i j f free lt = elim (ℕ_discrete i j) [
  | yes y ↦ rw (sym y) (
      get_elem?-set_self (set ds i (some f)) i none (omega (arith, length-set ds i (some f)))
      ∙ sym free)
  | no n ↦ get_elem?-set_ne (set ds i (some f)) none n ∙ get_elem?-set_ne ds (some f) n
]

-- A process that calls `SC_Close` with the descriptor `i`.
abbrev pub closing : Process → List (Option OpenFile) → ℕ → Process
closing p ds i = record p { descriptors = ds; machine = set_register p.machine 4 i }

abbrev closed : Process → ℕ → Process
closed p i = put_result (record p { descriptors = set p.descriptors i none }) 0

close_eq :
    (p : Process) (f : OpenFile)
    → get_elem? p.descriptors (p.machine.registers 4) ≡ some (some f)
    → sys_close p ≡ some (closed p (p.machine.registers 4))
unfolding sys_close
close_eq p f there = rw there refl

-- `AssignId` in a table of `MAX_OPEN_FILES` entries. Where an entry from 3 on is free, the file gets such an entry, by
-- which `SC_Read` and `SC_Write` find it; the other entries stay, and `SC_Close` of it, by any process that has
-- the table, brings back the table that was. Where all of them are taken, the loop leaves the array.
pub assign_id_lem :
    (ds : List (Option OpenFile)) (f : OpenFile) (p : Process)
    → length ds ≡ 100
    → ((assign_id ds f ≡ none)
        × ((j : ℕ) → 3 ≤ j → j < 100 → (g : OpenFile) × (get_elem? ds j ≡ some (some g))))
      ⊎ ((i : ℕ) × (ds' : List (Option OpenFile)) × (assign_id ds f ≡ some (i, ds'))
          × (get_elem? ds i ≡ some none)
          × (file_of ds' i ≡ some f)
          × ((j : ℕ) → i ≢ j → get_elem? ds' j ≡ get_elem? ds j)
          × (p' : Process) × (sys_close (closing p ds' i) ≡ some p')
          × ((j : ℕ) → get_elem? p'.descriptors j ≡ get_elem? ds j))
unfolding assign_id IsFull file_of
assign_id_lem [] f p e = absurd (omega (arith, e))
assign_id_lem (a ∷ []) f p e = absurd (omega (arith, e))
assign_id_lem (a ∷ b ∷ []) f p e = absurd (omega (arith, e))
assign_id_lem (a ∷ b ∷ c ∷ ds) f p e = elim (free_id_from_lem ds 3) [
  | inl (none_free, full) ↦ inl (rw none_free refl, λ j lo hi. all j lo hi full)
  | inr (k, found, free, lt, _) ↦
      let i = suc (suc (suc k)) in
      let found' : free_id_from ds 3 ≡ some i = found ∙ ap some (omega arith) in
      inr (
        i,
        set table i (some f),
        rw found' refl,
        free,
        by_id k lt,
        (λ j ne. get_elem?-set_ne table (some f) ne),
        closed (closing p (set table i (some f)) i) i,
        close_eq (closing p (set table i (some f)) i) f
            (get_elem?-set_self table i (some f) (omega arith)),
        λ j. closed_again table i j f free (omega arith),
      )
]
  where
    table : List (Option OpenFile)
    table = a ∷ b ∷ c ∷ ds

    all :
        (j : ℕ)
        → 3 ≤ j
        → j < 100
        → ((j : ℕ) → j < length ds → (g : OpenFile) × (get_elem? ds j ≡ some (some g)))
        → (g : OpenFile) × (get_elem? table j ≡ some (some g))
    all zero lo hi full = absurd (omega arith)
    all (suc zero) lo hi full = absurd (omega arith)
    all (suc (suc zero)) lo hi full = absurd (omega arith)
    all (suc (suc (suc j))) lo hi full = full j (omega (arith, e))

    by_id :
        (k : ℕ)
        → k < length ds
        → file_of (set table (suc (suc (suc k))) (some f)) (suc (suc (suc k))) ≡ some f
    by_id k lt =
        let low : (leb 3 (suc (suc (suc k))) && leb (suc (suc (suc k))) 100) ≡ true =
          ground (arith, e) in
        let at = get_elem?-set_self table (suc (suc (suc k))) (some f) (omega arith) in
        rw (low, at) refl
