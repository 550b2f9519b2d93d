-- ===== src/Threads/KeyedList/Cells/Segment.antt =====
-- The elements of threads/list.h that a pointer leads to.
use so.Prelude.{ℕ, ◌==◌, false, List, [], ◌∷◌, Option, none, some, ◌≡◌, ◌≢◌, arith, ◌∙◌, sym, ap}
use so.Threads.KeyedList.{ListElement}
use so.Threads.KeyedList.Cells.{Cell, CellMap, store}

-- No address of the list is `a`; no two are the same; the last one.
unfoldable pub Avoids : ℕ → List ℕ → Type 0
Avoids a [] = Unit
Avoids a (b ∷ bs) = (b ≢ a) × Avoids a bs

unfoldable pub Distinct : List ℕ → Type 0
Distinct [] = Unit
Distinct (a ∷ vs) = Avoids a vs × Distinct vs

abbrev pub last_of : List ℕ → Option ℕ
last_of [] = none
last_of (a ∷ []) = some a
last_of (a ∷ b ∷ vs) = last_of (b ∷ vs)

module _ {A : Type 0} where
  abbrev pub cell_of : Option ℕ → ListElement A → Cell A
  cell_of n e = record { next = n; key = e.key; item = e.item }

  -- From the pointer `p` on stand the elements `es`, in cells at the addresses `vs`.
  unfoldable pub Segment : CellMap A → Option ℕ → List (ListElement A) → List ℕ → Type 0
  Segment c p [] [] = p ≡ none
  Segment c p (e ∷ es) (a ∷ vs) =
      (n : Option ℕ) × (p ≡ some a) × (c a ≡ some (cell_of n e)) × Segment c n es vs
  Segment c p es vs = ⊥

  -- A change of a cell elsewhere leaves the elements.
  pub Segment-store :
      (c : CellMap A) (p : Option ℕ) (es : List (ListElement A)) (vs : List ℕ) (a : ℕ)
      (x : Option (Cell A))
      → Avoids a vs
      → Segment c p es vs
      → Segment (store c a x) p es vs
  unfolding Segment Avoids
  Segment-store c p [] [] a x v s = s
  Segment-store c p [] (b ∷ bs) a x v s = s
  Segment-store c p (e ∷ es) [] a x v s = s
  Segment-store c p (e ∷ es) (b ∷ bs) a x v (n, at, here, s) =
      let other : (a == b) ≡ false = ground (arith, v.0) in
      (n, at, rw other here, Segment-store c n es bs a x v.1 s)

  -- A free address is none of theirs.
  pub Segment-Avoids :
      (c : CellMap A) (p : Option ℕ) (es : List (ListElement A)) (vs : List ℕ) (a : ℕ)
      → c a ≡ none
      → Segment c p es vs
      → Avoids a vs
  unfolding Segment Avoids
  Segment-Avoids c p [] [] a free s = tt
  Segment-Avoids c p [] (b ∷ bs) a free s = absurd s
  Segment-Avoids c p (e ∷ es) [] a free s = absurd s
  Segment-Avoids c p (e ∷ es) (b ∷ bs) a free (n, at, here, s) = (
    λ same. absurd (let z = sym here ∙ ap c same ∙ free in cc),
    Segment-Avoids c n es bs a free s,
  )

pub last-Avoids : (a z : ℕ) (vs : List ℕ) → Avoids a vs → last_of vs ≡ some z → z ≢ a
unfolding Avoids
last-Avoids a z [] v e same = absurd (cc)
last-Avoids a z (b ∷ []) v e same = v.0 (let y : b ≡ z = cc in y ∙ same)
last-Avoids a z (b ∷ d ∷ bs) v e same = last-Avoids a z (d ∷ bs) v.1 e same
