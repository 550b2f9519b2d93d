-- ===== src/Threads/KeyedList/Cells/Insert.antt =====
-- Elements that are put into the cells of threads/list.h: at the end, and behind an element.
use so.Prelude.{ℕ, List, [], ◌∷◌, ◌++◌, Option, none, some, ◌≡◌, ◌≢◌, refl, ◌∙◌, sym, ap}
use so.Threads.KeyedList.{ListElement}
use so.Threads.KeyedList.Cells.{Cell, CellMap}
use so.Threads.KeyedList.Cells.Segment.{Avoids, Distinct, last_of, cell_of, Segment, last-Avoids}

pub last_of-append : (vs : List ℕ) (a : ℕ) → last_of (vs ++ (a ∷ [])) ≡ some a
last_of-append [] a = refl
last_of-append (b ∷ []) a = refl
last_of-append (b ∷ d ∷ bs) a = last_of-append (d ∷ bs) a

Avoids-append : (b a : ℕ) (vs : List ℕ) → Avoids b vs → a ≢ b → Avoids b (vs ++ (a ∷ []))
unfolding Avoids
Avoids-append b a [] v ne = (ne, tt)
Avoids-append b a (d ∷ bs) v ne = (v.0, Avoids-append b a bs v.1 ne)

pub Distinct-append : (vs : List ℕ) (a : ℕ) → Distinct vs → Avoids a vs → Distinct (vs ++ (a ∷ []))
unfolding Distinct Avoids
Distinct-append [] a d v = (tt, tt)
Distinct-append (b ∷ bs) a d v =
    (Avoids-append b a bs d.0 (λ e. v.0 (sym e)), Distinct-append bs a d.1 v.1)

module _ {A : Type 0} where
  pub last_cell :
      (c : CellMap A) (p : Option ℕ) (es : List (ListElement A)) (vs : List ℕ) (z : ℕ)
      → Segment c p es vs
      → last_of vs ≡ some z
      → (x : Cell A) × (c z ≡ some x)
  unfolding Segment
  last_cell c p [] [] z s e = absurd (cc)
  last_cell c p [] (b ∷ bs) z s e = absurd s
  last_cell c p (y ∷ es) [] z s e = absurd s
  last_cell c p (y ∷ es) (b ∷ []) z (n, at, here, s) e =
      let same : b ≡ z = cc in (cell_of n y, ap c (sym same) ∙ here)
  last_cell c p (y ∷ es) (b ∷ d ∷ bs) z (n, at, here, s) e = last_cell c n es (d ∷ bs) z s e

  -- What relinks the cell `z` to a new cell at `a`.
  pub record Links (c c' : CellMap A) (a z : ℕ) (e : ListElement A) (n : Option ℕ) : Type 0 where
    pub new : c' a ≡ some (cell_of n e)
    pub linked : (x : Cell A) → c z ≡ some x → c' z ≡ some (record x { next = some a })
    pub others : (b : ℕ) → b ≢ a → b ≢ z → c' b ≡ c b

  -- A cell that follows the last one is at the end.
  pub linked_last :
      (c c' : CellMap A) (p : Option ℕ) (es : List (ListElement A)) (vs : List ℕ) (a z : ℕ)
      (e : ListElement A)
      → Links c c' a z e none
      → Segment c p es vs
      → Distinct vs
      → Avoids a vs
      → last_of vs ≡ some z
      → Segment c' p (es ++ (e ∷ [])) (vs ++ (a ∷ []))
  unfolding Segment Distinct Avoids
  linked_last c c' p [] [] a z e l s d v end = absurd (cc)
  linked_last c c' p [] (b ∷ bs) a z e l s d v end = absurd s
  linked_last c c' p (y ∷ es) [] a z e l s d v end = absurd s
  linked_last c c' p (y ∷ []) (b ∷ []) a z e l (n, at, here, s) d v end =
      let same : b ≡ z = cc in
      let here' : c' b ≡ some (cell_of (some a) y) =
        ap c' same ∙ l.linked (cell_of n y) (ap c (sym same) ∙ here) in
      (some a, at, here', (none, refl, l.new, refl))
  linked_last c c' p (y ∷ x ∷ es) (b ∷ []) a z e l (n, at, here, s) d v end = absurd s
  linked_last c c' p (y ∷ es) (b ∷ f ∷ bs) a z e l (n, at, here, s) d v end =
      let ne = last-Avoids b z (f ∷ bs) d.0 end in
      (
        n,
        at,
        l.others b v.0 (λ q. ne (sym q)) ∙ here,
        linked_last c c' n es (f ∷ bs) a z e l s d.1 v.1 end,
      )
