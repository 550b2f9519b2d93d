-- ===== src/Threads/KeyedList/Cells/Operations.antt =====
-- Append, Prepend and SortedRemove of threads/list.h, on cells and on the sequence of the elements.
use so.Prelude.{
  ℕ, ◌==◌, true, false, List, [], ◌∷◌, Option, none, some, ◌>>=◌, ◌≡◌, ◌≢◌, refl, arith, ◌∙◌,
}
use so.Threads.KeyedList
use so.Threads.KeyedList.{ListElement, element, insert_after}
use so.Threads.KeyedList.Cells
use so.Threads.KeyedList.Cells.{
  Cell, CellList, CellMap, store, set_next, new_node, put_first, put_last, insert_loop, insert_into,
  take_first, only_element,
}
use so.Threads.KeyedList.Cells.Segment.{Distinct, cell_of, Segment, Segment-store, last-Avoids}
use so.Threads.KeyedList.Cells.Refine.{
  Represents, Yields, new_node-Represents, only-Represents, put_first-Represents,
  put_last-Represents, last_of-cons,
}

module _ {A : Type 0} where
  pub is_empty-none : (l : CellList A) → l.first ≡ none → Cells.is_empty l ≡ true
  unfolding Cells.is_empty
  is_empty-none l at = rw at refl

  pub is_empty-some : (l : CellList A) (b : ℕ) → l.first ≡ some b → Cells.is_empty l ≡ false
  unfolding Cells.is_empty
  is_empty-some l b at = rw at refl

  pub append-Yields :
      (l : CellList A) (es : List (ListElement A)) (vs : List ℕ) (a : ℕ) (x : A)
      → Represents l es vs
      → l.cell a ≡ none
      → Yields (Cells.append l a x) (KeyedList.append es x)
  unfolding Segment Yields Cells.append KeyedList.append
  append-Yields l [] [] a x r free = (
    only_element (new_node l a x 0) a,
    a ∷ [],
    rw (is_empty-none l r.elements) refl,
    only-Represents l a 0 x,
  )
  append-Yields l [] (b ∷ bs) a x r free = absurd (r.elements)
  append-Yields l (y ∷ es) [] a x r free = absurd (r.elements)
  append-Yields l (y ∷ es) (b ∷ bs) a x r free =
      let (n, at, there, s) = r.elements in
      let (r', v, new) = new_node-Represents l (y ∷ es) (b ∷ bs) a 0 x r free in
      let (l', vs, run, after) =
        put_last-Represents (new_node l a x 0) (element x 0) (y ∷ es) a b bs r' v new in
      (l', vs, rw (is_empty-some l b at) run, after)

  pub prepend-Yields :
      (l : CellList A) (es : List (ListElement A)) (vs : List ℕ) (a : ℕ) (x : A)
      → Represents l es vs
      → l.cell a ≡ none
      → Yields (Cells.prepend l a x) (KeyedList.prepend es x)
  unfolding Segment Yields Cells.prepend KeyedList.prepend
  prepend-Yields l [] [] a x r free = (
    only_element (new_node l a x 0) a,
    a ∷ [],
    rw (is_empty-none l r.elements) refl,
    only-Represents l a 0 x,
  )
  prepend-Yields l [] (b ∷ bs) a x r free = absurd (r.elements)
  prepend-Yields l (y ∷ es) [] a x r free = absurd (r.elements)
  prepend-Yields l (y ∷ es) (b ∷ bs) a x r free =
      let (n, at, there, s) = r.elements in
      let (r', v, new) = new_node-Represents l (y ∷ es) (b ∷ bs) a 0 x r free in
      let (l', vs, run, after) =
        put_first-Represents (new_node l a x 0) (element x 0) (y ∷ es) a b bs r' v new in
      (l', vs, rw (is_empty-some l b at) run, after)

  abbrev pub element_of : Cell A → ListElement A
  element_of x = element x.item x.key

  -- What `SortedRemove` takes from the cells and leaves in them.
  unfoldable pub Takes :
      Option (Option (Cell A) × CellList A) → Option (ListElement A) × List (ListElement A) → Type 0
  Takes o (e, es) =
      (x : Option (Cell A)) × (l : CellList A) × (vs : List ℕ) × (o ≡ some (x, l))
      × ((do y ← x; some (element_of y)) ≡ e)
      × Represents l es vs

  sorted_remove-none : (l : CellList A) → l.first ≡ none → Cells.sorted_remove l ≡ some (none, l)
  unfolding Cells.sorted_remove
  sorted_remove-none l at = rw at refl

  sorted_remove-only :
      (l : CellList A) (a : ℕ) (x : Cell A)
      → l.first ≡ some a
      → l.last ≡ some a
      → l.cell a ≡ some x
      → Cells.sorted_remove l
        ≡ some (some x, record { cell = store l.cell a none; first = none; last = none })
  unfolding Cells.sorted_remove take_first
  sorted_remove-only l a x at end here =
      let same : (a == a) ≡ true = ground arith in rw (at, end, here, same) refl

  sorted_remove-more :
      (l : CellList A) (a z : ℕ) (x : Cell A)
      → l.first ≡ some a
      → l.last ≡ some z
      → z ≢ a
      → l.cell a ≡ some x
      → Cells.sorted_remove l
        ≡ some (some x, record { cell = store l.cell a none; first = x.next; last = l.last })
  unfolding Cells.sorted_remove take_first
  sorted_remove-more l a z x at end apart here =
      let other : (a == z) ≡ false = ground (arith, apart) in rw (at, end, here, other) refl

  pub sorted_remove-Takes :
      (l : CellList A) (es : List (ListElement A)) (vs : List ℕ)
      → Represents l es vs
      → Takes (Cells.sorted_remove l) (KeyedList.sorted_remove es)
  unfolding Segment Distinct Takes KeyedList.sorted_remove
  sorted_remove-Takes l [] [] r = (none, l, [], sorted_remove-none l r.elements, refl, r)
  sorted_remove-Takes l [] (b ∷ bs) r = absurd (r.elements)
  sorted_remove-Takes l (y ∷ es) [] r = absurd (r.elements)
  sorted_remove-Takes l (y ∷ []) (b ∷ []) r =
      let (n, at, here, s) = r.elements in
      (
        some (cell_of n y),
        record { cell = store l.cell b none; first = none; last = none },
        [],
        sorted_remove-only l b (cell_of n y) at r.ends here,
        refl,
        record { distinct = tt; elements = refl; ends = refl },
      )
  sorted_remove-Takes l (y ∷ x ∷ es) (b ∷ []) r = let (n, at, here, s) = r.elements in absurd s
  sorted_remove-Takes l (y ∷ es) (b ∷ d ∷ bs) r =
      let (n, at, here, s) = r.elements in
      let (z, end) = last_of-cons d bs in
      let v = r.distinct.0 in
      (
        some (cell_of n y),
        record { cell = store l.cell b none; first = n; last = l.last },
        d ∷ bs,
        sorted_remove-more l b z (cell_of n y) at (r.ends ∙ end) (last-Avoids b z (d ∷ bs) v end)
            here,
        refl,
        record {
          distinct = r.distinct.1;
          elements = Segment-store l.cell n es (d ∷ bs) b none v s;
          ends = r.ends;
        },
      )
