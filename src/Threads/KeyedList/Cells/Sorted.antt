-- ===== src/Threads/KeyedList/Cells/Sorted.antt =====
-- SortedInsert of threads/list.h, on cells and on the sequence of the elements.
use so.Prelude.{
  ℕ, ltb, ◌<◌, true, false, List, [], ◌∷◌, ◌++◌, Option, none, some, ◌≤◌, ◌≡◌, refl, arith, ◌∙◌,
  sym, ap, inl, inr, Bool-cases, length,
}
use so.Threads.KeyedList
use so.Threads.KeyedList.{ListElement, element, insert_after}
use so.Threads.KeyedList.Cells
use so.Threads.KeyedList.Cells.{
  Cell, CellList, CellMap, store, set_next, new_node, put_first, put_last, insert_loop, insert_into,
  take_first, only_element,
}
use so.Threads.KeyedList.Cells.Segment.{Avoids, cell_of, Segment}
use so.Threads.KeyedList.Cells.Loop.{insert_loop_lem, Outcome}
use so.Threads.KeyedList.Cells.Refine.{
  Represents, Yields, new_node-Represents, only-Represents, put_first-Represents,
  put_last-Represents,
}
use so.Threads.KeyedList.Cells.Operations.{is_empty-none, is_empty-some}

module _ {A : Type 0} where
  -- `SortedInsert` in front of the first element, and behind it.
  insert_into-before :
      (fuel : ℕ) (l : CellList A) (a b k : ℕ) (x : Cell A)
      → l.first ≡ some b
      → l.cell b ≡ some x
      → ltb k x.key ≡ true
      → insert_into fuel l a k ≡ put_first l a
  unfolding insert_into
  insert_into-before fuel l a b k x at here before = rw (at, here, before) refl

  insert_into-in :
      (fuel : ℕ) (l : CellList A) (a b k : ℕ) (x : Cell A) (c : CellMap A)
      → l.first ≡ some b
      → l.cell b ≡ some x
      → ltb k x.key ≡ false
      → insert_loop fuel l.cell b a k ≡ some (true, c)
      → insert_into fuel l a k ≡ some (record l { cell = c })
  unfolding insert_into
  insert_into-in fuel l a b k x c at here after run = rw (at, here, after, run) refl

  insert_into-end :
      (fuel : ℕ) (l : CellList A) (a b k : ℕ) (x : Cell A)
      → l.first ≡ some b
      → l.cell b ≡ some x
      → ltb k x.key ≡ false
      → insert_loop fuel l.cell b a k ≡ some (false, l.cell)
      → insert_into fuel l a k ≡ put_last l a
  unfolding insert_into
  insert_into-end fuel l a b k x at here after run = rw (at, here, after, run) refl

  Yields-along :
      (o o' : Option (CellList A)) (es es' : List (ListElement A))
      → o ≡ o'
      → es ≡ es'
      → Yields o' es'
      → Yields o es
  unfolding Yields
  Yields-along o o' es es' p q (l, vs, run, r) = (l, vs, p ∙ run, rw q r)

  sorted_insert-before :
      (y : ListElement A) (es : List (ListElement A)) (x : A) (k : ℕ)
      → ltb k y.key ≡ true
      → KeyedList.sorted_insert (y ∷ es) x k ≡ element x k ∷ y ∷ es
  unfolding KeyedList.sorted_insert
  sorted_insert-before y es x k before = rw before refl

  sorted_insert-after :
      (y : ListElement A) (es : List (ListElement A)) (x : A) (k : ℕ)
      → ltb k y.key ≡ false
      → KeyedList.sorted_insert (y ∷ es) x k ≡ y ∷ insert_after es x k
  unfolding KeyedList.sorted_insert
  sorted_insert-after y es x k after = rw after refl

  insert_into-Yields :
      (fuel : ℕ) (l : CellList A) (y : ListElement A) (es : List (ListElement A)) (a b : ℕ)
      (bs : List ℕ) (x : A) (k : ℕ)
      → length es < fuel
      → Represents l (y ∷ es) (b ∷ bs)
      → Avoids a (b ∷ bs)
      → l.cell a ≡ some (cell_of none (element x k))
      → Yields (insert_into fuel l a k) (KeyedList.sorted_insert (y ∷ es) x k)
  unfolding Segment Outcome Yields
  insert_into-Yields fuel l y es a b bs x k lt r v new =
      let e = element x k in
      let (n, at, here, s) = r.elements in
      let found = insert_loop_lem fuel l.cell b a n y e es bs lt here new s r.distinct v in
      elim (Bool-cases (ltb k y.key)) [
        | inl before ↦
            Yields-along (insert_into fuel l a k) (put_first l a)
              (KeyedList.sorted_insert (y ∷ es) x k) (e ∷ y ∷ es)
              (insert_into-before fuel l a b k (cell_of n y) at here before)
              (sorted_insert-before y es x k before)
              (put_first-Represents l e (y ∷ es) a b bs r v new)
        | inr after ↦ elim found [
          | inl (c, run, p) ↦ (
            record l { cell = c },
            b ∷ p.ws,
            insert_into-in fuel l a b k (cell_of n y) c at here after run,
            rw (sorted_insert-after y es x k after) (record {
              distinct = p.distinct;
              elements = (p.n, at, p.here, p.elements);
              ends = r.ends ∙ sym p.same_last;
            }),
          )
          | inr (run, same) ↦
              Yields-along (insert_into fuel l a k) (put_last l a)
                (KeyedList.sorted_insert (y ∷ es) x k) ((y ∷ es) ++ (e ∷ []))
                (insert_into-end fuel l a b k (cell_of n y) at here after run)
                (sorted_insert-after y es x k after ∙ ap (λ z. y ∷ z) same)
                (put_last-Represents l e (y ∷ es) a b bs r v new)
        ]
      ]

  pub sorted_insert-Yields :
      (fuel : ℕ) (l : CellList A) (es : List (ListElement A)) (vs : List ℕ) (a : ℕ) (x : A) (k : ℕ)
      → length es ≤ fuel
      → Represents l es vs
      → l.cell a ≡ none
      → Yields (Cells.sorted_insert fuel l a x k) (KeyedList.sorted_insert es x k)
  unfolding Segment Yields Cells.sorted_insert KeyedList.sorted_insert
  sorted_insert-Yields fuel l [] [] a x k le r free = (
    only_element (new_node l a x k) a,
    a ∷ [],
    rw (is_empty-none l r.elements) refl,
    only-Represents l a k x,
  )
  sorted_insert-Yields fuel l [] (b ∷ bs) a x k le r free = absurd (r.elements)
  sorted_insert-Yields fuel l (y ∷ es) [] a x k le r free = absurd (r.elements)
  sorted_insert-Yields fuel l (y ∷ es) (b ∷ bs) a x k le r free =
      let (n, at, there, s) = r.elements in
      let (r', v, new) = new_node-Represents l (y ∷ es) (b ∷ bs) a k x r free in
      let (l', vs, run, after) =
        insert_into-Yields fuel (new_node l a x k) y es a b bs x k (omega arith) r' v new in
      (l', vs, rw (is_empty-some l b at) run, after)
