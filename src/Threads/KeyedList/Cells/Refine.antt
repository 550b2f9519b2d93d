-- ===== src/Threads/KeyedList/Cells/Refine.antt =====
-- The operations of threads/list.h on cells, against those on the sequence of the elements.
use so.Prelude.{
  ℕ, ◌==◌, false, List, [], ◌∷◌, ◌++◌, Option, none, some, ◌≡◌, ◌≢◌, refl, arith, ◌∙◌, sym,
}
use so.Threads.KeyedList.{ListElement, element}
use so.Threads.KeyedList.Cells.{
  Cell, CellList, CellMap, store, set_next, new_node, put_first, put_last, only_element,
}
use so.Threads.KeyedList.Cells.Segment.{
  Avoids, Distinct, last_of, cell_of, Segment, Segment-store, Segment-Avoids, last-Avoids,
}
use so.Threads.KeyedList.Cells.Insert.{
  last_of-append, Distinct-append, last_cell, Links, linked_last,
}

-- The cells at the addresses `vs`, all different, hold `es` in order, and `last` is the last of them.
pub record Represents {A : Type 0} (l : CellList A) (es : List (ListElement A)) (vs : List ℕ)
    : Type 0 where
  pub distinct : Distinct vs
  pub elements : Segment l.cell l.first es vs
  pub ends : l.last ≡ last_of vs

pub last_of-cons : (b : ℕ) (bs : List ℕ) → (z : ℕ) × (last_of (b ∷ bs) ≡ some z)
last_of-cons b [] = (b, refl)
last_of-cons b (d ∷ bs) = last_of-cons d bs

module _ {A : Type 0} where
  -- The outcome of an operation: cells that hold `es`.
  unfoldable pub Yields : Option (CellList A) → List (ListElement A) → Type 0
  Yields o es = (l : CellList A) × (vs : List ℕ) × (o ≡ some l) × Represents l es vs

  -- A new cell at a free address leaves the elements.
  pub new_node-Represents :
      (l : CellList A) (es : List (ListElement A)) (vs : List ℕ) (a k : ℕ) (x : A)
      → Represents l es vs
      → l.cell a ≡ none
      → Represents (new_node l a x k) es vs
        × Avoids a vs
        × ((new_node l a x k).cell a ≡ some (cell_of none (element x k)))
  unfolding new_node
  new_node-Represents l es vs a k x r free =
      let v = Segment-Avoids l.cell l.first es vs a free r.elements in
      (
        record {
          distinct = r.distinct;
          elements =
              Segment-store l.cell l.first es vs a (some (cell_of none (element x k))) v r.elements;
          ends = r.ends;
        },
        v,
        ground arith,
      )

  pub only-Represents :
      (l : CellList A) (a k : ℕ) (x : A)
      → Represents (only_element (new_node l a x k) a) (element x k ∷ []) (a ∷ [])
  unfolding new_node Segment Distinct Avoids
  only-Represents l a k x = record {
    distinct = (tt, tt);
    elements = (none, refl, ground arith, refl);
    ends = refl;
  }

  pub put_first-Represents :
      (l : CellList A) (e : ListElement A) (es : List (ListElement A)) (a b : ℕ) (bs : List ℕ)
      → Represents l es (b ∷ bs)
      → Avoids a (b ∷ bs)
      → l.cell a ≡ some (cell_of none e)
      → Yields (put_first l a) (e ∷ es)
  unfolding put_first set_next Segment Distinct Avoids Yields
  put_first-Represents l e es a b bs r v new =
      let c = store l.cell a (some (cell_of l.first e)) in
      let s = Segment-store l.cell l.first es (b ∷ bs) a (some (cell_of l.first e)) v r.elements in
      (
        record l { cell = c; first = some a },
        a ∷ b ∷ bs,
        rw new refl,
        record {
          distinct = (v, r.distinct);
          elements = (l.first, refl, ground arith, s);
          ends = r.ends;
        },
      )

  -- The link that `put_last` sets at the last cell.
  store-Links :
      (c : CellMap A) (a z : ℕ) (e : ListElement A) (x : Cell A)
      → z ≢ a
      → c z ≡ some x
      → c a ≡ some (cell_of none e)
      → Links c (store c z (some (record x { next = some a }))) a z e none
  store-Links c a z e x apart here new =
      let other : (z == a) ≡ false = ground (arith, apart) in
      record {
        new = rw other new;
        linked = λ y at. let same : x ≡ y = (let w = sym here ∙ at in cc) in rw same (ground arith);
        others = λ d p q. let away : (z == d) ≡ false = ground (arith, q) in rw away refl;
      }

  put_last-run :
      (l : CellList A) (a z : ℕ) (x : Cell A)
      → l.last ≡ some z
      → l.cell z ≡ some x
      → put_last l a
        ≡ some
            (record l { cell = store l.cell z (some (record x { next = some a })); last = some a })
  unfolding put_last set_next
  put_last-run l a z x at here = rw (at, here) refl

  pub put_last-Represents :
      (l : CellList A) (e : ListElement A) (es : List (ListElement A)) (a b : ℕ) (bs : List ℕ)
      → Represents l es (b ∷ bs)
      → Avoids a (b ∷ bs)
      → l.cell a ≡ some (cell_of none e)
      → Yields (put_last l a) (es ++ (e ∷ []))
  unfolding Yields
  put_last-Represents l e es a b bs r v new =
      let (z, end) = last_of-cons b bs in
      let (x, here) = last_cell l.cell l.first es (b ∷ bs) z r.elements end in
      let c = store l.cell z (some (record x { next = some a })) in
      let apart = last-Avoids a z (b ∷ bs) v end in
      let at_last : l.last ≡ some z = r.ends ∙ end in
      let links = store-Links l.cell a z e x apart here new in
      (
        record l { cell = c; last = some a },
        (b ∷ bs) ++ (a ∷ []),
        put_last-run l a z x at_last here,
        record {
          distinct = Distinct-append (b ∷ bs) a r.distinct v;
          elements =
              linked_last l.cell c l.first es (b ∷ bs) a z e links r.elements r.distinct v end;
          ends = sym (last_of-append (b ∷ bs) a);
        },
      )
