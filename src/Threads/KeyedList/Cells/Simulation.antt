-- ===== src/Threads/KeyedList/Cells/Simulation.antt =====
-- threads/list.h: every operation on cells and pointers against the same one on the sequence of the elements.
use so.Prelude.{ℕ, List, [], Option, none, some, ◌>>=◌, ◌≡◌, ◌≤◌, refl, length}
use so.Threads.KeyedList
use so.Threads.KeyedList.{ListElement, element}
use so.Threads.KeyedList.Cells
use so.Threads.KeyedList.Cells.{Cell, CellList, CellMap, cell_list, take_first}
use so.Threads.KeyedList.Cells.Segment.{Distinct, Segment}
use so.Threads.KeyedList.Cells.Refine.{Represents, Yields}
use so.Threads.KeyedList.Cells.Operations.{
  append-Yields, prepend-Yields, Takes, element_of, sorted_remove-Takes,
}
use so.Threads.KeyedList.Cells.Sorted.{sorted_insert-Yields}

-- A call of an operation; the number is the address of the new element.
pub data Call (A : Type 0) : Type 0 where
  append : ℕ → A → Call A
  prepend : ℕ → A → Call A
  sorted_insert : ℕ → A → ℕ → Call A
  sorted_remove : Call A

module _ {A : Type 0} where
  abbrev pub given_back : Option (CellList A) → Option (Option (ListElement A) × CellList A)
  given_back o = do l ← o; some (none, l)

  abbrev pub taken_back :
      Option (Option (Cell A) × CellList A) → Option (Option (ListElement A) × CellList A)
  taken_back o = do (x, l) ← o; some ((do y ← x; some (element_of y)), l)

  abbrev pub call_cells : ℕ → CellList A → Call A → Option (Option (ListElement A) × CellList A)
  call_cells fuel l (append a x) = given_back (Cells.append l a x)
  call_cells fuel l (prepend a x) = given_back (Cells.prepend l a x)
  call_cells fuel l (sorted_insert a x k) = given_back (Cells.sorted_insert fuel l a x k)
  call_cells fuel l sorted_remove = taken_back (Cells.sorted_remove l)

  abbrev pub call_sequence :
      List (ListElement A) → Call A → Option (ListElement A) × List (ListElement A)
  call_sequence es (append a x) = (none, KeyedList.append es x)
  call_sequence es (prepend a x) = (none, KeyedList.prepend es x)
  call_sequence es (sorted_insert a x k) = (none, KeyedList.sorted_insert es x k)
  call_sequence es sorted_remove = KeyedList.sorted_remove es

  -- `new` returns an address where no cell is.
  abbrev pub HasFreeAddress : CellList A → Call A → Type 0
  HasFreeAddress l (append a x) = l.cell a ≡ none
  HasFreeAddress l (prepend a x) = l.cell a ≡ none
  HasFreeAddress l (sorted_insert a x k) = l.cell a ≡ none
  HasFreeAddress l sorted_remove = Unit

  -- Both sides give the same result and again represent each other.
  unfoldable pub Agree :
      Option (Option (ListElement A) × CellList A)
      → Option (ListElement A) × List (ListElement A)
      → Type 0
  Agree o (e, es) = (l : CellList A) × (vs : List ℕ) × (o ≡ some (e, l)) × Represents l es vs

  given_back-Agree :
      (o : Option (CellList A)) (es : List (ListElement A))
      → Yields o es
      → Agree (given_back o) (none, es)
  unfolding Agree Yields
  given_back-Agree o es (l, vs, run, r) = (l, vs, rw run refl, r)

  taken_back-Agree :
      (o : Option (Option (Cell A) × CellList A))
      (t : Option (ListElement A) × List (ListElement A))
      → Takes o t
      → Agree (taken_back o) t
  unfolding Agree Takes
  taken_back-Agree o (e, es) (x, l, vs, run, same, r) = (l, vs, rw (run, same) refl, r)

  -- Of a list whose distinct cells hold a sequence of elements in order, with `last` at the last of them: `Append`,
  -- `Prepend` and `SortedInsert` of a new element at a free address, and `SortedRemove`, touch no cell that is not
  -- there, give what the operation on the sequence gives, and leave a list that stands for the sequence it leaves.
  -- As many rounds of the loop of `SortedInsert` as there are elements are enough.
  pub call_cells_refines :
      (fuel : ℕ) (l : CellList A) (es : List (ListElement A)) (vs : List ℕ) (c : Call A)
      → length es ≤ fuel
      → Represents l es vs
      → HasFreeAddress l c
      → Agree (call_cells fuel l c) (call_sequence es c)
  call_cells_refines fuel l es vs (append a x) le r free =
      given_back-Agree (Cells.append l a x) (KeyedList.append es x)
        (append-Yields l es vs a x r free)
  call_cells_refines fuel l es vs (prepend a x) le r free =
      given_back-Agree (Cells.prepend l a x) (KeyedList.prepend es x)
        (prepend-Yields l es vs a x r free)
  call_cells_refines fuel l es vs (sorted_insert a x k) le r free =
      given_back-Agree (Cells.sorted_insert fuel l a x k) (KeyedList.sorted_insert es x k)
        (sorted_insert-Yields fuel l es vs a x k le r free)
  call_cells_refines fuel l es vs sorted_remove le r free =
      taken_back-Agree (Cells.sorted_remove l) (KeyedList.sorted_remove es)
        (sorted_remove-Takes l es vs r)

  -- `List::List` makes a list without elements.
  pub cell_list-Represents : (c : CellMap A) → Represents (cell_list c) [] []
  unfolding cell_list Segment Distinct
  cell_list-Represents c = record { distinct = tt; elements = refl; ends = refl }
