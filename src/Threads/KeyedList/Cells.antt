-- ===== src/Threads/KeyedList/Cells.antt =====
-- threads/list.h as it is stored: cells with pointers from each to the next, and pointers to the first and the last.
-- A pointer is an address or NULL. `none` is an access to a cell that is not there.
pub mod Segment
pub mod Insert
pub mod Loop
pub mod Refine
pub mod Operations
pub mod Sorted
pub mod Simulation
use so.Prelude.{
  ℕ, zero, suc, ltb, ◌==◌, if◌then◌else◌, Bool, true, false, Option, none, some, ◌>>=◌,
}

-- `ListElement`.
pub record Cell (A : Type 0) : Type 0 where
  pub next : Option ℕ
  pub key : ℕ
  pub item : A

abbrev pub CellMap : Type 0 → Type 0
CellMap A = ℕ → Option (Cell A)

-- `List`, with the cells of the memory.
pub record CellList (A : Type 0) : Type 0 where
  pub cell : CellMap A
  pub first : Option ℕ
  pub last : Option ℕ

abbrev pub is_null : Option ℕ → Bool
is_null none = true
is_null (some a) = false

abbrev pub same_pointer : Option ℕ → Option ℕ → Bool
same_pointer none none = true
same_pointer (some a) (some b) = a == b
same_pointer p q = false

module _ {A : Type 0} where
  abbrev pub store : CellMap A → ℕ → Option (Cell A) → CellMap A
  store c a x b = if a == b then x else c b

  -- `p->next = n`.
  unfoldable pub set_next : CellMap A → Option ℕ → Option ℕ → Option (CellMap A)
  set_next c p n = do a ← p; x ← c a; some (store c a (some (record x { next = n })))

  -- `List::List`.
  unfoldable pub cell_list : CellMap A → CellList A
  cell_list c = record { cell = c; first = none; last = none }

  unfoldable pub is_empty : CellList A → Bool
  is_empty l = is_null l.first

  -- `new ListNode(item, sortKey)` at the address `a`.
  unfoldable pub new_node : CellList A → ℕ → A → ℕ → CellList A
  new_node l a x k = record l {
    cell = store l.cell a (some (record { next = none; key = k; item = x }));
  }

  -- What each way to put an element in does with an empty list.
  abbrev pub only_element : CellList A → ℕ → CellList A
  only_element l a = record l { first = some a; last = some a }

  -- `last->next = element; last = element`.
  unfoldable pub put_last : CellList A → ℕ → Option (CellList A)
  put_last l a = do c ← set_next l.cell l.last (some a); some (record l { cell = c; last = some a })

  -- `element->next = first; first = element`.
  unfoldable pub put_first : CellList A → ℕ → Option (CellList A)
  put_first l a = do
    c ← set_next l.cell (some a) l.first
    some (record l { cell = c; first = some a })

  -- `Append`, `Prepend` and `SortedInsert`: the new element stands at the address `a`.
  unfoldable pub append : CellList A → ℕ → A → Option (CellList A)
  append l a x =
      let l' = new_node l a x 0 in if is_empty l then some (only_element l' a) else put_last l' a

  unfoldable pub prepend : CellList A → ℕ → A → Option (CellList A)
  prepend l a x =
      let l' = new_node l a x 0 in if is_empty l then some (only_element l' a) else put_first l' a

  -- The body of the loop of `SortedInsert` at `ptr`, whose `next` is given: the flag is false where the loop ends
  -- without putting the element in, and `rest` is what the later rounds do.
  unfoldable pub insert_next :
      (ℕ → Option (Bool × CellMap A)) → CellMap A → Option ℕ → ℕ → ℕ → ℕ → Option (Bool × CellMap A)
  insert_next rest c none ptr a k = some (false, c)
  insert_next rest c (some q) ptr a k = do
    there ← c q
    let linked = (do
      c₁ ← set_next c (some a) (some q)
      c₂ ← set_next c₁ (some ptr) (some a)
      some (true, c₂))
    if ltb k there.key then linked else rest q

  -- The loop; `fuel` bounds its rounds.
  unfoldable pub insert_loop : ℕ → CellMap A → ℕ → ℕ → ℕ → Option (Bool × CellMap A)
  insert_loop zero c ptr a k = none
  insert_loop (suc fuel) c ptr a k = do
    here ← c ptr
    insert_next (λ q. insert_loop fuel c q a k) c here.next ptr a k

  -- `SortedInsert` into a list that is not empty.
  unfoldable pub insert_into : ℕ → CellList A → ℕ → ℕ → Option (CellList A)
  insert_into fuel l a k = do
    head ← l.first
    x ← l.cell head
    let behind = (do
      (done, c) ← insert_loop fuel l.cell head a k
      if done then some (record l { cell = c }) else put_last l a)
    if ltb k x.key then put_first l a else behind

  unfoldable pub sorted_insert : ℕ → CellList A → ℕ → A → ℕ → Option (CellList A)
  sorted_insert fuel l a x k =
      let l' = new_node l a x k in
      if is_empty l then some (only_element l' a) else insert_into fuel l' a k

  -- `SortedRemove`, with the key that it hands back, and `Remove`; the cell is deleted.
  unfoldable pub take_first : CellList A → ℕ → Option (Option (Cell A) × CellList A)
  take_first l a = do
    x ← l.cell a
    let c = store l.cell a none
    some (
      some x,
      (if same_pointer l.first l.last
          then record { cell = c; first = none; last = none }
          else record l { cell = c; first = x.next }),
    )

  unfoldable pub sorted_remove : CellList A → Option (Option (Cell A) × CellList A)
  sorted_remove l = elim l.first [ none ↦ some (none, l) | some a ↦ take_first l a ]
