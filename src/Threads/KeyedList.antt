-- ===== src/Threads/KeyedList.antt =====
-- threads/list.h: the singly linked list with keys. A list is written as the sequence of its elements
-- from `first` on; `last` is then its last element. No caller gives a negative key.
pub mod Sorted
pub mod Cells
use so.Prelude.{ℕ, ltb, if◌then◌else◌, Bool, true, false, List, [], ◌∷◌, ◌++◌, Option, none, some}

-- `ListElement` without its link.
pub record ListElement {ℓ} (A : Type ℓ) : Type ℓ where
  pub key : ℕ
  pub item : A

module _ {ℓ} {A : Type ℓ} where
  abbrev pub element : A → ℕ → ListElement A
  element x k = record { key = k; item = x }

  unfoldable pub append : List (ListElement A) → A → List (ListElement A)
  append l x = l ++ (element x 0 ∷ [])

  unfoldable pub prepend : List (ListElement A) → A → List (ListElement A)
  prepend l x = element x 0 ∷ l

  unfoldable pub is_empty : List (ListElement A) → Bool
  is_empty [] = true
  is_empty (e ∷ l) = false

  -- The loop of `SortedInsert`: `l` is what follows `ptr`.
  unfoldable pub insert_after : List (ListElement A) → A → ℕ → List (ListElement A)
  insert_after [] x k = element x k ∷ []
  insert_after (e ∷ l) x k = if ltb k e.key then element x k ∷ e ∷ l else e ∷ insert_after l x k

  unfoldable pub sorted_insert : List (ListElement A) → A → ℕ → List (ListElement A)
  sorted_insert [] x k = element x k ∷ []
  sorted_insert (e ∷ l) x k = if ltb k e.key then element x k ∷ e ∷ l else e ∷ insert_after l x k

  -- The first element with its key, and the rest; the source returns NULL for an empty list.
  unfoldable pub sorted_remove :
      List (ListElement A) → Option (ListElement A) × List (ListElement A)
  sorted_remove [] = (none, [])
  sorted_remove (e ∷ l) = (some e, l)

  unfoldable pub remove : List (ListElement A) → Option A × List (ListElement A)
  remove [] = (none, [])
  remove (e ∷ l) = (some e.item, l)

  -- `Apply`: `func` on each item in order, on a state that it may change.
  unfoldable pub apply {κ} : {S : Type κ} → (A → S → S) → List (ListElement A) → S → S
  apply func [] s = s
  apply func (e ∷ l) s = apply func l (func e.item s)
