-- ===== src/Threads/KeyedList/Sorted.antt =====
-- `SortedInsert` and `SortedRemove` as a priority queue that is first-in first-out for equal keys.
use so.Prelude.{
  ℕ, ◌≤◌, ◌<◌, ltb, leb, ◌+◌, ◌==◌, if◌then◌else◌, List, [], ◌∷◌, ◌++◌, ◌≡◌, refl, arith,
  Bool-cases, inl, inr, append-nil,
}
use so.Threads.KeyedList.{ListElement, insert_after, sorted_insert}

module _ {ℓ} {A : Type ℓ} where
  -- Every key is at least `n`.
  abbrev pub AllFrom : ℕ → List (ListElement A) → Type 0
  AllFrom n [] = Unit {0}
  AllFrom n (e ∷ l) = (n ≤ e.key) × AllFrom n l

  -- Keys never fall along the list.
  abbrev pub IsSorted : List (ListElement A) → Type 0
  IsSorted [] = Unit {0}
  IsSorted (e ∷ l) = AllFrom e.key l × IsSorted l

  -- The items that were inserted with one key, in the list's order.
  pub with_key : ℕ → List (ListElement A) → List A
  with_key k [] = []
  with_key k (e ∷ l) = if e.key == k then e.item ∷ with_key k l else with_key k l

  sorted_insert-eq-insert_after :
      (l : List (ListElement A)) (x : A) (k : ℕ) → sorted_insert l x k ≡ insert_after l x k
  unfolding sorted_insert insert_after
  sorted_insert-eq-insert_after [] x k = refl
  sorted_insert-eq-insert_after (e ∷ l) x k = refl

  pub AllFrom-mono : (m n : ℕ) (l : List (ListElement A)) → m ≤ n → AllFrom n l → AllFrom m l
  AllFrom-mono m n [] h a = tt
  AllFrom-mono m n (e ∷ l) h a = (omega arith, AllFrom-mono m n l h a.1)

  AllFrom-insert_after :
      (n : ℕ) (l : List (ListElement A)) (x : A) (k : ℕ)
      → n ≤ k
      → AllFrom n l
      → AllFrom n (insert_after l x k)
  unfolding insert_after
  AllFrom-insert_after n [] x k h a = (h, tt)
  AllFrom-insert_after n (e ∷ l) x k h a = elim (Bool-cases (ltb k e.key)) [
    | inl lt ↦ rw lt (h, a)
    | inr ge ↦ rw ge (a.0, AllFrom-insert_after n l x k h a.1)
  ]

  insert_after-IsSorted :
      (l : List (ListElement A)) (x : A) (k : ℕ) → IsSorted l → IsSorted (insert_after l x k)
  unfolding insert_after
  insert_after-IsSorted [] x k s = (tt, tt)
  insert_after-IsSorted (e ∷ l) x k s = elim (Bool-cases (ltb k e.key)) [
    | inl lt ↦ rw lt ((ground arith, AllFrom-mono k e.key l (ground arith) s.0), s)
    | inr ge ↦
        rw ge (AllFrom-insert_after e.key l x k (ground arith) s.0, insert_after-IsSorted l x k s.1)
  ]

  -- `SortedInsert` keeps the list sorted.
  pub sorted_insert-IsSorted :
      (l : List (ListElement A)) (x : A) (k : ℕ) → IsSorted l → IsSorted (sorted_insert l x k)
  sorted_insert-IsSorted l x k s =
      rw (sorted_insert-eq-insert_after l x k) (insert_after-IsSorted l x k s)

  with_key-none : (n j : ℕ) (l : List (ListElement A)) → AllFrom n l → j < n → with_key j l ≡ []
  unfolding with_key
  with_key-none n j [] a h = refl
  with_key-none n j (e ∷ l) a h = ground (arith, with_key-none n j l a.1)

  with_key-insert_after :
      (j : ℕ) (l : List (ListElement A)) (x : A) (k : ℕ)
      → IsSorted l
      → with_key j (insert_after l x k) ≡ with_key j l ++ (if k == j then x ∷ [] else [])
  unfolding insert_after with_key
  with_key-insert_after j [] x k s = ground arith
  with_key-insert_after j (e ∷ l) x k s = ground (
    arith,
    with_key-insert_after j l x k s.1,
    with_key-none e.key j l s.0,
    append-nil (with_key j l),
  )

  -- In a sorted list the new item comes after all items of its key, and every other key keeps its
  -- items in order.
  pub with_key-sorted_insert :
      (j : ℕ) (l : List (ListElement A)) (x : A) (k : ℕ)
      → IsSorted l
      → with_key j (sorted_insert l x k) ≡ with_key j l ++ (if k == j then x ∷ [] else [])
  with_key-sorted_insert j l x k s =
      rw (sorted_insert-eq-insert_after l x k) (with_key-insert_after j l x k s)

  pub AllFrom-sorted_insert :
      (n : ℕ) (l : List (ListElement A)) (x : A) (k : ℕ)
      → n ≤ k
      → AllFrom n l
      → AllFrom n (sorted_insert l x k)
  AllFrom-sorted_insert n l x k h a =
      rw (sorted_insert-eq-insert_after l x k) (AllFrom-insert_after n l x k h a)

  -- How many keys are at most `n`.
  unfoldable pub count_up_to : ℕ → List (ListElement A) → ℕ
  count_up_to n [] = 0
  count_up_to n (e ∷ l) = (if leb e.key n then 1 else 0) + count_up_to n l

  count_up_to-insert_after :
      (n : ℕ) (l : List (ListElement A)) (x : A) (k : ℕ)
      → count_up_to n (insert_after l x k) ≡ (if leb k n then 1 else 0) + count_up_to n l
  unfolding insert_after count_up_to
  count_up_to-insert_after n [] x k = refl
  count_up_to-insert_after n (e ∷ l) x k = ground (arith, count_up_to-insert_after n l x k)

  pub count_up_to-sorted_insert :
      (n : ℕ) (l : List (ListElement A)) (x : A) (k : ℕ)
      → count_up_to n (sorted_insert l x k) ≡ (if leb k n then 1 else 0) + count_up_to n l
  count_up_to-sorted_insert n l x k =
      rw (sorted_insert-eq-insert_after l x k) (count_up_to-insert_after n l x k)
