-- ===== src/Threads/Monitor/SynchList/Order.antt =====
-- The order in which items leave the list of threads/synchlist.h.
use so.Prelude.{
  ℕ, if◌then◌else◌, false, List, [], ◌∷◌, ◌++◌, map, Option, none, some, ◌≡◌, refl, ◌∙◌, sym, ap,
  append_assoc, Bool-cases, inl, inr, subst,
}
use mathlib.Core.List.{map-append}
use so.Threads.KeyedList
use so.Threads.KeyedList.{ListElement, element}
use so.Threads.Synch.{Store}
use so.Threads.Monitor
use so.Threads.Monitor.{Monitor, open_with}
use so.Threads.Monitor.Guarded.{Keeps, Reach-IsOrderly}
use so.Threads.Monitor.Port.{NoInterrupt}
use so.Threads.Monitor.SynchList.{
  ListCall, ListPlace, Exchange, ListBody, synch_list, call_append, call_remove, appending,
  removing, enter, list_step,
}

module _ {A : Type 0} where
  abbrev pub items : List (ListElement A) → List (Option A)
  items l = map (λ e. some e.item) l

  abbrev pub all_of : List A → List (Option A)
  all_of l = map (λ x. some x) l

  abbrev InOrder : Exchange A → Type 0
  InOrder e = all_of e.appended ≡ e.removed ++ items e.list

  abbrev AtPlace : Option (ListPlace A) → Exchange A → Type 0
  AtPlace none e = InOrder e
  AtPlace (some (appending x)) e = InOrder e
  AtPlace (some removing) e = (KeyedList.is_empty e.list ≡ false) × InOrder e

  enter-AtPlace : (c : ListCall A) (e : Exchange A) → InOrder e → AtPlace (enter c e.list) e
  unfolding enter
  enter-AtPlace (call_append x) e h = h
  enter-AtPlace call_remove e h = elim (Bool-cases (KeyedList.is_empty e.list)) [
    | inl y ↦ subst (λ b. AtPlace (if b then none else some removing) e) (sym y) h
    | inr n ↦ subst (λ b. AtPlace (if b then none else some removing) e) (sym n) (n, h)
  ]

  items-remove :
      (l : List (ListElement A))
      → KeyedList.is_empty l ≡ false
      → items l ≡ (KeyedList.remove l).0 ∷ items ((KeyedList.remove l).1)
  unfolding KeyedList.is_empty KeyedList.remove
  items-remove [] full = absurd (cc)
  items-remove (y ∷ l) full = refl

  step-InOrder : (l : ListPlace A) (e : Exchange A) → AtPlace (some l) e → InOrder (list_step l e)
  unfolding list_step KeyedList.append
  step-InOrder (appending x) e h =
      map-append (λ y. some y) e.appended (x ∷ [])
      ∙ ap (λ l. l ++ (some x ∷ [])) h
      ∙ append_assoc e.removed (items e.list) (some x ∷ [])
      ∙ ap (λ l. e.removed ++ l) (sym (map-append (λ y. some y.item) e.list (element x 0 ∷ [])))
  step-InOrder removing e (full, h) =
      h
      ∙ ap (λ l. e.removed ++ l) (items-remove e.list full)
      ∙ sym (
          append_assoc e.removed ((KeyedList.remove e.list).0 ∷ [])
            (items ((KeyedList.remove e.list).1)))

  list_keeps : Keeps ListBody NoInterrupt AtPlace
  unfolding ListBody
  list_keeps = record { by_body = kept_by; by_interrupt = λ o d d' x h. absurd x }
    where
      kept_by :
          (t : ℕ) (o o' : Option (ListPlace A)) (e e' : Exchange A)
          → ListBody t o e o' e'
          → AtPlace o e
          → AtPlace o' e'
      kept_by t none o' e e' (c, p, q) h = rw (p, q) (enter-AtPlace c e h)
      kept_by t (some l) o' e e' (p, q) h = rw (p, q) (step-InOrder l e h)

  in_order_of : (o : Option (ListPlace A)) (e : Exchange A) → AtPlace o e → InOrder e
  in_order_of none e h = h
  in_order_of (some (appending x)) e h = h
  in_order_of (some removing) e h = h.1

  -- Whatever the order in which threads call `Append` and `Remove` on a new list, and lose the CPU between their
  -- statements: what `Remove` has returned, and after it the items on the list, are the items that `Append` was
  -- given, in order. So `Remove` never returns NULL, and no item is lost or handed out twice.
  pub synch_list_fifo :
      (fuel : ℕ) (st : Store) (m : Monitor (Exchange A) (ListPlace A))
      → Monitor.Reach ListBody NoInterrupt fuel (open_with st synch_list) m
      → all_of m.guarded.appended ≡ m.guarded.removed ++ items m.guarded.list
  unfolding synch_list
  synch_list_fifo fuel st m r =
      let i = Reach-IsOrderly ListBody NoInterrupt fuel st synch_list AtPlace m list_keeps refl r in
      in_order_of i.place m.guarded i.kept
