-- ===== src/Threads/Monitor/SynchList.antt =====
-- threads/synchlist.h: a list under a lock, whose `Remove` waits for an element. `Wait` and `Signal` leave the list, and
-- are steps at the lock and elsewhere. The model writes down what `Append` was given and what `Remove` returned.
pub mod Order
use so.Prelude.{
  ℕ, if◌then◌else◌, false, List, [], ◌∷◌, ◌++◌, map, Option, none, some, ◌≡◌, refl, ◌∙◌, sym, ap,
  append_assoc, Bool-cases, inl, inr, subst,
}
use mathlib.Core.List.{map-append}
use so.Threads.KeyedList
use so.Threads.KeyedList.{ListElement, element}
use so.Threads.Synch.{Store}
use so.Threads.Monitor
use so.Threads.Monitor.{Monitor, open_with}
use so.Threads.Monitor.Guarded.{Keeps, Reach-IsOrderly}
use so.Threads.Monitor.Port.{NoInterrupt}

-- What a thread calls when it has the lock, and the statement that is left of it: `list->Append(item)`, or
-- `item = list->Remove()` after the loop.
pub data ListCall (A : Type 0) : Type 0 where
  call_append : A → ListCall A
  call_remove : ListCall A

pub data ListPlace (A : Type 0) : Type 0 where
  appending : A → ListPlace A
  removing : ListPlace A

-- The list, with the items of the calls of `Append`, and what the calls of `Remove` took, NULL included.
pub record Exchange (A : Type 0) : Type 0 where
  pub list : List (ListElement A)
  pub appended : List A
  pub removed : List (Option A)

-- `SynchList::SynchList`.
unfoldable pub synch_list : {A : Type 0} → Exchange A
synch_list = record { list = []; appended = []; removed = [] }

-- The test of the loop in `Remove`; `none` is `Wait`.
unfoldable pub enter : {A : Type 0} → ListCall A → List (ListElement A) → Option (ListPlace A)
enter (call_append x) l = some (appending x)
enter call_remove l = if KeyedList.is_empty l then none else some removing

-- What is left to do before the signal and the release of the lock.
unfoldable pub list_step : {A : Type 0} → ListPlace A → Exchange A → Exchange A
list_step (appending x) e = record e {
  list = KeyedList.append e.list x;
  appended = e.appended ++ (x ∷ []);
}
list_step removing e =
    let (item, rest) = KeyedList.remove e.list in
    record e { list = rest; removed = e.removed ++ (item ∷ []) }

unfoldable pub ListBody :
    {A : Type 0}
    → ℕ
    → Option (ListPlace A)
    → Exchange A
    → Option (ListPlace A)
    → Exchange A
    → Type 0
ListBody {A} t none e o' e' = (c : ListCall A) × (o' ≡ enter c e.list) × (e' ≡ e)
ListBody t (some l) e o' e' = (o' ≡ none) × (e' ≡ list_step l e)
