-- ===== src/Tests/Cells.antt =====
-- A concrete list in its cells.
use so.Prelude.{ℕ, ◌==◌, if◌then◌else◌, List, [], ◌∷◌, none, some, refl, arith}
use so.Threads.KeyedList.{ListElement, element}
use so.Threads.KeyedList.Cells.{CellList, CellMap}
use so.Threads.KeyedList.Cells.Segment.{Avoids, Distinct, Segment}
use so.Threads.KeyedList.Cells.Refine.{Represents}
use so.Threads.KeyedList.Cells.Simulation.{
  Call, call_cells, call_sequence, Agree, call_cells_refines,
}

-- The item 7 with the key 1 stands at the address 10, and behind it 8 with the key 4 at the address 12.
abbrev two_cells : CellMap ℕ
two_cells a =
    if a == 10
    then some (record { next = some 12; key = 1; item = 7 })
    else (if a == 12 then some (record { next = none; key = 4; item = 8 }) else none)

abbrev two_stored : CellList ℕ
two_stored = record { cell = two_cells; first = some 10; last = some 12 }

abbrev two_elements : List (ListElement ℕ)
two_elements = element 7 1 ∷ element 8 4 ∷ []

two_stored-Represents : Represents two_stored two_elements (10 ∷ 12 ∷ [])
unfolding Segment Distinct Avoids
two_stored-Represents = record {
  distinct = ((ground arith, tt), (tt, tt));
  elements = (some 12, refl, refl, (none, refl, refl, refl));
  ends = refl;
}

-- The item 9 goes between them.
call_cells_refines_example :
    Agree
      (call_cells 2 two_stored (Call.sorted_insert 11 9 3))
      (call_sequence two_elements (Call.sorted_insert 11 9 3))
call_cells_refines_example =
    call_cells_refines 2 two_stored two_elements (10 ∷ 12 ∷ []) (Call.sorted_insert 11 9 3)
      (omega arith) two_stored-Represents refl
