-- ===== src/Tests/Memory.antt =====
-- A machine with a page table of two pages.
use so.Prelude.{true, false, List, [], ◌∷◌, none, some, refl, arith, inr}
use so.Machine.Memory.{Machine, TranslationEntry, translate}
use so.Machine.Memory.Translate.{Translated, by_table, translate-Translated}

-- Page 1 is in frame 5.
abbrev page : TranslationEntry
page = record {
  virtual_page = 1;
  physical_page = 5;
  valid = true;
  read_only = false;
  used = false;
  dirty = false;
}

abbrev code_page : TranslationEntry
code_page = record {
  virtual_page = 0;
  physical_page = 9;
  valid = true;
  read_only = true;
  used = false;
  dirty = false;
}

abbrev pages : List TranslationEntry
pages = code_page ∷ page ∷ []

abbrev simulated : Machine
simulated = record {
  main_memory = λ a. 0;
  registers = λ r. 0;
  tlb = none;
  page_table = some pages;
  page_table_size = 2;
}

translate-Translated_example : Translated simulated 132 4 (translate simulated 132 4 true)
translate-Translated_example =
    translate-Translated simulated 132 4 true (by_table pages refl refl (omega arith))
      (inr (inr refl))
