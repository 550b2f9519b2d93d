-- ===== src/Machine/Memory/Access.antt =====
-- What is written to user memory is read back.
use so.Prelude.{
  ℕ, ◌+◌, ◌*◌, ◌/◌, ◌%◌, ◌≤◌, ◌<◌, ◌||◌, Bool, true, false, List, none, some, get_elem?, set,
  length, ◌≡◌,
}
use so.Machine.Memory.{TranslationEntry, Machine, misaligned, store_bytes}

-- A page that may be written, through a page table.
pub record IsWritable (m : Machine) (table : List TranslationEntry) (e : TranslationEntry)
    (addr size : ℕ) : Type 0 where
  pub no_tlb : m.tlb ≡ none
  pub has_table : m.page_table ≡ some table
  pub in_table : addr / 128 < m.page_table_size
  pub covered : m.page_table_size ≤ length table
  pub entry : get_elem? table (addr / 128) ≡ some e
  pub valid : e.valid ≡ true
  pub writable : e.read_only ≡ false
  pub frame : e.physical_page < 128
  pub aligned : misaligned addr size ≡ false

-- The entry after the access.
abbrev touched : TranslationEntry → Bool → TranslationEntry
touched e writing = record e { used = true; dirty = e.dirty || writing }

abbrev after : Machine → List TranslationEntry → TranslationEntry → ℕ → Bool → Machine
after m table e addr writing = record m {
  page_table = some (set table (addr / 128) (touched e writing));
}

-- The machine once `value` is written.
abbrev written : Machine → List TranslationEntry → TranslationEntry → ℕ → ℕ → ℕ → Machine
written m table e addr size value = record (after m table e addr true) {
  main_memory = store_bytes m.main_memory (e.physical_page * 128 + addr % 128) size value;
}
