-- ===== src/Machine/Memory/Translate.antt =====
-- Where `Translate` leads: that it always ends in an exception or at an address of main memory.
use so.Prelude.{
  ℕ, zero, suc, ◌+◌, ◌*◌, ◌/◌, ◌%◌, ◌≤◌, ◌<◌, leb, ◌==◌, ◌&&◌, ◌||◌, Bool, true, false, List, [],
  ◌∷◌, Option, none, some, get_elem?, length, ◌≡◌, refl, arith, ◌⊎◌, inl, inr, Bool-cases,
  Option-cases, subst, sym,
}
use so.Machine.Memory.{
  ExceptionType, read_only_exception, bus_error_exception, TranslationEntry, Machine, Outcome, ok,
  trap, refused, mapped, misaligned, use_entry, tlb_index, translate_by_table, translate_by_tlb,
  choose_table, translate, memory_size,
}

-- The sizes that the instructions use.
abbrev pub IsSize : ℕ → Type 0
IsSize size = (size ≡ 1) ⊎ (size ≡ 2) ⊎ (size ≡ 4)

-- One of the two tables is there, and a page table has as many entries as it says.
pub data HasTable (m : Machine) : Type 0 where
  by_table :
      (table : List TranslationEntry)
      → m.tlb ≡ none
      → m.page_table ≡ some table
      → m.page_table_size ≤ length table
      → HasTable m
  by_tlb : (tlb : List TranslationEntry) → m.tlb ≡ some tlb → m.page_table ≡ none → HasTable m

-- An exception that changes nothing, or an address of main memory at the same place of its frame.
pub data Translated (m : Machine) (addr size : ℕ) (r : Option (Outcome ℕ)) : Type 0 where
  excepted : (x : ExceptionType) → r ≡ some (trap x m) → Translated m addr size r
  reached :
      (a : ℕ) (m' : Machine)
      → r ≡ some (ok a m')
      → a + size ≤ memory_size
      → a % 128 ≡ addr % 128
      → m'.main_memory ≡ m.main_memory
      → m'.registers ≡ m.registers
      → Translated m addr size r

pub within_page :
    (addr size : ℕ) → IsSize size → misaligned addr size ≡ false → addr % 128 + size ≤ 128
within_page addr size (inl refl) aligned = omega arith
within_page addr size (inr (inl refl)) aligned = ground arith
within_page addr size (inr (inr refl)) aligned = ground arith

-- The entry that was found leads to an exception or into memory.
pub use_entry_lem :
    (e : TranslationEntry) (addr size : ℕ) (writing : Bool)
    → IsSize size
    → misaligned addr size ≡ false
    → ((x : ExceptionType) × (use_entry e (addr % 128) size writing ≡ some (refused x)))
      ⊎ ((use_entry e (addr % 128) size writing
            ≡ some (
                mapped
                  (e.physical_page * 128 + addr % 128)
                  (record e { used = true; dirty = e.dirty || writing })))
          × (e.physical_page < 128))
unfolding use_entry
use_entry_lem e addr size writing sized aligned = elim (Bool-cases (e.read_only && writing)) [
  | inl locked ↦ inl (read_only_exception, rw locked refl)
  | inr free ↦ elim (Bool-cases (leb 128 e.physical_page)) [
    | inl far ↦ inl (bus_error_exception, rw (free, far) refl)
    | inr near ↦
        let fits : leb (e.physical_page * 128 + addr % 128 + size) 16384 ≡ true =
          ground (arith, within_page addr size sized aligned) in
        inr (rw (free, near, fits) refl, ground arith)
  ]
]

tlb_index_found :
    (es : List TranslationEntry) (vpn i k : ℕ)
    → tlb_index es vpn i ≡ some k
    → (i ≤ k) × (k < i + length es)
unfolding tlb_index
tlb_index_found [] vpn i k h = absurd (ground arith)
tlb_index_found (e ∷ es) vpn i k h = elim (Bool-cases (e.valid && e.virtual_page == vpn)) [
  | inl hit ↦ ground arith
  | inr miss ↦ let r = tlb_index_found es vpn (suc i) k (ground arith) in ground (arith, r)
]

entry_at :
    (es : List TranslationEntry) (i : ℕ)
    → i < length es
    → (e : TranslationEntry) × (get_elem? es i ≡ some e)
entry_at [] i lt = absurd (omega arith)
entry_at (e ∷ es) zero lt = (e, refl)
entry_at (e ∷ es) (suc i) lt = entry_at es i (omega arith)

by_table_lem :
    (m : Machine) (table : List TranslationEntry) (addr size : ℕ) (writing : Bool)
    → IsSize size
    → misaligned addr size ≡ false
    → m.page_table_size ≤ length table
    → Translated m addr size (translate_by_table m table addr size writing)
unfolding translate_by_table
by_table_lem m table addr size writing sized aligned covered =
    elim (Bool-cases (leb m.page_table_size (addr / 128))) [
      | inl far ↦ rw far (excepted _ refl)
      | inr near ↦
          let (e, at) = entry_at table (addr / 128) (ground arith) in
          elim (Bool-cases e.valid) [
            | inr bad ↦ rw (near, at, bad) (excepted _ refl)
            | inl good ↦ elim (use_entry_lem e addr size writing sized aligned) [
              | inl (x, u) ↦ rw (near, at, good, u) (excepted x refl)
              | inr (u, frame) ↦
                  rw (near, at, good, u) (reached _ _ refl (ground arith) (omega arith) refl refl)
            ]
          ]
    ]

by_tlb_lem :
    (m : Machine) (tlb : List TranslationEntry) (addr size : ℕ) (writing : Bool)
    → IsSize size
    → misaligned addr size ≡ false
    → Translated m addr size (translate_by_tlb m tlb addr size writing)
unfolding translate_by_tlb
by_tlb_lem m tlb addr size writing sized aligned =
    elim (Option-cases (tlb_index tlb (addr / 128) 0)) [
      | inl missing ↦ rw (translate_by_tlb, missing) (excepted _ refl)
      | inr (i, found) ↦
          let (_, lt) = tlb_index_found tlb (addr / 128) 0 i found in
          let (e, at) = entry_at tlb i (omega (arith, lt)) in
          elim (use_entry_lem e addr size writing sized aligned) [
            | inl (x, u) ↦ rw (translate_by_tlb, found, at, u) (excepted x refl)
            | inr (u, frame) ↦
                rw (translate_by_tlb, found, at, u)
                  (reached _ _ refl (ground arith) (omega arith) refl refl)
          ]
    ]

-- With a page table or a TLB, `Translate` of an access of one, two or four bytes never aborts: it refuses
-- with an exception and changes nothing, or it leads to an address at the same offset of a frame, from
-- which all the bytes are in memory, and changes neither memory nor registers.
pub translate-Translated :
    (m : Machine) (addr size : ℕ) (writing : Bool)
    → HasTable m
    → IsSize size
    → Translated m addr size (translate m addr size writing)
unfolding translate choose_table
translate-Translated m addr size writing has sized = elim (Bool-cases (misaligned addr size)) [
  | inl bad ↦ rw bad (excepted _ refl)
  | inr aligned ↦ rw aligned (go has aligned)
]
  where
    go :
        HasTable m
        → misaligned addr size ≡ false
        → Translated m addr size (choose_table m m.tlb m.page_table addr size writing)
    go (by_table table no_tlb there covered) aligned =
        let e : choose_table m m.tlb m.page_table addr size writing
            ≡ translate_by_table m table addr size writing =
          cc in
        subst (Translated m addr size) (sym e)
          (by_table_lem m table addr size writing sized aligned covered)
    go (by_tlb tlb there no_table) aligned =
        let e : choose_table m m.tlb m.page_table addr size writing
            ≡ translate_by_tlb m tlb addr size writing =
          cc in
        subst (Translated m addr size) (sym e) (by_tlb_lem m tlb addr size writing sized aligned)
