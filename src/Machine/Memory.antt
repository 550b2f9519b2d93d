-- ===== src/Machine/Memory.antt =====
-- machine/machine.h and machine/translate.cc: registers, main memory, and translation by a page table or
-- a TLB. An `int` is its 32-bit pattern, a number below 2 ^ 32; a byte of memory is below 256. The host
-- is little endian with a signed `char`. `none` is an ASSERT that fails.
pub mod Translate
pub mod Access
use so.Prelude.{
  ℕ, zero, suc, ◌+◌, ◌*◌, ◌/◌, ◌%◌, ltb, leb, ◌==◌, if◌then◌else◌, ◌&&◌, ◌||◌, Bool, true, false,
  not, List, [], ◌∷◌, Option, none, some, ◌>>=◌, ◌>>◌, assert, get_elem?, set,
}

abbrev pub page_size : ℕ
page_size = 128

abbrev pub num_phys_pages : ℕ
num_phys_pages = 128

abbrev pub memory_size : ℕ
memory_size = 16384

abbrev pub tlb_size : ℕ
tlb_size = 4

pub data ExceptionType : Type 0 where
  syscall_exception page_fault_exception read_only_exception bus_error_exception : ExceptionType
  address_error_exception overflow_exception illegal_instr_exception : ExceptionType

pub record TranslationEntry : Type 0 where
  pub virtual_page : ℕ
  pub physical_page : ℕ
  pub valid : Bool
  pub read_only : Bool
  pub used : Bool
  pub dirty : Bool

-- A pointer that may be NULL is an option; a TLB is an array of `tlb_size` entries. `registers` and `main_memory` are read by index.
pub record Machine : Type 0 where
  pub main_memory : ℕ → ℕ
  pub registers : ℕ → ℕ
  pub tlb : Option (List TranslationEntry)
  pub page_table : Option (List TranslationEntry)
  pub page_table_size : ℕ

abbrev pub store {ℓ} : {A : Type ℓ} → (ℕ → A) → ℕ → A → ℕ → A
store f i a j = if i == j then a else f j

abbrev pub set_register : Machine → ℕ → ℕ → Machine
set_register m r x = record m { registers = store m.registers r x }

abbrev pub hi_reg : ℕ
hi_reg = 32

abbrev pub lo_reg : ℕ
lo_reg = 33

abbrev pub pc_reg : ℕ
pc_reg = 34

abbrev pub next_pc_reg : ℕ
next_pc_reg = 35

abbrev pub prev_pc_reg : ℕ
prev_pc_reg = 36

abbrev pub load_reg : ℕ
load_reg = 37

abbrev pub load_value_reg : ℕ
load_value_reg = 38

abbrev pub bad_vaddr_reg : ℕ
bad_vaddr_reg = 39

abbrev pub num_total_regs : ℕ
num_total_regs = 40

-- `Machine::Machine` without USE_TLB.
unfoldable pub machine : Machine
machine = record {
  main_memory = λ a. 0;
  registers = λ r. 0;
  tlb = none;
  page_table = none;
  page_table_size = 0;
}

unfoldable pub read_register : Machine → ℕ → Option ℕ
read_register m num = do assert (ltb num num_total_regs); some (m.registers num)

unfoldable pub write_register : Machine → ℕ → ℕ → Option Machine
write_register m num value = do assert (ltb num num_total_regs); some (set_register m num value)

unfoldable pub delayed_load : Machine → ℕ → ℕ → Machine
delayed_load m next_reg next_value =
    let m₁ = set_register m (m.registers load_reg) (m.registers load_value_reg) in
    let m₂ = set_register m₁ load_reg next_reg in
    let m₃ = set_register m₂ load_value_reg next_value in set_register m₃ 0 0

-- `RaiseException` up to the call of the kernel's `ExceptionHandler`.
unfoldable pub raise_exception : Machine → ℕ → Machine
raise_exception m bad_vaddr = delayed_load (set_register m bad_vaddr_reg bad_vaddr) 0 0

-- What a translation leads to: a physical address and the entry with its bits set, or an exception.
pub data Translation : Type 0 where
  refused : ExceptionType → Translation
  mapped : ℕ → TranslationEntry → Translation

abbrev pub misaligned : ℕ → ℕ → Bool
misaligned addr size = (size == 4 && not (addr % 4 == 0)) || (size == 2 && not (addr % 2 == 0))

-- The end of `Translate`: the checks on the entry that was found.
unfoldable pub use_entry : TranslationEntry → ℕ → ℕ → Bool → Option Translation
use_entry e offset size writing =
    let phys_addr = e.physical_page * page_size + offset in
    if e.read_only && writing
    then some (refused read_only_exception)
    else (if leb num_phys_pages e.physical_page then some (refused bus_error_exception) else (do
      assert (leb (phys_addr + size) memory_size)
      some (mapped phys_addr (record e { used = true; dirty = e.dirty || writing }))))

-- The first valid entry of the TLB for a page.
unfoldable pub tlb_index : List TranslationEntry → ℕ → ℕ → Option ℕ
tlb_index [] vpn i = none
tlb_index (e ∷ es) vpn i =
    if e.valid && e.virtual_page == vpn then some i else tlb_index es vpn (suc i)

-- A result with the machine after it, or an exception.
pub data Outcome {ℓ} (A : Type ℓ) : Type ℓ where
  ok : A → Machine → Outcome A
  trap : ExceptionType → Machine → Outcome A

unfoldable pub translate_by_table :
    Machine → List TranslationEntry → ℕ → ℕ → Bool → Option (Outcome ℕ)
translate_by_table m table addr size writing =
    let vpn = addr / page_size in
    if leb m.page_table_size vpn then some (trap address_error_exception m) else (do
      e ← get_elem? table vpn
      if not e.valid then some (trap page_fault_exception m) else (do
        t ← use_entry e (addr % page_size) size writing
        elim t [
          | refused x ↦ some (trap x m)
          | mapped a e' ↦ some (ok a (record m { page_table = some (set table vpn e') }))
        ]))

unfoldable pub translate_by_tlb :
    Machine → List TranslationEntry → ℕ → ℕ → Bool → Option (Outcome ℕ)
translate_by_tlb m tlb addr size writing = elim (tlb_index tlb (addr / page_size) 0) [
  | none ↦ some (trap page_fault_exception m)
  | some i ↦ (do
    e ← get_elem? tlb i
    t ← use_entry e (addr % page_size) size writing
    elim t [
      | refused x ↦ some (trap x m)
      | mapped a e' ↦ some (ok a (record m { tlb = some (set tlb i e') }))
    ])
]

-- Exactly one of the two must be there.
unfoldable pub choose_table :
    Machine
    → Option (List TranslationEntry)
    → Option (List TranslationEntry)
    → ℕ
    → ℕ
    → Bool
    → Option (Outcome ℕ)
choose_table m none none addr size writing = none
choose_table m (some tlb) (some table) addr size writing = none
choose_table m none (some table) addr size writing = translate_by_table m table addr size writing
choose_table m (some tlb) none addr size writing = translate_by_tlb m tlb addr size writing

unfoldable pub translate : Machine → ℕ → ℕ → Bool → Option (Outcome ℕ)
translate m virt_addr size writing =
    if misaligned virt_addr size
    then some (trap address_error_exception m)
    else choose_table m m.tlb m.page_table virt_addr size writing

-- The bytes of a number at `a`, the lowest first.
abbrev pub load_bytes : (ℕ → ℕ) → ℕ → ℕ → ℕ
load_bytes mem a zero = 0
load_bytes mem a (suc n) = mem a + 256 * load_bytes mem (suc a) n

abbrev pub store_bytes : (ℕ → ℕ) → ℕ → ℕ → ℕ → ℕ → ℕ
store_bytes mem a zero x = mem
store_bytes mem a (suc n) x = store_bytes (store mem a (x % 256)) (suc a) n (x / 256)

-- A signed `char` as an `int`.
abbrev pub sign_extend_byte : ℕ → ℕ
sign_extend_byte b = if ltb b 128 then b else b + 0xffff_ff00

-- An exception goes to the kernel, with the registers as `RaiseException` leaves them.
unfoldable pub read_mem : Machine → ℕ → ℕ → Option (Outcome ℕ)
read_mem m addr size = do
  t ← translate m addr size false
  elim t [
    | trap x m' ↦ some (trap x (raise_exception m' addr))
    | ok a m' ↦
        if size == 1
        then some (ok (sign_extend_byte (m'.main_memory a)) m')
        else (if size == 2 || size == 4
            then some (ok (load_bytes m'.main_memory a size) m')
            else none)
  ]

unfoldable pub write_mem : Machine → ℕ → ℕ → ℕ → Option (Outcome (Unit {0}))
write_mem m addr size value = do
  t ← translate m addr size true
  elim t [
    | trap x m' ↦ some (trap x (raise_exception m' addr))
    | ok a m' ↦
        if size == 1 || size == 2 || size == 4
        then some (ok tt (record m' { main_memory = store_bytes m'.main_memory a size value }))
        else none
  ]
