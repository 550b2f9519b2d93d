-- ===== src/Machine/Mips/Execute.antt =====
-- `Machine::OneInstruction` of machine/mipssim.cc. As for the arithmetic, a register holds the 32-bit pattern of an `int`; sums of
-- `int`s wrap, as the compiled code does. A `trap` is an exception after `RaiseException`, up to the call of
-- the kernel's handler, where `OneInstruction` returns.
use so.Prelude.{
  ℕ, ◌/◌, ◌%◌, ◌==◌, if◌then◌else◌, ◌&&◌, ◌||◌, Bool, true, false, not, Option, none, some, ◌>>=◌,
  ◌>>◌, assert, bit_and, bit_or,
}
use so.Machine.Memory.{
  syscall_exception, address_error_exception, illegal_instr_exception, Machine, Outcome, ok, trap,
  set_register, delayed_load, read_mem, write_mem, hi_reg, lo_reg, pc_reg, next_pc_reg, prev_pc_reg,
  load_reg, load_value_reg,
}
use so.Machine.Mips.Decode.{
  op_beq, op_bgez, op_bgezal, op_bgtz, op_blez, op_bltz, op_bltzal, op_bne, op_div, op_divu, op_j,
  op_jal, op_jalr, op_jr, op_lb, op_lbu, op_lh, op_lhu, op_lw, op_lwl, op_lwr, op_mfhi, op_mflo,
  op_mthi, op_mtlo, op_mult, op_multu, op_rfe, op_sb, op_sh, op_sw, op_swl, op_swr, op_syscall,
  op_unimp, op_res, special, bcond, Instruction, decode,
}
use so.Machine.Mips.Multiply.{negative, mult}
use so.Machine.Mips.Alu.{
  Next, sum32, shift_left, shift_right_signed, index_to_addr, quotient, remainder,
  divides_into_range, proceed, raise, after_access, execute_alu,
}

abbrev return_address : Machine → ℕ
return_address m = sum32 (m.registers next_pc_reg) 4

abbrev r31 : ℕ
r31 = 31

abbrev branch_if : Bool → Machine → Instruction → ℕ → Option (Outcome Next)
branch_if b m i pc =
    proceed m (if b then sum32 (m.registers next_pc_reg) (index_to_addr i.extra) else pc)

-- The cases that set the program counter; the three that link set a register first.
unfoldable pub execute_branch : Machine → Instruction → ℕ → Option (Outcome Next)
execute_branch m i pc =
    let s = m.registers i.rs in
    let t = m.registers i.rt in
    let linked = set_register m r31 (return_address m) in
    let target = bit_or (bit_and pc 0xf000_0000) (index_to_addr i.extra) in
    elim i.op_code [
      | op_beq ↦ branch_if (s == t) m i pc
      | op_bgezal ↦ branch_if (not (negative (linked.registers i.rs))) linked i pc
      | op_bgez ↦ branch_if (not (negative s)) m i pc
      | op_bgtz ↦ branch_if (not (negative s) && not (s == 0)) m i pc
      | op_blez ↦ branch_if (negative s || s == 0) m i pc
      | op_bltzal ↦ branch_if (negative (linked.registers i.rs)) linked i pc
      | op_bltz ↦ branch_if (negative s) m i pc
      | op_bne ↦ branch_if (not (s == t)) m i pc
      | op_jal ↦ proceed linked target
      | op_j ↦ proceed m target
      | op_jalr ↦ let m' = set_register m i.rd (return_address m) in proceed m' (m'.registers i.rs)
      | op_jr ↦ proceed m s
      | _ ↦ none
    ]

abbrev set_hi_lo : Machine → ℕ → ℕ → Machine
set_hi_lo m hi lo = set_register (set_register m lo_reg lo) hi_reg hi

-- The cases of the double register.
unfoldable pub execute_hi_lo : Machine → Instruction → ℕ → Option (Outcome Next)
execute_hi_lo m i pc =
    let s = m.registers i.rs in
    let t = m.registers i.rt in
    elim i.op_code [
      | op_div ↦ if t == 0 then proceed (set_hi_lo m 0 0) pc else (do
        assert (divides_into_range s t)
        proceed (set_hi_lo m (remainder s t) (quotient s t)) pc)
      | op_divu ↦
          if t == 0 then proceed (set_hi_lo m 0 0) pc else proceed (set_hi_lo m (s % t) (s / t)) pc
      | op_mfhi ↦ proceed (set_register m i.rd (m.registers hi_reg)) pc
      | op_mflo ↦ proceed (set_register m i.rd (m.registers lo_reg)) pc
      | op_mthi ↦ proceed (set_register m hi_reg s) pc
      | op_mtlo ↦ proceed (set_register m lo_reg s) pc
      | op_mult ↦ let (hi, lo) = mult s t true in proceed (set_hi_lo m hi lo) pc
      | op_multu ↦ let (hi, lo) = mult s t false in proceed (set_hi_lo m hi lo) pc
      | _ ↦ none
    ]

-- A load that takes effect after the next instruction.
abbrev delay : Machine → Instruction → ℕ → ℕ → Option (Outcome Next)
delay m i pc value =
    some (ok (record { pc_after = pc; next_load_reg = i.rt; next_load_value = value }) m)

abbrev load_aligned : Machine → Instruction → ℕ → ℕ → ℕ → (ℕ → ℕ) → Option (Outcome Next)
load_aligned m i pc addr size f =
    if not (addr % size == 0)
    then raise address_error_exception m addr
    else after_access (read_mem m addr size) (λ value m'. delay m' i pc (f value))

-- The loads. The ASSERT of the two unaligned ones leaves the first case of their inner `switch`.
unfoldable pub execute_load : Machine → Instruction → ℕ → Option (Outcome Next)
execute_load m i pc =
    let addr = sum32 (m.registers i.rs) i.extra in
    elim i.op_code [
      | op_lb ↦ after_access (read_mem m addr 1) (λ value m'.
          delay m' i pc
            (if bit_and value 0x80 == 0 then bit_and value 0xff else bit_or value 0xffff_ff00))
      | op_lbu ↦ after_access (read_mem m addr 1) (λ value m'. delay m' i pc (bit_and value 0xff))
      | op_lh ↦ load_aligned m i pc addr 2 (λ value.
          if bit_and value 0x8000 == 0 then bit_and value 0xffff else bit_or value 0xffff_0000)
      | op_lhu ↦ load_aligned m i pc addr 2 (λ value. bit_and value 0xffff)
      | op_lw ↦ load_aligned m i pc addr 4 (λ value. value)
      | op_lwl ↦ (do
        assert (addr % 4 == 0)
        after_access (read_mem m addr 4) (λ value m'. delay m' i pc value))
      | op_lwr ↦ (do
        assert (addr % 4 == 0)
        after_access (read_mem m addr 4) (λ value m'.
            let old =
              if m'.registers load_reg == i.rt
              then m'.registers load_value_reg
              else m'.registers i.rt in
            delay m' i pc
              (bit_or (bit_and old 0xffff_ff00) (bit_and (shift_right_signed value 24) 0xff))))
      | _ ↦ none
    ]

abbrev write : Machine → ℕ → ℕ → ℕ → ℕ → Option (Outcome Next)
write m pc addr size value = after_access (write_mem m addr size value) (λ u m'. proceed m' pc)

-- The stores, with the same ASSERT.
unfoldable pub execute_store : Machine → Instruction → ℕ → Option (Outcome Next)
execute_store m i pc =
    let addr = sum32 (m.registers i.rs) i.extra in
    let t = m.registers i.rt in
    elim i.op_code [
      | op_sb ↦ write m pc addr 1 t
      | op_sh ↦ write m pc addr 2 t
      | op_sw ↦ write m pc addr 4 t
      | op_swl ↦ (do
        assert (addr % 4 == 0)
        after_access (read_mem m addr 4) (λ value m'. write m' pc addr 4 (m'.registers i.rt)))
      | op_swr ↦ (do
        assert (addr % 4 == 0)
        after_access (read_mem m addr 4) (λ value m'.
            write m' pc addr 4
              (bit_or (bit_and value 0xff_ffff) (shift_left (m'.registers i.rt) 24))))
      | _ ↦ none
    ]

-- The `switch`. RFE has no case, and so ends in its ASSERT.
unfoldable pub execute : Machine → Instruction → ℕ → Option (Outcome Next)
execute m i pc = elim i.op_code [
  | op_beq ↦ execute_branch m i pc
  | op_bgez ↦ execute_branch m i pc
  | op_bgezal ↦ execute_branch m i pc
  | op_bgtz ↦ execute_branch m i pc
  | op_blez ↦ execute_branch m i pc
  | op_bltz ↦ execute_branch m i pc
  | op_bltzal ↦ execute_branch m i pc
  | op_bne ↦ execute_branch m i pc
  | op_j ↦ execute_branch m i pc
  | op_jal ↦ execute_branch m i pc
  | op_jalr ↦ execute_branch m i pc
  | op_jr ↦ execute_branch m i pc
  | op_div ↦ execute_hi_lo m i pc
  | op_divu ↦ execute_hi_lo m i pc
  | op_mfhi ↦ execute_hi_lo m i pc
  | op_mflo ↦ execute_hi_lo m i pc
  | op_mthi ↦ execute_hi_lo m i pc
  | op_mtlo ↦ execute_hi_lo m i pc
  | op_mult ↦ execute_hi_lo m i pc
  | op_multu ↦ execute_hi_lo m i pc
  | op_lb ↦ execute_load m i pc
  | op_lbu ↦ execute_load m i pc
  | op_lh ↦ execute_load m i pc
  | op_lhu ↦ execute_load m i pc
  | op_lw ↦ execute_load m i pc
  | op_lwl ↦ execute_load m i pc
  | op_lwr ↦ execute_load m i pc
  | op_sb ↦ execute_store m i pc
  | op_sh ↦ execute_store m i pc
  | op_sw ↦ execute_store m i pc
  | op_swl ↦ execute_store m i pc
  | op_swr ↦ execute_store m i pc
  | op_syscall ↦ raise syscall_exception m 0
  | op_res ↦ raise illegal_instr_exception m 0
  | op_unimp ↦ raise illegal_instr_exception m 0
  | op_rfe ↦ none
  | special ↦ none
  | bcond ↦ none
  | _ ↦ execute_alu m i pc
]

-- The end of `OneInstruction`: the delayed load, and the program counters.
unfoldable pub finish : Machine → Next → Machine
finish m n =
    let m₁ = delayed_load m n.next_load_reg n.next_load_value in
    let m₂ = set_register m₁ prev_pc_reg (m₁.registers pc_reg) in
    let m₃ = set_register m₂ pc_reg (m₂.registers next_pc_reg) in
    set_register m₃ next_pc_reg n.pc_after

unfoldable pub one_instruction : Machine → Option (Outcome (Unit {0}))
one_instruction m = do
  fetched ← read_mem m (m.registers pc_reg) 4
  elim fetched [
    | trap x m' ↦ some (trap x m')
    | ok raw m' ↦ (do
      done ← execute m' (decode raw) (sum32 (m'.registers next_pc_reg) 4)
      elim done [ trap x m'' ↦ some (trap x m'') | ok n m'' ↦ some (ok tt (finish m'' n)) ])
  ]
