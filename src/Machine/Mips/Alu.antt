-- ===== src/Machine/Mips/Alu.antt =====
-- The cases of `Machine::OneInstruction` of machine/mipssim.cc that compute with registers. A register holds the 32-bit pattern of an `int`; sums of
-- `int`s wrap, as the compiled code does. A `trap` is an exception after `RaiseException`, up to the call of
-- the kernel's handler, where `OneInstruction` returns.
use so.Prelude.{
  ℕ, ◌+◌, ◌-◌, ◌*◌, ◌/◌, ◌%◌, ◌^◌, ltb, ◌==◌, if◌then◌else◌, ◌&&◌, ◌||◌, Bool, not, Option, none,
  some, ◌>>=◌, bit_and, bit_or, bit_xor,
}
use so.Machine.Memory.{
  ExceptionType, overflow_exception, Machine, Outcome, ok, trap, set_register, raise_exception,
}
use so.Machine.Mips.Decode.{
  op_add, op_addi, op_addiu, op_addu, op_and, op_andi, op_lui, op_nor, op_or, op_ori, op_sll,
  op_sllv, op_slt, op_slti, op_sltiu, op_sltu, op_sra, op_srav, op_srl, op_srlv, op_sub, op_subu,
  op_xor, op_xori, Instruction,
}
use so.Machine.Mips.Multiply.{word_mod, half_mod, negative, negated, magnitude}

-- What the `switch` leaves for the end: the next program counter, and the load that is delayed.
pub record Next : Type 0 where
  pub pc_after : ℕ
  pub next_load_reg : ℕ
  pub next_load_value : ℕ

abbrev pub sum32 : ℕ → ℕ → ℕ
sum32 a b = (a + b) % word_mod

abbrev pub diff32 : ℕ → ℕ → ℕ
diff32 a b = (a + (word_mod - b)) % word_mod

-- `(a ^ b) & SIGN_BIT`.
abbrev pub sign_differs : ℕ → ℕ → Bool
sign_differs a b = not (bit_and (bit_xor a b) half_mod == 0)

-- `<` on `int`s.
abbrev pub less_signed : ℕ → ℕ → Bool
less_signed a b = ltb ((a + half_mod) % word_mod) ((b + half_mod) % word_mod)

abbrev pub shift_left : ℕ → ℕ → ℕ
shift_left a n = a * 2 ^ n % word_mod

-- `>>` on an `int` copies the sign.
abbrev pub shift_right_signed : ℕ → ℕ → ℕ
shift_right_signed a n = if negative a then word_mod - 1 - (word_mod - 1 - a) / 2 ^ n else a / 2 ^ n

abbrev pub index_to_addr : ℕ → ℕ
index_to_addr x = shift_left x 2

-- Division of `int`s towards zero; the one quotient that does not fit is a fault of the host.
abbrev pub quotient : ℕ → ℕ → ℕ
quotient a b =
    let q = magnitude a / magnitude b in
    if (negative a && not (negative b)) || (not (negative a) && negative b) then negated q else q

abbrev pub remainder : ℕ → ℕ → ℕ
remainder a b = let r = magnitude a % magnitude b in if negative a then negated r else r

abbrev pub divides_into_range : ℕ → ℕ → Bool
divides_into_range a b = not (a == half_mod && b == word_mod - 1)

abbrev pub low_half : ℕ → ℕ
low_half x = bit_and x 0xffff

-- The case is done, with the machine as it is now, and no branch and no load.
abbrev pub proceed : Machine → ℕ → Option (Outcome Next)
proceed m pc = some (ok (record { pc_after = pc; next_load_reg = 0; next_load_value = 0 }) m)

abbrev pub raise : ExceptionType → Machine → ℕ → Option (Outcome Next)
raise x m bad = some (trap x (raise_exception m bad))

-- After a memory access that worked.
abbrev pub after_access {ℓ} :
    {A : Type ℓ}
    → Option (Outcome A)
    → (A → Machine → Option (Outcome Next))
    → Option (Outcome Next)
after_access r f = do t ← r; elim t [ trap x m ↦ some (trap x m) | ok a m ↦ f a m ]

-- `s` and `t` are `registers[rs]` and `registers[rt]`.
unfoldable pub execute_alu : Machine → Instruction → ℕ → Option (Outcome Next)
execute_alu m i pc =
    let s = m.registers i.rs in
    let t = m.registers i.rt in
    let to_rd = λ (x : ℕ). proceed (set_register m i.rd x) pc in
    let to_rt = λ (x : ℕ). proceed (set_register m i.rt x) pc in
    elim i.op_code [
      | op_add ↦
          if not (sign_differs s t) && sign_differs s (sum32 s t)
          then raise overflow_exception m 0
          else to_rd (sum32 s t)
      | op_addi ↦
          if not (sign_differs s i.extra) && sign_differs i.extra (sum32 s i.extra)
          then raise overflow_exception m 0
          else to_rt (sum32 s i.extra)
      | op_addiu ↦ to_rt (sum32 s i.extra)
      | op_addu ↦ to_rd (sum32 s t)
      | op_and ↦ to_rd (bit_and s t)
      | op_andi ↦ to_rt (bit_and s (low_half i.extra))
      | op_lui ↦ to_rt (shift_left i.extra 16)
      | op_nor ↦ to_rd (word_mod - 1 - bit_or s t)
      | op_or ↦ to_rd (bit_or s s)
      | op_ori ↦ to_rt (bit_or s (low_half i.extra))
      | op_sll ↦ to_rd (shift_left t i.extra)
      | op_sllv ↦ to_rd (shift_left t (bit_and s 0x1f))
      | op_slt ↦ to_rd (if less_signed s t then 1 else 0)
      | op_slti ↦ to_rt (if less_signed s i.extra then 1 else 0)
      | op_sltiu ↦ to_rt (if ltb s i.extra then 1 else 0)
      | op_sltu ↦ to_rd (if ltb s t then 1 else 0)
      | op_sra ↦ to_rd (shift_right_signed t i.extra)
      | op_srav ↦ to_rd (shift_right_signed t (bit_and s 0x1f))
      | op_srl ↦ to_rd (shift_right_signed t i.extra)
      | op_srlv ↦ to_rd (shift_right_signed t (bit_and s 0x1f))
      | op_sub ↦
          if sign_differs s t && sign_differs s (diff32 s t)
          then raise overflow_exception m 0
          else to_rd (diff32 s t)
      | op_subu ↦ to_rd (diff32 s t)
      | op_xor ↦ to_rd (bit_xor s t)
      | op_xori ↦ to_rt (bit_xor s (low_half i.extra))
      | _ ↦ none
    ]
