-- ===== src/Tests/Decoding.antt =====
-- Concrete instructions.
use so.Prelude.{ℕ, ◌+◌, ◌-◌, inl, ◌/◌, ◌^◌, none, some, ◌≡◌, ◌≢◌, refl, arith}
use so.Machine.Memory.{Machine, ok}
use so.Machine.Mips.Decode.{Instruction, op_srl}
use so.Machine.Mips.Alu.{Next, execute_alu}
use so.Machine.Mips.Shifts.{srl_copies_sign}

-- SRL of register 5 by three places, to register 6.
abbrev srl : Instruction
srl = record { op_code = op_srl; rs = 0; rt = 5; rd = 6; extra = 3 }

abbrev minus_two : Machine
minus_two = record {
  main_memory = λ a. 0;
  registers = λ r. 0xffff_fffe;
  tlb = none;
  page_table = none;
  page_table_size = 0;
}

srl_copies_sign_example :
    (m' : Machine) × (next : Next) × (execute_alu minus_two srl 8 ≡ some (ok next m'))
    × (m'.registers 6 ≡ 0xffff_fffe / 2 ^ 3 + (0x1_0000_0000 - 2 ^ (32 - 3)))
    × (m'.registers 6 ≢ 0xffff_fffe / 2 ^ 3)
    × ((r : ℕ) → 6 ≢ r → m'.registers r ≡ minus_two.registers r)
srl_copies_sign_example =
    srl_copies_sign minus_two srl 8 2 (inl (refl, refl)) (omega arith) (omega arith) (omega arith)
