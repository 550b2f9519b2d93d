-- ===== src/Machine/Mips/Decode.antt =====
-- machine/mipssim.h and `Instruction::Decode` of machine/mipssim.cc. A word of memory is a number below 2 ^ 32.
use so.Prelude.{ℕ, ◌+◌, ◌/◌, ◌%◌, ltb, ◌==◌, if◌then◌else◌, List, [], ◌∷◌, get_or}

-- `special` and `bcond` stand in the first table only, for words that are decoded further.
pub data OpCode : Type 0 where
  op_add op_addi op_addiu op_addu op_and op_andi : OpCode
  op_beq op_bgez op_bgezal op_bgtz op_blez op_bltz : OpCode
  op_bltzal op_bne op_div op_divu op_j op_jal : OpCode
  op_jalr op_jr op_lb op_lbu op_lh op_lhu : OpCode
  op_lui op_lw op_lwl op_lwr op_mfhi op_mflo : OpCode
  op_mthi op_mtlo op_mult op_multu op_nor op_or : OpCode
  op_ori op_rfe op_sb op_sh op_sll op_sllv : OpCode
  op_slt op_slti op_sltiu op_sltu op_sra op_srav : OpCode
  op_srl op_srlv op_sub op_subu op_sw op_swl : OpCode
  op_swr op_xor op_xori op_syscall op_unimp op_res : OpCode
  special bcond : OpCode

pub data Format : Type 0 where
  i_fmt j_fmt r_fmt : Format

pub record OpInfo : Type 0 where
  pub op_code : OpCode
  pub format : Format

abbrev pub info : OpCode → Format → OpInfo
info c f = record { op_code = c; format = f }

-- By bits 31 to 26.
unfoldable pub op_table : List OpInfo
op_table =
    info special r_fmt
    ∷ info bcond i_fmt
    ∷ info op_j j_fmt
    ∷ info op_jal j_fmt
    ∷ info op_beq i_fmt
    ∷ info op_bne i_fmt
    ∷ info op_blez i_fmt
    ∷ info op_bgtz i_fmt
    ∷ info op_addi i_fmt
    ∷ info op_addiu i_fmt
    ∷ info op_slti i_fmt
    ∷ info op_sltiu i_fmt
    ∷ info op_andi i_fmt
    ∷ info op_ori i_fmt
    ∷ info op_xori i_fmt
    ∷ info op_lui i_fmt
    ∷ info op_unimp i_fmt
    ∷ info op_unimp i_fmt
    ∷ info op_unimp i_fmt
    ∷ info op_unimp i_fmt
    ∷ info op_res i_fmt
    ∷ info op_res i_fmt
    ∷ info op_res i_fmt
    ∷ info op_res i_fmt
    ∷ info op_res i_fmt
    ∷ info op_res i_fmt
    ∷ info op_res i_fmt
    ∷ info op_res i_fmt
    ∷ info op_res i_fmt
    ∷ info op_res i_fmt
    ∷ info op_res i_fmt
    ∷ info op_res i_fmt
    ∷ info op_lb i_fmt
    ∷ info op_lh i_fmt
    ∷ info op_lwl i_fmt
    ∷ info op_lw i_fmt
    ∷ info op_lbu i_fmt
    ∷ info op_lhu i_fmt
    ∷ info op_lwr i_fmt
    ∷ info op_res i_fmt
    ∷ info op_sb i_fmt
    ∷ info op_sh i_fmt
    ∷ info op_swl i_fmt
    ∷ info op_sw i_fmt
    ∷ info op_res i_fmt
    ∷ info op_res i_fmt
    ∷ info op_swr i_fmt
    ∷ info op_res i_fmt
    ∷ info op_unimp i_fmt
    ∷ info op_unimp i_fmt
    ∷ info op_unimp i_fmt
    ∷ info op_unimp i_fmt
    ∷ info op_res i_fmt
    ∷ info op_res i_fmt
    ∷ info op_res i_fmt
    ∷ info op_res i_fmt
    ∷ info op_unimp i_fmt
    ∷ info op_unimp i_fmt
    ∷ info op_unimp i_fmt
    ∷ info op_unimp i_fmt
    ∷ info op_res i_fmt
    ∷ info op_res i_fmt
    ∷ info op_res i_fmt
    ∷ info op_res i_fmt
    ∷ []

-- By the lowest six bits.
unfoldable pub special_table : List OpCode
special_table =
    op_sll ∷ op_res ∷ op_srl ∷ op_sra ∷ op_sllv ∷ op_res ∷ op_srlv ∷ op_srav ∷ op_jr ∷ op_jalr
    ∷ op_res ∷ op_res ∷ op_syscall ∷ op_unimp ∷ op_res ∷ op_res ∷ op_mfhi ∷ op_mthi ∷ op_mflo
    ∷ op_mtlo ∷ op_res ∷ op_res ∷ op_res ∷ op_res ∷ op_mult ∷ op_multu ∷ op_div ∷ op_divu ∷ op_res
    ∷ op_res ∷ op_res ∷ op_res ∷ op_add ∷ op_addu ∷ op_sub ∷ op_subu ∷ op_and ∷ op_or ∷ op_xor
    ∷ op_nor ∷ op_res ∷ op_res ∷ op_slt ∷ op_sltu ∷ op_res ∷ op_res ∷ op_res ∷ op_res ∷ op_res
    ∷ op_res ∷ op_res ∷ op_res ∷ op_res ∷ op_res ∷ op_res ∷ op_res ∷ op_res ∷ op_res ∷ op_res
    ∷ op_res ∷ op_res ∷ op_res ∷ op_res ∷ op_res ∷ []

-- `class Instruction` of machine/machine.h, less the word itself.
pub record Instruction : Type 0 where
  pub op_code : OpCode
  pub rs : ℕ
  pub rt : ℕ
  pub rd : ℕ
  pub extra : ℕ

-- An immediate of 16 bits with its sign.
abbrev pub sign_extend_half : ℕ → ℕ
sign_extend_half x = if ltb x 0x8000 then x else x + 0xffff_0000

abbrev extra_of : Format → ℕ → ℕ
extra_of i_fmt value = sign_extend_half (value % 0x1_0000)
extra_of r_fmt value = value / 64 % 32
extra_of j_fmt value = value % 0x400_0000

-- The branches on the sign of a register, by bits 20 to 16.
abbrev branch_code : ℕ → OpCode
branch_code i =
    if i == 0
    then op_bltz
    else (if i == 1
        then op_bgez
        else (if i == 16 then op_bltzal else (if i == 17 then op_bgezal else op_unimp)))

abbrev refine : OpCode → ℕ → OpCode
refine special value = get_or special_table (value % 64) op_res
refine bcond value = branch_code (value / 0x1_0000 % 32)
refine c value = c

unfoldable pub decode : ℕ → Instruction
decode value =
    let i = get_or op_table (value / 0x400_0000 % 64) (info op_res i_fmt) in
    record {
      op_code = refine i.op_code value;
      rs = value / 0x20_0000 % 32;
      rt = value / 0x1_0000 % 32;
      rd = value / 0x800 % 32;
      extra = extra_of i.format value;
    }
