-- ===== src/Machine/Mips/Shifts.antt =====
-- How words of the register format are decoded, and what the shifts to the right do.
use so.Prelude.{
  ℕ, zero, suc, ◌+◌, ◌-◌, ◌*◌, ◌/◌, ◌%◌, ◌^◌, ◌≤◌, ◌<◌, get_or, some, ◌≡◌, ◌≢◌, ◌⊎◌, inl, inr, sym,
  ap, dec_lt, refl, arith, ◌∙◌,
}
use Prim.Native.Nat.{bit_and}
use native.Mathlib.Nat.{
  pow-zero, pow-suc, pow-succ', mul-le-mul_left, div-mul-le_self, div-eq_of_lt-le, div-add-mod',
  mod-lt,
}
use so.Machine.Memory.{Machine, ok, set_register}
use so.Machine.Mips.Decode.{Instruction, special_table, op_table, op_res, op_srl, op_srlv, decode}
use so.Machine.Mips.Multiply.{word_mod}
use so.Machine.Mips.Alu.{Next, shift_right_signed, execute_alu}

-- The word with these fields, by the MIPS manual.
pub encode_r : ℕ → ℕ → ℕ → ℕ → ℕ → ℕ
encode_r rs rt rd shamt funct = rs * 0x20_0000 + rt * 0x1_0000 + rd * 0x800 + shamt * 64 + funct

-- `Decode` of a word of the register format finds its fields again, and the operation by the table.
pub decode-encode_r :
    (rs rt rd shamt funct : ℕ)
    → rs < 32
    → rt < 32
    → rd < 32
    → shamt < 32
    → funct < 64
    → decode (encode_r rs rt rd shamt funct) ≡ record {
      op_code = get_or special_table funct op_res;
      rs = rs;
      rt = rt;
      rd = rd;
      extra = shamt;
    }
unfolding decode encode_r op_table
decode-encode_r rs rt rd shamt funct h₁ h₂ h₃ h₄ h₅ =
    let w = encode_r rs rt rd shamt funct in
    let e₀ : w / 0x400_0000 % 64 ≡ 0 = omega arith in
    let e₁ : w / 0x20_0000 % 32 ≡ rs = omega arith in
    let e₂ : w / 0x1_0000 % 32 ≡ rt = omega arith in
    let e₃ : w / 0x800 % 32 ≡ rd = omega arith in
    let e₄ : w / 64 % 32 ≡ shamt = omega arith in
    let e₅ : w % 64 ≡ funct = omega arith in rw (decode, e₀, e₁, e₂, e₃, e₄, e₅) refl

pow_two : (n : ℕ) → 2 ≤ 2 ^ suc n
pow_two zero = omega arith
pow_two (suc n) = omega (arith, pow-suc 2 (suc n), pow_two n)

div_half : (x p : ℕ) → 2 ≤ p → 2 * (x / p) ≤ x
div_half x p h = omega (arith, mul-le-mul_left (x / p) h, div-mul-le_self x p)

pow_add : (n k : ℕ) → 2 ^ n * 2 ^ k ≡ 2 ^ (n + k)
pow_add zero k = let e : 0 + k ≡ k = omega arith in rw (e, pow-zero 2) (omega arith)
pow_add (suc n) k =
    let e : suc n + k ≡ suc (n + k) = omega arith in
    rw (e, pow-succ' 2 n, pow-succ' 2 (n + k), sym (pow_add n k)) (grind arith)

-- The quotient of the complement of `t`.
complement_div : (p m q b t : ℕ) → 0 < p → b < p → t ≡ q * p + b → ((m + q + 1) * p - 1 - t) / p ≡ m
complement_div p m q b t some_p small e =
    let split : (m + q + 1) * p ≡ m * p + q * p + p = grind arith in
    let next : (m + 1) * p ≡ m * p + p = grind arith in
    div-eq_of_lt-le p (omega (arith, split, e)) (omega (arith, split, next, e))

-- The shift of a negative word: zeros come in, and the places that they take are set.
shifted_negative :
    (t n : ℕ)
    → n ≤ 32
    → t < word_mod
    → word_mod - 1 - (word_mod - 1 - t) / 2 ^ n ≡ t / 2 ^ n + (word_mod - 2 ^ (32 - n))
shifted_negative t n few small =
    let p = 2 ^ n in
    let r = 2 ^ (32 - n) in
    let q = t / p in
    let whole : p * r ≡ word_mod =
      pow_add n (32 - n) ∙ ap (λ k. 2 ^ k) (let e : n + (32 - n) ≡ 32 = omega arith in e) in
    let some_p : 0 < p = positive n in
    let below : q < r = elim (dec_lt q r) [
      | yes y ↦ y
      | no n ↦ absurd (
          let over = mul-le-mul_left p (let le : r ≤ q = omega (arith, n) in le) in
          grind (arith, whole, over, div-mul-le_self t p))
    ] in
    let parts = div-add-mod' t p in
    let rest = mod-lt t some_p in
    let r_parts : (r - 1 - q) + q + 1 ≡ r = omega arith in
    let div = complement_div p (r - 1 - q) q (t % p) t some_p rest (sym parts) in
    let turned : ((r - 1 - q) + q + 1) * p ≡ word_mod = rw r_parts (grind (arith, whole)) in
    let r_small : r ≤ word_mod = let le = mul-le-mul_left r some_p in grind (arith, whole, le) in
    let at : (word_mod - 1 - t) / p ≡ r - 1 - q = ap (λ w. (w - 1 - t) / p) (sym turned) ∙ div in
    omega (arith, at, below, r_small)
  where
    positive : (n : ℕ) → 0 < 2 ^ n
    positive zero = omega (arith, pow-zero 2)
    positive (suc n) = omega (arith, pow-suc 2 n, positive n)

-- How far SRL and SRLV shift.
abbrev pub ShiftsBy : Machine → Instruction → ℕ → Type 0
ShiftsBy m i n =
    ((i.op_code ≡ op_srl) × (i.extra ≡ n))
    ⊎ ((i.op_code ≡ op_srlv) × (bit_and (m.registers i.rs) 0x1f ≡ n))

-- SRL and SRLV shift an `int`, so the sign comes in: on a negative register, and a distance that is not zero, they
-- leave in their target register the word shifted to the right with ones in the places on the left, which is not
-- the word shifted by zeros, and no other register changes.
pub srl_copies_sign :
    (m : Machine) (i : Instruction) (pc n : ℕ)
    → ShiftsBy m i (suc n)
    → suc n < 32
    → 0x8000_0000 ≤ m.registers i.rt
    → m.registers i.rt < 0x1_0000_0000
    → (m' : Machine) × (next : Next) × (execute_alu m i pc ≡ some (ok next m'))
      × (m'.registers i.rd ≡ m.registers i.rt / 2 ^ suc n + (0x1_0000_0000 - 2 ^ (32 - suc n)))
      × (m'.registers i.rd ≢ m.registers i.rt / 2 ^ suc n)
      × ((r : ℕ) → i.rd ≢ r → m'.registers r ≡ m.registers r)
unfolding execute_alu
srl_copies_sign m i pc n by few neg small = (
  set_register m i.rd v,
  record { pc_after = pc; next_load_reg = 0; next_load_value = 0 },
  elim by [
    | inl (op, ex) ↦ rw (execute_alu, op, ex) refl
    | inr (op, ex) ↦ rw (execute_alu, op, ex) refl
  ],
  sym at_rd ∙ filled,
  λ same. absurd (differs (at_rd ∙ same)),
  λ r ne. ground arith,
)
  where
    t : ℕ
    t = m.registers i.rt

    v : ℕ
    v = shift_right_signed t (suc n)

    at_rd : v ≡ (set_register m i.rd v).registers i.rd
    at_rd = ground arith

    filled : v ≡ t / 2 ^ suc n + (word_mod - 2 ^ (32 - suc n))
    filled = let shifted = shifted_negative t (suc n) (omega arith) small in ground (arith, shifted)

    differs : v ≢ t / 2 ^ suc n
    differs e =
        let low = div_half t (2 ^ suc n) (pow_two n) in
        let high = div_half (word_mod - 1 - t) (2 ^ suc n) (pow_two n) in
        ground (arith, low, high, e)
