-- ===== src/Machine/Mips/Multiply.antt =====
-- `Mult` of machine/mipssim.cc: words are numbers below 2 ^ 32, and an `int` is its pattern.
pub mod Rounds
pub mod Product
use so.Prelude.{
  ℕ, zero, suc, ◌+◌, ◌-◌, ◌*◌, ◌/◌, ◌%◌, ◌^◌, ltb, leb, ◌==◌, if◌then◌else◌, ◌&&◌, ◌||◌, Bool, true,
  false, not,
}

abbrev pub word_mod : ℕ
word_mod = 0x1_0000_0000

abbrev pub half_mod : ℕ
half_mod = 0x8000_0000

abbrev pub negative : ℕ → Bool
negative a = leb half_mod a

-- `-a`, which wraps.
abbrev pub negated : ℕ → ℕ
negated a = (word_mod - a) % word_mod

-- `a >>= 1` on an `int` copies the sign.
abbrev pub shift_right : ℕ → ℕ
shift_right a = a / 2 + (if negative a then half_mod else 0)

-- The main loop with `r` rounds left; the result is `hi` and `lo`.
unfoldable pub mult_from : ℕ → ℕ → ℕ → ℕ → ℕ → ℕ → ℕ × ℕ
mult_from zero a b_hi b_lo hi lo = (hi, lo)
mult_from (suc r) a b_hi b_lo hi lo =
    let odd = a % 2 == 1 in
    let sum = (lo + b_lo) % word_mod in
    let hi' = (hi + (if ltb sum b_lo then 1 else 0) + b_hi) % word_mod in
    let b_hi' = (2 * b_hi + (if negative b_lo then 1 else 0)) % word_mod in
    let b_lo' = 2 * b_lo % word_mod in
    let added = mult_from r (shift_right a) b_hi' b_lo' hi' sum in
    let passed = mult_from r (shift_right a) b_hi' b_lo' hi lo in
    if odd then (if ltb a 2 then (hi', sum) else added) else passed

-- The two's complement of the double word.
abbrev pub complemented : ℕ × ℕ → ℕ × ℕ
complemented (hi, lo) =
    let lo' = (word_mod - 1 - lo + 1) % word_mod in
    let hi' = word_mod - 1 - hi in (if lo' == 0 then (hi' + 1) % word_mod else hi', lo')

abbrev pub magnitude : ℕ → ℕ
magnitude a = if negative a then negated a else a

unfoldable pub mult : ℕ → ℕ → Bool → ℕ × ℕ
mult a b signed =
    let flipped = (negative a && not (negative b)) || (not (negative a) && negative b) in
    let product =
      if signed then mult_from 32 (magnitude a) 0 (magnitude b) 0 0 else mult_from 32 a 0 b 0 0 in
    if a == 0 || b == 0
    then (0, 0)
    else (if signed && flipped then complemented product else product)
