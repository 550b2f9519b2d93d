-- ===== src/Machine/Mips/Multiply/Product.antt =====
-- That `Mult` computes the product.
use so.Prelude.{
  ℕ, ◌+◌, ◌-◌, ◌*◌, ◌%◌, ◌≤◌, ◌<◌, ltb, ◌==◌, if◌then◌else◌, ◌&&◌, ◌||◌, Bool, true, false, not,
  ◌≡◌, refl, arith, inl, inr, Bool-cases, ◌∙◌, subst,
}
use native.Mathlib.Nat.{mul-le-mul_left}
use so.Machine.Mips.Multiply.{mult_from, mult, negative, magnitude, complemented}
use so.Machine.Mips.Multiply.Rounds.{double, Remains, zeros, ones, mult_from_lem, mult_from-bounds}

complemented_lem :
    (x : ℕ × ℕ)
    → x.0 < 0x1_0000_0000
    → x.1 < 0x1_0000_0000
    → double (complemented x) ≡ (0x1_0000_0000_0000_0000 - double x) % 0x1_0000_0000_0000_0000
complemented_lem (hi, lo) h l = ground arith

product_small : (a b : ℕ) → a < 0x1_0000_0000 → b < 0x1_0000_0000 → a * b < 0x1_0000_0000_0000_0000
product_small a b h k =
    let below : b ≤ 0x1_0000_0000 = omega arith in omega (arith, mul-le-mul_left a below)

at_start : (a : ℕ) → a < 0x1_0000_0000 → Remains a 32 a
at_start a lt = elim (Bool-cases (ltb a 0x8000_0000)) [
  | inl low ↦ zeros (ground arith)
  | inr high ↦
      let e : a + (0x1_0000_0000 - 0x1_0000_0000) ≡ a = omega arith in
      subst (Remains a 32) e (ones 0x1_0000_0000 refl (omega arith) (inr (ground arith)))
]

-- All 32 rounds, from nothing.
rounds_lem :
    (a b : ℕ) → a < 0x1_0000_0000 → b < 0x1_0000_0000 → double (mult_from 32 a 0 b 0 0) ≡ a * b
rounds_lem a b h k =
    mult_from_lem 32 a a 0 b 0 0 (at_start a h) h (omega arith) k (omega arith) (omega arith)
    ∙ omega (arith, product_small a b h k)

-- Whether exactly one of two words is negative as an `int`.
abbrev signs_differ : ℕ → ℕ → Bool
signs_differ a b = (negative a && not (negative b)) || (not (negative a) && negative b)

zero_product : (a b : ℕ) → (a == 0 || b == 0) ≡ true → (a * b ≡ 0) × (magnitude a * magnitude b ≡ 0)
zero_product a b some_zero = elim (Bool-cases (a == 0)) [
  | inl z ↦ let e : a ≡ 0 = ground arith in rw e (omega arith, omega arith)
  | inr nz ↦ let e : b ≡ 0 = ground arith in rw e (omega arith, omega arith)
]

magnitude_small : (a : ℕ) → a < 0x1_0000_0000 → magnitude a < 0x1_0000_0000
magnitude_small a h = ground arith

unsigned_lem : (a b : ℕ) → a < 0x1_0000_0000 → b < 0x1_0000_0000 → double (mult a b false) ≡ a * b
unfolding mult
unsigned_lem a b h k = elim (Bool-cases (a == 0 || b == 0)) [
  | inl z ↦ rw z (omega (arith, (zero_product a b z).0))
  | inr nz ↦ rw nz (rounds_lem a b h k)
]

signed_lem :
    (a b : ℕ)
    → a < 0x1_0000_0000
    → b < 0x1_0000_0000
    → double (mult a b true) ≡ (
        if signs_differ a b
        then (0x1_0000_0000_0000_0000 - magnitude a * magnitude b) % 0x1_0000_0000_0000_0000
        else magnitude a * magnitude b)
unfolding mult
signed_lem a b h k =
    let x = mult_from 32 (magnitude a) 0 (magnitude b) 0 0 in
    let product : double x ≡ magnitude a * magnitude b =
      rounds_lem (magnitude a) (magnitude b) (magnitude_small a h) (magnitude_small b k) in
    let (hi, lo) =
      mult_from-bounds 32 (magnitude a) 0 (magnitude b) 0 0 (omega arith) (omega arith) in
    elim (Bool-cases (a == 0 || b == 0)) [
      | inl z ↦
          let none_left = (zero_product a b z).1 in
          elim (Bool-cases (signs_differ a b)) [
            | inl differ ↦ rw (z, differ) (omega (arith, none_left))
            | inr agree ↦ rw (z, agree) (omega (arith, none_left))
          ]
      | inr nz ↦ elim (Bool-cases (signs_differ a b)) [
        | inl differ ↦ rw (nz, differ) (complemented_lem x hi lo ∙ omega (arith, product))
        | inr agree ↦ rw (nz, agree) product
      ]
    ]

-- For two words, `Mult` without signs leaves their product in the two result words; with signs, the product
-- of their magnitudes, or where the signs differ, its two's complement in 64 bits.
pub mult_lem :
    (a b : ℕ)
    → a < 0x1_0000_0000
    → b < 0x1_0000_0000
    → (double (mult a b false) ≡ a * b)
      × (double (mult a b true) ≡ (
          if signs_differ a b
          then (0x1_0000_0000_0000_0000 - magnitude a * magnitude b) % 0x1_0000_0000_0000_0000
          else magnitude a * magnitude b))
mult_lem a b h k = (unsigned_lem a b h k, signed_lem a b h k)
