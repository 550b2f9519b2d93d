-- ===== src/Machine/Mips/Multiply/Rounds.antt =====
-- The rounds of `Mult`: each adds what is due for one bit of the first factor.
use so.Prelude.{
  ℕ, zero, suc, ◌+◌, ◌-◌, ◌*◌, ◌/◌, ◌%◌, ◌^◌, ◌≤◌, ◌<◌, ltb, ◌==◌, if◌then◌else◌, ◌≡◌, refl, arith,
  ◌⊎◌, inl, inr, Bool-cases, ◌∙◌,
}
use native.Mathlib.Nat.{pow-suc}
use so.Machine.Mips.Multiply.{mult_from, negative, shift_right}

-- A double word as one number.
abbrev pub double : ℕ × ℕ → ℕ
double (hi, lo) = hi * 0x1_0000_0000 + lo

-- The invariant of the loop, with `r` rounds left: `t` is what is left of the first factor, below 2 ^ r,
-- and the bits above are all zero or, once the sign has been copied, all one.
pub data Remains (t r : ℕ) : ℕ → Type 0 where
  zeros : t < 0x8000_0000 → Remains t r t
  ones :
      (p : ℕ)
      → 2 ^ r ≡ p
      → p ≤ 0x1_0000_0000
      → (r ≡ 0) ⊎ (p ≤ 2 * t)
      → Remains t r (t + (0x1_0000_0000 - p))

add_double :
    (b_hi b_lo hi lo : ℕ)
    → b_hi < 0x1_0000_0000
    → b_lo < 0x1_0000_0000
    → hi < 0x1_0000_0000
    → lo < 0x1_0000_0000
    → double (
      (hi + (if ltb ((lo + b_lo) % 0x1_0000_0000) b_lo then 1 else 0) + b_hi) % 0x1_0000_0000,
      (lo + b_lo) % 0x1_0000_0000,
    )
      ≡ (double (hi, lo) + double (b_hi, b_lo)) % 0x1_0000_0000_0000_0000
add_double b_hi b_lo hi lo h₁ h₂ h₃ h₄ = ground arith

twice_double :
    (b_hi b_lo : ℕ)
    → b_hi < 0x1_0000_0000
    → b_lo < 0x1_0000_0000
    → double
        ((2 * b_hi + (if negative b_lo then 1 else 0)) % 0x1_0000_0000, 2 * b_lo % 0x1_0000_0000)
      ≡ 2 * double (b_hi, b_lo) % 0x1_0000_0000_0000_0000
twice_double b_hi b_lo h₁ h₂ = ground arith

half_ones : (r t p : ℕ) → 2 ^ suc r ≡ p → p ≤ 2 * t → (r ≡ 0) ⊎ (2 ^ r ≤ 2 * (t / 2))
half_ones zero t p e le = inl refl
half_ones (suc r) t p e le = inr (omega (arith, pow-suc 2 r, pow-suc 2 (suc r)))

-- One shift of the first factor.
Remains-shift_right :
    (r t a : ℕ)
    → Remains t (suc r) a
    → (a % 2 ≡ t % 2) × Remains (t / 2) r (shift_right a) × (a < 2 → t ≡ a)
Remains-shift_right r t a (zeros low) =
    (refl, rw (shift_zeros t low) (zeros (omega arith)), λ small. refl)
  where
    shift_zeros : (t : ℕ) → t < 0x8000_0000 → shift_right t ≡ t / 2
    shift_zeros t low = ground arith
Remains-shift_right r t a (ones p e le (inl none_left)) = absurd (omega (arith, none_left))
Remains-shift_right r t a (ones p e le (inr high)) =
    let half : 2 * 2 ^ r ≡ p = omega (arith, pow-suc 2 r) in
    let shifted : shift_right (t + (0x1_0000_0000 - p)) ≡ t / 2 + (0x1_0000_0000 - 2 ^ r) =
      ground (arith, half) in
    (
      omega (arith, half),
      rw shifted (ones (2 ^ r) refl (omega (arith, half)) (half_ones r t p e high)),
      λ small. absurd (omega (arith, half)),
    )

distribute : (q s : ℕ) → q * (s + 0x1_0000_0000_0000_0000) ≡ q * s + q * 0x1_0000_0000_0000_0000
distribute q s = grind arith

wrapped_factor :
    (x q s n : ℕ)
    → n ≡ s + 0x1_0000_0000_0000_0000
    → (x + q * s) % 0x1_0000_0000_0000_0000 ≡ (x + q * n) % 0x1_0000_0000_0000_0000
wrapped_factor x q s n e = rw e (omega (arith, distribute q s))

-- A factor may be taken modulo 2 ^ 64 before it is multiplied.
factor_mod :
    (x q d : ℕ)
    → d < 0x1_0000_0000_0000_0000
    → (x + q * (2 * d % 0x1_0000_0000_0000_0000)) % 0x1_0000_0000_0000_0000
      ≡ (x + q * (2 * d)) % 0x1_0000_0000_0000_0000
factor_mod x q d small = elim (Bool-cases (ltb d 0x8000_0000_0000_0000)) [
  | inl low ↦ let e : 2 * d % 0x1_0000_0000_0000_0000 ≡ 2 * d = ground arith in rw e refl
  | inr high ↦
      let s = 2 * d - 0x1_0000_0000_0000_0000 in
      let e : 2 * d % 0x1_0000_0000_0000_0000 ≡ s = ground arith in
      let e' : 2 * d ≡ s + 0x1_0000_0000_0000_0000 = ground arith in
      rw e (wrapped_factor x q s (2 * d) e')
]

odd_factor : (q d t : ℕ) → t ≡ 2 * q + 1 → t * d ≡ q * (2 * d) + d
odd_factor q d t e = rw e (grind arith)

even_factor : (q d t : ℕ) → t ≡ 2 * q → t * d ≡ q * (2 * d)
even_factor q d t e = rw e (grind arith)

-- What is still to come after a round makes up for what the round did.
odd_round :
    (v d v' d' t : ℕ)
    → d < 0x1_0000_0000_0000_0000
    → v' ≡ (v + d) % 0x1_0000_0000_0000_0000
    → d' ≡ 2 * d % 0x1_0000_0000_0000_0000
    → t % 2 ≡ 1
    → (v' + t / 2 * d') % 0x1_0000_0000_0000_0000 ≡ (v + t * d) % 0x1_0000_0000_0000_0000
odd_round v d v' d' t small ev ed odd =
    let e = odd_factor (t / 2) d t (omega arith) in
    rw (ed) (factor_mod v' (t / 2) d small ∙ omega (arith, e, ev))

even_round :
    (v d d' t : ℕ)
    → d < 0x1_0000_0000_0000_0000
    → d' ≡ 2 * d % 0x1_0000_0000_0000_0000
    → t % 2 ≡ 0
    → (v + t / 2 * d') % 0x1_0000_0000_0000_0000 ≡ (v + t * d) % 0x1_0000_0000_0000_0000
even_round v d d' t small ed even =
    let e = even_factor (t / 2) d t (omega arith) in
    rw (ed) (factor_mod v (t / 2) d small ∙ omega (arith, e))

-- The loop adds the product to what it has, modulo 2 ^ 64.
pub mult_from_lem :
    (r t a b_hi b_lo hi lo : ℕ)
    → Remains t r a
    → t < 2 ^ r
    → b_hi < 0x1_0000_0000
    → b_lo < 0x1_0000_0000
    → hi < 0x1_0000_0000
    → lo < 0x1_0000_0000
    → double (mult_from r a b_hi b_lo hi lo)
      ≡ (double (hi, lo) + t * double (b_hi, b_lo)) % 0x1_0000_0000_0000_0000
unfolding mult_from
mult_from_lem zero t a b_hi b_lo hi lo re lt h₁ h₂ h₃ h₄ =
    let none_left : t ≡ 0 = omega arith in rw none_left (omega arith)
mult_from_lem (suc r) t a b_hi b_lo hi lo re lt h₁ h₂ h₃ h₄ =
    let (parity, next, small) = Remains-shift_right r t a re in
    let less : t / 2 < 2 ^ r = omega (arith, pow-suc 2 r) in
    let d_small : double (b_hi, b_lo) < 0x1_0000_0000_0000_0000 = omega arith in
    let twice = twice_double b_hi b_lo h₁ h₂ in
    let sum = add_double b_hi b_lo hi lo h₁ h₂ h₃ h₄ in
    elim (Bool-cases (a % 2 == 1)) [
      | inl odd ↦ elim (Bool-cases (ltb a 2)) [
        | inl last ↦
            let one : t ≡ 1 = ground (arith, small) in rw (odd, last) (sum ∙ rw one (omega arith))
        | inr more ↦
            rw (odd, more)
              (mult_from_lem r (t / 2) (shift_right a) _ _ _ _ next less (omega arith) (omega arith)
                  (omega arith) (omega arith)
                ∙ odd_round (double (hi, lo)) (double (b_hi, b_lo)) _ _ t d_small sum twice
                    (ground arith))
      ]
      | inr even ↦ rw even (
          mult_from_lem r (t / 2) (shift_right a) _ _ hi lo next less (omega arith) (omega arith) h₃
            h₄
          ∙ even_round (double (hi, lo)) (double (b_hi, b_lo)) _ t d_small twice (ground arith))
    ]

pub mult_from-bounds :
    (r a b_hi b_lo hi lo : ℕ)
    → hi < 0x1_0000_0000
    → lo < 0x1_0000_0000
    → ((mult_from r a b_hi b_lo hi lo).0 < 0x1_0000_0000)
      × ((mult_from r a b_hi b_lo hi lo).1 < 0x1_0000_0000)
unfolding mult_from
mult_from-bounds zero a b_hi b_lo hi lo h l = (h, l)
mult_from-bounds (suc r) a b_hi b_lo hi lo h l = elim (Bool-cases (a % 2 == 1)) [
  | inl odd ↦ elim (Bool-cases (ltb a 2)) [
    | inl last ↦ rw (odd, last) (omega arith, omega arith)
    | inr more ↦
        rw (odd, more) (mult_from-bounds r (shift_right a) _ _ _ _ (omega arith) (omega arith))
  ]
  | inr even ↦ rw even (mult_from-bounds r (shift_right a) _ _ hi lo h l)
]
