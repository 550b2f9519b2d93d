-- ===== src/Prelude/Bits.antt =====
-- Bits of native numbers: what `|`, `&` and `^` do to the bit at one place, for every width.
use Prim.Native.Nat.{
  ℕ, zero, suc, ◌+◌, ◌*◌, ◌-◌, ◌/◌, ◌%◌, ◌^◌, ◌≤◌, ◌<◌, min, max, bit_and, bit_or, digits,
  bit_and-bitwise, bit_or-bitwise,
}
use mathlib.Core.Path.{◌≡◌, refl, ◌∙◌, ap}
use mathlib.Core.Logic.{◌≢◌}
use mathlib.Core.Bool.{Bool, true, ◌&&◌}
use native.Mathlib.Omega.{arith}
use native.Mathlib.Nat.{pow-suc}
use so.Prelude.Tests.{◌==◌, ==_iff, if◌then◌else◌}

-- The bit of `a` at place `k`, counted from the lowest.
unfoldable pub bit : ℕ → ℕ → ℕ
bit a zero = a % 2
bit a (suc k) = bit (a / 2) k

pub bit-le-one : (a k : ℕ) → bit a k ≤ 1
unfolding bit
bit-le-one a zero = omega arith
bit-le-one a (suc k) = bit-le-one (a / 2) k

pub zero-bit : (k : ℕ) → bit 0 k ≡ 0
unfolding bit
zero-bit zero = refl
zero-bit (suc k) = zero-bit k

-- Both operations take one digit at a time; how many more steps they are given than the first
-- operand needs makes no difference.
module _ (rest : ℕ → ℕ) (digit : ℕ → ℕ → ℕ) where
  pub digits_steps :
      (x y r s : ℕ) → x ≤ r → x ≤ s → digits rest digit r x y ≡ digits rest digit s x y
  digits_steps zero y zero zero hr hs = refl
  digits_steps zero y zero (suc s) hr hs = refl
  digits_steps zero y (suc r) zero hr hs = refl
  digits_steps zero y (suc r) (suc s) hr hs = refl
  digits_steps (suc x) y zero s hr hs = absurd (omega arith)
  digits_steps (suc x) y (suc r) zero hr hs = absurd (omega arith)
  digits_steps (suc x) y (suc r) (suc s) hr hs =
      omega (arith, digits_steps (suc x / 2) (y / 2) r s (omega arith) (omega arith))

pub bit_and_step : (x y : ℕ) → bit_and x y ≡ bit_and (x / 2) (y / 2) * 2 + min (x % 2) (y % 2)
bit_and_step zero b = omega (arith, bit_and-bitwise zero b, bit_and-bitwise zero (b / 2))
bit_and_step (suc a) b =
    let half = suc a / 2 in
    let steps = digits_steps (λ y. zero) min half (b / 2) a half (omega arith) (omega arith) in
    omega (arith, steps, bit_and-bitwise half (b / 2), bit_and-bitwise (suc a) b)

pub bit_or_step : (x y : ℕ) → bit_or x y ≡ bit_or (x / 2) (y / 2) * 2 + max (x % 2) (y % 2)
bit_or_step zero b = omega (arith, bit_or-bitwise 0 (b / 2), bit_or-bitwise 0 b)
bit_or_step (suc a) b =
    let half = suc a / 2 in
    let steps = digits_steps (λ y. y) max half (b / 2) a half (omega arith) (omega arith) in
    omega (arith, steps, bit_or-bitwise half (b / 2), bit_or-bitwise (suc a) b)

pub bit-bit_and : (a b k : ℕ) → bit (bit_and a b) k ≡ min (bit a k) (bit b k)
unfolding bit
bit-bit_and a b zero = omega (arith, bit_and_step a b)
bit-bit_and a b (suc k) =
    let e : bit_and a b / 2 ≡ bit_and (a / 2) (b / 2) = omega (arith, bit_and_step a b) in
    ap (λ n. bit n k) e ∙ bit-bit_and (a / 2) (b / 2) k

pub bit-bit_or : (a b k : ℕ) → bit (bit_or a b) k ≡ max (bit a k) (bit b k)
unfolding bit
bit-bit_or a b zero = omega (arith, bit_or_step a b)
bit-bit_or a b (suc k) =
    let e : bit_or a b / 2 ≡ bit_or (a / 2) (b / 2) = omega (arith, bit_or_step a b) in
    ap (λ n. bit n k) e ∙ bit-bit_or (a / 2) (b / 2) k

pow_half : (k : ℕ) → 2 ^ suc k / 2 ≡ 2 ^ k
pow_half k = omega (arith, pow-suc 2 k)

masked_out : (bound x : ℕ) → x ≤ bound → bit_and x 0 ≡ 0
masked_out bound zero below = refl
masked_out zero (suc x) below = absurd (omega arith)
masked_out (suc bound) (suc x) below =
    let half = masked_out bound (suc x / 2) (omega arith) in
    omega (arith, half, bit_and_step (suc x) 0)

bit_and-zero : (x : ℕ) → bit_and x 0 ≡ 0
bit_and-zero x = masked_out x x (omega arith)

-- A mask of one bit keeps that bit.
pub bit_and-pow : (a k : ℕ) → bit_and a (2 ^ k) ≡ bit a k * 2 ^ k
unfolding bit
bit_and-pow a zero = omega (arith, bit_and_step a 1, bit_and-zero (a / 2))
bit_and-pow a (suc k) =
    bit_and_step a (2 ^ suc k) ∙ rw (pow_half k, bit_and-pow (a / 2) k) (grind (arith, pow-suc 2 k))

pub pow_pos : (k : ℕ) → 0 < 2 ^ k
pow_pos zero = omega arith
pow_pos (suc k) = omega (arith, pow_pos k, pow-suc 2 k)

-- The bits of a mask of one bit.
pub bit-pow_self : (k : ℕ) → bit (2 ^ k) k ≡ 1
unfolding bit
bit-pow_self zero = refl
bit-pow_self (suc k) = rw (pow_half k) (bit-pow_self k)

pub bit-pow_ne : (k j : ℕ) → k ≢ j → bit (2 ^ k) j ≡ 0
unfolding bit
bit-pow_ne zero zero h = absurd (h refl)
bit-pow_ne zero (suc j) h = zero-bit j
bit-pow_ne (suc k) zero h = omega (arith, pow-suc 2 k)
bit-pow_ne (suc k) (suc j) h = rw (pow_half k) (bit-pow_ne k j (λ e. h (ap suc e)))

-- A test of all values below a bound, for tables that are checked by evaluation.
each_below : (ℕ → Bool) → ℕ → Bool
each_below test zero = true
each_below test (suc last) = each_below test last && test last

each_below_holds :
    (test : ℕ → Bool) (last : ℕ) → each_below test last ≡ true → (i : ℕ) → i < last → test i ≡ true
unfolding each_below
each_below_holds test zero all i below = absurd (omega arith)
each_below_holds test (suc last) all i below =
    ground (arith, each_below_holds test last (ground arith) i)

-- The complement of a 32-bit word, `~a` in C.
abbrev pub ones : ℕ
ones = 2 ^ 32 - 1

mask_table :
    each_below (λ k. each_below (λ j. bit (ones - 2 ^ k) j == (if k == j then 0 else 1)) 32) 32
    ≡ true
unfolding each_below bit
mask_table = refl

pub bit-complement_pow :
    (k j : ℕ) → k < 32 → j < 32 → bit (ones - 2 ^ k) j ≡ (if k == j then 0 else 1)
bit-complement_pow k j hk hj =
    let row = each_below_holds _ 32 mask_table k hk in
    (==_iff _ _).0 (each_below_holds _ 32 row j hj)
