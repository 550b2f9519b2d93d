-- ===== src/Prelude/CString.antt =====
-- C strings: the bytes before the terminating 0, which is not written. A byte past the end reads 0.
use so.Prelude.Tests.{◌==◌, if◌then◌else◌}
use Prim.Native.Nat.{ℕ, zero, suc}
use mathlib.Core.Path.{◌≡◌, refl}
use mathlib.Core.Bool.{Bool, true, false}
use mathlib.Core.List.{List, [], ◌∷◌}
use native.Mathlib.Omega.{arith}

abbrev pub head_byte : List ℕ → ℕ
head_byte [] = 0
head_byte (c ∷ s) = c

abbrev pub tail_bytes : List ℕ → List ℕ
tail_bytes [] = []
tail_bytes (c ∷ s) = s

-- `!strncmp(a, b, n)`.
unfoldable pub strncmp_equal : ℕ → List ℕ → List ℕ → Bool
strncmp_equal zero a b = true
strncmp_equal (suc n) a b =
    let rest = strncmp_equal n (tail_bytes a) (tail_bytes b) in
    if head_byte a == head_byte b then (if head_byte a == 0 then true else rest) else false

-- `strncpy(to, from, n)`: `n` bytes are written, padded with zeros; the rest of `to` stays.
unfoldable pub strncpy : ℕ → List ℕ → List ℕ → List ℕ
strncpy zero to from = to
strncpy (suc n) to from = head_byte from ∷ strncpy n (tail_bytes to) (tail_bytes from)

pub strncmp_equal_refl : (n : ℕ) (a : List ℕ) → strncmp_equal n a a ≡ true
unfolding strncmp_equal
strncmp_equal_refl zero a = refl
strncmp_equal_refl (suc n) a = ground (arith, strncmp_equal_refl n (tail_bytes a))

pub strncmp_equal_comm : (n : ℕ) (a b : List ℕ) → strncmp_equal n a b ≡ strncmp_equal n b a
unfolding strncmp_equal
strncmp_equal_comm zero a b = refl
strncmp_equal_comm (suc n) a b = ground (arith, strncmp_equal_comm n (tail_bytes a) (tail_bytes b))

pub strncmp_equal_trans :
    (n : ℕ) (a b c : List ℕ)
    → strncmp_equal n a b ≡ true
    → strncmp_equal n b c ≡ true
    → strncmp_equal n a c ≡ true
unfolding strncmp_equal
strncmp_equal_trans zero a b c p q = refl
strncmp_equal_trans (suc n) a b c p q =
    ground (arith, strncmp_equal_trans n (tail_bytes a) (tail_bytes b) (tail_bytes c))

-- What was copied compares as the original does.
pub strncmp_equal-strncpy :
    (n : ℕ) (to from s : List ℕ) → strncmp_equal n (strncpy n to from) s ≡ strncmp_equal n from s
unfolding strncmp_equal strncpy
strncmp_equal-strncpy zero to from s = refl
strncmp_equal-strncpy (suc n) to from s =
    ground (arith, strncmp_equal-strncpy n (tail_bytes to) (tail_bytes from) (tail_bytes s))
