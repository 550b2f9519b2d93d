-- ===== src/Prelude/Words.antt =====
-- An `int` in the memory of a little endian host, as a number below 2 ^ 32.
use Prim.Native.Nat.{ℕ, ◌+◌, ◌-◌, ◌*◌, ◌/◌, ◌%◌, ◌<◌}
use mathlib.Core.Path.{◌≡◌}
use native.Mathlib.Omega.{arith}
use so.Prelude.Tests.{ltb, if◌then◌else◌}

abbrev pub int_at : (ℕ → ℕ) → ℕ → ℕ
int_at b a = b a + b (a + 1) * 256 + b (a + 2) * 65536 + b (a + 3) * 16777216

-- The bytes of three `int`s, one after the other.
abbrev pub byte_of : ℕ → ℕ → ℕ
byte_of w i =
    if ltb i 2
    then (if ltb i 1 then w % 256 else w / 256 % 256)
    else (if ltb i 3 then w / 65536 % 256 else w / 16777216 % 256)

abbrev pub three_ints : ℕ → ℕ → ℕ → ℕ → ℕ
three_ints a b c j =
    if ltb j 8 then (if ltb j 4 then byte_of a j else byte_of b (j - 4)) else byte_of c (j - 8)

pub int_bytes :
    (w : ℕ)
    → w < 4294967296
    → w % 256 + w / 256 % 256 * 256 + w / 65536 % 256 * 65536 + w / 16777216 % 256 * 16777216 ≡ w
int_bytes w h = omega arith

pub int_at-first : (a b c : ℕ) → a < 4294967296 → int_at (three_ints a b c) 0 ≡ a
int_at-first a b c h = int_bytes a h

pub int_at-second : (a b c : ℕ) → b < 4294967296 → int_at (three_ints a b c) 4 ≡ b
int_at-second a b c h = int_bytes b h

pub int_at-third : (a b c : ℕ) → c < 4294967296 → int_at (three_ints a b c) 8 ≡ c
int_at-third a b c h = int_bytes c h
