-- ===== src/Userprog/BitMap.antt =====
-- userprog/bitmap.h and userprog/bitmap.cc: a set of small numbers in 32-bit words. An `int` index
-- is a ℤ, since the ASSERTs look at its sign; a word is a number below 2 ^ 32.
pub mod View
pub mod Find
pub mod Fresh
use so.Prelude.{
  ℕ, zero, suc, ◌+◌, ◌-◌, ◌/◌, ◌%◌, ◌^◌, ltb, ◌==◌, if◌then◌else◌, ◌&&◌, Bool, true, false, not,
  List, [], ◌∷◌, Option, none, some, ℤ, pos, negsuc, get_or, set, bit_and, bit_or, assert, ◌>>=◌,
  ◌>>◌,
}
use so.Prelude.Bits.{ones}

abbrev pub bits_in_word : ℕ
bits_in_word = 32

-- `divRoundUp` of threads/utility.h.
abbrev pub div_round_up : ℕ → ℕ → ℕ
div_round_up n s = n / s + (if ltb 0 (n % s) then 1 else 0)

pub record BitMap : Type 0 where
  pub num_bits : ℕ
  pub num_words : ℕ
  pub map : List ℕ

-- The word that holds bit `i`.
abbrev pub word_of : BitMap → ℕ → ℕ
word_of m i = get_or m.map (i / bits_in_word) 0

abbrev pub set_word : BitMap → ℕ → ℕ → BitMap
set_word m i w = record m { map = set m.map (i / bits_in_word) w }

-- The condition of the ASSERTs.
abbrev pub in_range : BitMap → ℕ → Bool
in_range m i = ltb i m.num_bits

unfoldable pub mark : BitMap → ℤ → Option BitMap
mark m (negsuc n) = none
mark m (pos i) = do
  assert (in_range m i)
  some (set_word m i (bit_or (word_of m i) (2 ^ (i % bits_in_word))))

unfoldable pub clear : BitMap → ℤ → Option BitMap
clear m (negsuc n) = none
clear m (pos i) = do
  assert (in_range m i)
  some (set_word m i (bit_and (word_of m i) (ones - 2 ^ (i % bits_in_word))))

unfoldable pub test : BitMap → ℤ → Option Bool
test m (negsuc n) = none
test m (pos i) = do
  assert (in_range m i)
  some (not (bit_and (word_of m i) (2 ^ (i % bits_in_word)) == 0))

-- `new unsigned int[numWords]` leaves the words as they are in memory.
abbrev pub garbage_words : (ℕ → ℕ) → ℕ → ℕ → List ℕ
garbage_words g i zero = []
garbage_words g i (suc n) = g i ∷ garbage_words g (suc i) n

-- The loop of the constructor, `i` being the next bit and `r` the rounds left.
unfoldable pub clear_from : BitMap → ℕ → ℕ → Option BitMap
clear_from m i zero = some m
clear_from m i (suc r) = do m' ← clear m (pos i); clear_from m' (suc i) r

unfoldable pub bit_map : (ℕ → ℕ) → ℕ → Option BitMap
bit_map g nitems =
    clear_from (record { num_bits = nitems; num_words = words; map = garbage_words g 0 words }) 0
      nitems
  where
    words : ℕ
    words = div_round_up nitems bits_in_word

unfoldable pub find_from : BitMap → ℕ → ℕ → Option (ℤ × BitMap)
find_from m i zero = some (negsuc 0, m)
find_from m i (suc r) = do
  used ← test m (pos i)
  elim used [ true ↦ find_from m (suc i) r | false ↦ do m' ← mark m (pos i); some (pos i, m') ]

unfoldable pub find : BitMap → Option (ℤ × BitMap)
find m = find_from m 0 m.num_bits

unfoldable pub num_clear_from : BitMap → ℕ → ℕ → ℕ → Option ℕ
num_clear_from m i count zero = some count
num_clear_from m i count (suc r) = do
  used ← test m (pos i)
  num_clear_from m (suc i) (if used then count else count + 1) r

unfoldable pub num_clear : BitMap → Option ℕ
num_clear m = num_clear_from m 0 0 m.num_bits
