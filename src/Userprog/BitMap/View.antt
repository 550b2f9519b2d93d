-- ===== src/Userprog/BitMap/View.antt =====
-- The set that a bit map stands for, and what `Mark`, `Clear` and `Test` do to it.
use so.Prelude.{
  ℕ, ◌-◌, ◌/◌, ◌%◌, ◌^◌, ◌≤◌, ◌<◌, ◌==◌, if◌then◌else◌, Bool, true, false, none, some, pos, bit_and,
  bit_or, ◌≡◌, ◌≢◌, refl, arith, length, length-set, get_or-set, ◌∙◌,
}
use so.Prelude.Bits.{
  bit, ones, bit-le-one, bit-bit_and, bit-bit_or, bit_and-pow, bit-pow_self, bit-pow_ne,
  bit-complement_pow, pow_pos,
}
use so.Userprog.BitMap.{BitMap, div_round_up, word_of, set_word, mark, clear, test}

-- The array holds as many words as the bits need.
pub record IsValid (m : BitMap) : Type 0 where
  pub words : m.num_words ≡ div_round_up m.num_bits 32
  pub stored : length m.map ≡ m.num_words

-- Whether bit `i` is in the set.
abbrev pub member : BitMap → ℕ → Bool
member m i = bit (word_of m i) (i % 32) == 1

word_in : (m : BitMap) (i : ℕ) → IsValid m → i < m.num_bits → i / 32 < length m.map
word_in m i v h = ground arith

-- Places in one word that agree in the remainder are the same.
div_eq : (i j : ℕ) → i / 32 ≡ j / 32 → i % 32 ≡ j % 32 → i ≡ j
div_eq i j p q = omega arith

-- A write at bit `i` that leaves the other bits of its word alone changes that bit only.
set_word-member :
    (m : BitMap) (i j w : ℕ) (b : Bool)
    → IsValid m
    → i < m.num_bits
    → bit w (i % 32) ≡ (if b then 1 else 0)
    → ((k : ℕ) → k < 32 → i % 32 ≢ k → bit w k ≡ bit (word_of m i) k)
    → member (set_word m i w) j ≡ (if i == j then b else member m j)
set_word-member m i j w b v h self other =
    ground
      (arith, get_or-set m.map (i / 32) (j / 32) w 0 (word_in m i v h), other (j % 32), div_eq i j)

pub test-member : (m : BitMap) (i : ℕ) → i < m.num_bits → test m (pos i) ≡ some (member m i)
unfolding test
test-member m i h =
    ground (
      arith,
      bit_and-pow (word_of m i) (i % 32),
      bit-le-one (word_of m i) (i % 32),
      pow_pos (i % 32),
    )

-- `Mark` of a bit in range sets that bit and no other.
pub mark_lem :
    (m : BitMap) (i : ℕ)
    → IsValid m
    → i < m.num_bits
    → (m' : BitMap) × (mark m (pos i) ≡ some m')
      × IsValid m'
      × (m'.num_bits ≡ m.num_bits)
      × ((j : ℕ) → member m' j ≡ (if i == j then true else member m j))
unfolding mark
mark_lem m i v h = (
  set_word m i marked,
  ground arith,
  record { words = v.words; stored = length-set m.map (i / 32) marked ∙ v.stored },
  refl,
  λ j. set_word-member m i j marked true v h self other,
)
  where
    marked : ℕ
    marked = bit_or (word_of m i) (2 ^ (i % 32))

    self : bit marked (i % 32) ≡ 1
    self = omega (
      arith,
      bit-bit_or (word_of m i) (2 ^ (i % 32)) (i % 32),
      bit-pow_self (i % 32),
      bit-le-one (word_of m i) (i % 32),
    )

    other : (k : ℕ) → k < 32 → i % 32 ≢ k → bit marked k ≡ bit (word_of m i) k
    other k hk ne =
        omega (arith, bit-bit_or (word_of m i) (2 ^ (i % 32)) k, bit-pow_ne (i % 32) k ne)

-- `Clear` of a bit in range clears that bit and no other.
pub clear_lem :
    (m : BitMap) (i : ℕ)
    → IsValid m
    → i < m.num_bits
    → (m' : BitMap) × (clear m (pos i) ≡ some m')
      × IsValid m'
      × (m'.num_bits ≡ m.num_bits)
      × ((j : ℕ) → member m' j ≡ (if i == j then false else member m j))
unfolding clear
clear_lem m i v h = (
  set_word m i cleared,
  ground arith,
  record { words = v.words; stored = length-set m.map (i / 32) cleared ∙ v.stored },
  refl,
  λ j. set_word-member m i j cleared false v h self other,
)
  where
    cleared : ℕ
    cleared = bit_and (word_of m i) (ones - 2 ^ (i % 32))

    mask : (k : ℕ) → k < 32 → bit (ones - 2 ^ (i % 32)) k ≡ (if i % 32 == k then 0 else 1)
    mask k hk = bit-complement_pow (i % 32) k (omega arith) hk

    self : bit cleared (i % 32) ≡ 0
    self = ground (arith, bit-bit_and (word_of m i) (ones - 2 ^ (i % 32)) (i % 32), mask (i % 32))

    other : (k : ℕ) → k < 32 → i % 32 ≢ k → bit cleared k ≡ bit (word_of m i) k
    other k hk ne = ground (
      arith,
      bit-bit_and (word_of m i) (ones - 2 ^ (i % 32)) k,
      mask k hk,
      bit-le-one (word_of m i) k,
    )

-- An index that is negative or too large aborts, in all three.
pub out_of_range :
    (m : BitMap) (i : ℕ)
    → m.num_bits ≤ i
    → (mark m (pos i) ≡ none) × (clear m (pos i) ≡ none) × (test m (pos i) ≡ none)
unfolding mark clear test
out_of_range m i h = (ground arith, ground arith, ground arith)
