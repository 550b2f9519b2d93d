-- ===== src/Userprog/BitMap/Fresh.antt =====
-- The constructor, and how the count of free places goes down from there.
use so.Prelude.{
  ℕ, zero, suc, ◌+◌, ◌≤◌, ◌<◌, ◌==◌, if◌then◌else◌, Bool, true, false, some, ◌*◌, ◌/◌, get_or-ge,
  ◌≡◌, refl, ap, arith, ◌∙◌, length,
}
use so.Prelude.Bits.{zero-bit}
use so.Userprog.BitMap.{BitMap, div_round_up, garbage_words, clear_from, bit_map, num_clear}
use so.Userprog.BitMap.View.{IsValid, member, clear_lem}
use so.Userprog.BitMap.Find.{count_clear, num_clear-count, count_clear-mark}

length-garbage_words : (g : ℕ → ℕ) (i n : ℕ) → length (garbage_words g i n) ≡ n
length-garbage_words g i zero = refl
length-garbage_words g i (suc n) = ap suc (length-garbage_words g (suc i) n)

-- The loop of the constructor, over what is cleared so far.
clear_from_lem :
    (m : BitMap) (i r : ℕ)
    → IsValid m
    → i + r ≡ m.num_bits
    → ((j : ℕ) → j < i → member m j ≡ false)
    → (m' : BitMap) × (clear_from m i r ≡ some m')
      × IsValid m'
      × (m'.num_bits ≡ m.num_bits)
      × ((j : ℕ) → j < m.num_bits → member m' j ≡ false)
unfolding clear_from
clear_from_lem m i zero v e h = (m, refl, v, refl, λ j lt. h j (omega arith))
clear_from_lem m i (suc r) v e h =
    let (m', e', v', n', mem) = clear_lem m i v (omega arith) in
    let (m'', e'', v'', n'', mem'') =
      clear_from_lem m' (suc i) r v' (omega arith) (λ j lt. mem j ∙ ground (arith, h j)) in
    (m'', rw e' e'', v'', n'' ∙ n', λ j lt. mem'' j (omega arith))

-- Whatever the memory held, `BitMap(nitems)` is the empty set of `nitems` places, all of them free.
pub bit_map_lem :
    (g : ℕ → ℕ) (nitems : ℕ)
    → (m : BitMap) × (bit_map g nitems ≡ some m)
      × IsValid m
      × (m.num_bits ≡ nitems)
      × ((j : ℕ) → j < nitems → member m j ≡ false)
unfolding bit_map
bit_map_lem g nitems =
    clear_from_lem (record { num_bits = nitems; num_words = words; map = garbage_words g 0 words })
      0 nitems (record { words = refl; stored = length-garbage_words g 0 words }) (omega arith)
      (λ j lt. absurd (omega arith))
  where
    words : ℕ
    words = div_round_up nitems 32

-- No bit past the array is set.
pub member_outside : (m : BitMap) (j : ℕ) → m.num_words * 32 ≤ j → IsValid m → member m j ≡ false
member_outside m j h v = rw (get_or-ge m.map (j / 32) 0 (omega arith), zero-bit)

count_clear-empty :
    (f : ℕ → Bool) (i r : ℕ) → ((j : ℕ) → j < i + r → f j ≡ false) → count_clear f i r ≡ r
unfolding count_clear
count_clear-empty f i zero h = refl
count_clear-empty f i (suc r) h =
    rw (h i (omega arith), count_clear-empty f (suc i) r (λ j lt. h j (omega arith))) (omega arith)

-- All places of an empty set are clear.
pub num_clear-empty :
    (m : BitMap) → ((j : ℕ) → j < m.num_bits → member m j ≡ false) → num_clear m ≡ some m.num_bits
num_clear-empty m h =
    num_clear-count m
    ∙ ap some (count_clear-empty (member m) 0 m.num_bits (λ j lt. h j (omega arith)))

-- `Mark` of a clear place leaves one less.
pub num_clear-mark :
    (m m' : BitMap) (k c : ℕ)
    → member m k ≡ false
    → k < m.num_bits
    → m'.num_bits ≡ m.num_bits
    → ((j : ℕ) → member m' j ≡ (if k == j then true else member m j))
    → num_clear m ≡ some (suc c)
    → num_clear m' ≡ some c
num_clear-mark m m' k c free lt n mem e =
    num_clear-count m'
    ∙ ap some (
        rw n (
          ground (
            arith,
            num_clear-count m,
            count_clear-mark (member m) (member m') k 0 m.num_bits mem free,
          )))
