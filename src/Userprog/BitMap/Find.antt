-- ===== src/Userprog/BitMap/Find.antt =====
-- `Find` and `NumClear`: the loops over the bits.
use so.Prelude.{
  ℕ, zero, suc, ◌+◌, ◌≤◌, ◌<◌, ◌==◌, if◌then◌else◌, Bool, true, false, Option, some, ℤ, pos, negsuc,
  ◌≡◌, inl, inr, refl, ap, subst, ℕ_discrete, arith, ◌∙◌, Bool-cases,
}
use so.Userprog.BitMap.{BitMap, find_from, find, num_clear_from, num_clear}
use so.Userprog.BitMap.View.{IsValid, member, test-member, mark_lem}

-- How many of the `r` places from `i` on a set leaves out.
unfoldable pub count_clear : (ℕ → Bool) → ℕ → ℕ → ℕ
count_clear f i zero = 0
count_clear f i (suc r) = (if f i then 0 else 1) + count_clear f (suc i) r

num_clear_from-count :
    (m : BitMap) (i count r : ℕ)
    → i + r ≡ m.num_bits
    → num_clear_from m i count r ≡ some (count + count_clear (member m) i r)
unfolding num_clear_from count_clear
num_clear_from-count m i count zero e = ground arith
num_clear_from-count m i count (suc r) e =
    rw
      (
        test-member m i (omega arith),
        num_clear_from-count m (suc i) (if member m i then count else count + 1) r (omega arith),
      )
      (ground arith)

-- `NumClear` counts the places below `numBits` that are not in the set.
pub num_clear-count : (m : BitMap) → num_clear m ≡ some (count_clear (member m) 0 m.num_bits)
unfolding num_clear
num_clear-count m = num_clear_from-count m 0 0 m.num_bits (omega arith) ∙ ap some (omega arith)

count_clear-same :
    (f g : ℕ → Bool) (k i r : ℕ)
    → ((j : ℕ) → g j ≡ (if k == j then true else f j))
    → k < i
    → count_clear g i r ≡ count_clear f i r
unfolding count_clear
count_clear-same f g k i zero h lt = refl
count_clear-same f g k i (suc r) h lt = ground (arith, h i, count_clear-same f g k (suc i) r h)

-- Marking a place that is left out takes one from the count.
pub count_clear-mark :
    (f g : ℕ → Bool) (k i r : ℕ)
    → ((j : ℕ) → g j ≡ (if k == j then true else f j))
    → f k ≡ false
    → i ≤ k
    → k < i + r
    → count_clear g i r + 1 ≡ count_clear f i r
unfolding count_clear
count_clear-mark f g k i zero h e lo hi = absurd (omega arith)
count_clear-mark f g k i (suc r) h e lo hi =
    ground (arith, h i, count_clear-mark f g k (suc i) r h e, count_clear-same f g k (suc i) r h)

-- What `Find` returns, from place `i` on: the first place left out, marked now; or -1.
pub data Found (m : BitMap) (i : ℕ) (r : Option (ℤ × BitMap)) : Type 0 where
  full :
      ((j : ℕ) → i ≤ j → j < m.num_bits → member m j ≡ true) → r ≡ some (negsuc 0, m) → Found m i r
  hit :
      (k : ℕ) (m' : BitMap)
      → r ≡ some (pos k, m')
      → i ≤ k
      → k < m.num_bits
      → member m k ≡ false
      → ((j : ℕ) → i ≤ j → j < k → member m j ≡ true)
      → IsValid m'
      → m'.num_bits ≡ m.num_bits
      → ((j : ℕ) → member m' j ≡ (if k == j then true else member m j))
      → Found m i r

Found-extend :
    (m : BitMap) (i : ℕ) (r : Option (ℤ × BitMap))
    → member m i ≡ true
    → Found m (suc i) r
    → Found m i r
Found-extend m i r used (full h e) =
    full
      (λ j lo hi. elim (ℕ_discrete i j) [
        | yes p ↦ subst (λ k. member m k ≡ true) p used
        | no p ↦ h j (omega arith) hi
      ])
      e
Found-extend m i r used (hit k m' e lo hi free below v n mem) =
    hit k m' e (omega arith) hi free
      (λ j lo' hi'. elim (ℕ_discrete i j) [
        | yes p ↦ subst (λ k. member m k ≡ true) p used
        | no p ↦ below j (omega arith) hi'
      ])
      v n mem

find_from-Found :
    (m : BitMap) (i r : ℕ) → IsValid m → i + r ≡ m.num_bits → Found m i (find_from m i r)
unfolding find_from
find_from-Found m i zero v e = full (λ j lo hi. absurd (omega arith)) refl
find_from-Found m i (suc r) v e = elim (Bool-cases (member m i)) [
  | inl used ↦
      rw (test-member m i (omega arith), used)
        (Found-extend m i _ used (find_from-Found m (suc i) r v (omega arith)))
  | inr free ↦
      let (m', e', v', n', mem) = mark_lem m i v (omega arith) in
      rw (test-member m i (omega arith), free, e')
        (hit i m' refl (omega arith) (omega arith) free (λ j lo hi. absurd (omega arith)) v' n' mem)
]

-- `Find` returns the first place left out, and marks it; it returns -1 and changes nothing if the
-- set is full.
pub find-Found : (m : BitMap) → IsValid m → Found m 0 (find m)
unfolding find
find-Found m v = find_from-Found m 0 m.num_bits v (omega arith)

count_full :
    (f : ℕ → Bool) (i r : ℕ) → ((j : ℕ) → i ≤ j → j < i + r → f j ≡ true) → count_clear f i r ≡ 0
unfolding count_clear
count_full f i zero h = refl
count_full f i (suc r) h =
    let ih = count_full f (suc i) r (λ j lo hi. h j (omega arith) (omega arith)) in
    rw (h i (omega arith) (omega arith), ih)

-- While `NumClear` is above zero, `Find` succeeds, on a place that was free, and leaves one less.
pub find-some :
    (m : BitMap) (c : ℕ)
    → IsValid m
    → num_clear m ≡ some (suc c)
    → (k : ℕ) × (m' : BitMap) × (find m ≡ some (pos k, m'))
      × (k < m.num_bits)
      × (member m k ≡ false)
      × IsValid m'
      × (m'.num_bits ≡ m.num_bits)
      × (num_clear m' ≡ some c)
      × ((j : ℕ) → member m' j ≡ (if k == j then true else member m j))
find-some m c v e = go (find-Found m v)
  where
    counted : count_clear (member m) 0 m.num_bits ≡ suc c
    counted = ground (arith, num_clear-count m)

    go :
        Found m 0 (find m)
        → (k : ℕ) × (m' : BitMap) × (find m ≡ some (pos k, m'))
          × (k < m.num_bits)
          × (member m k ≡ false)
          × IsValid m'
          × (m'.num_bits ≡ m.num_bits)
          × (num_clear m' ≡ some c)
          × ((j : ℕ) → member m' j ≡ (if k == j then true else member m j))
    go (full h r) = absurd (
        omega
          (arith, counted, count_full (member m) 0 m.num_bits (λ j lo hi. h j lo (omega arith))))
    go (hit k m' r lo hi free below v' n mem) = (
      k,
      m',
      r,
      hi,
      free,
      v',
      n,
      num_clear-count m'
          ∙ ap some (
              rw n (
                omega (
                  arith,
                  counted,
                  count_clear-mark (member m) (member m') k 0 m.num_bits mem free lo (omega arith),
                ))),
      mem,
    )

-- With `NumClear` at zero `Find` returns -1 and changes nothing.
pub find-none : (m : BitMap) → IsValid m → num_clear m ≡ some 0 → find m ≡ some (negsuc 0, m)
find-none m v e = go (find-Found m v)
  where
    go : Found m 0 (find m) → find m ≡ some (negsuc 0, m)
    go (full h r) = r
    go (hit k m' r lo hi free below v' n mem) = absurd (
        ground (
          arith,
          num_clear-count m,
          count_clear-mark (member m) (member m') k 0 m.num_bits mem free lo,
        ))
