-- ===== src/Filesys/FileHeader/Release.antt =====
-- `Deallocate`, and `Allocate` of a file that is too large for a header.
use so.Prelude.{
  ℕ, zero, suc, ◌+◌, ◌≤◌, ◌<◌, ltb, ◌==◌, if◌then◌else◌, true, false, pos, none, some, set, length,
  length-set, ◌≡◌, refl, arith, ◌∙◌, inl, inr, Bool-cases,
}
use so.Userprog.BitMap
use so.Userprog.BitMap.{BitMap, div_round_up}
use so.Userprog.BitMap.View.{IsValid, member, test-member, clear_lem}
use so.Userprog.BitMap.Find.{find-some}
use so.Filesys.FileHeader.{
  FileHeader, sector_size, write_sector, allocate_from, allocate, deallocate_from, deallocate,
}
use so.Filesys.FileHeader.Sectors.{holds, claims, InDisk, le_test}

first_held : (m : BitMap) (k n : ℕ) → (if k == k then 1 else 0) + n ≤ holds m k → member m k ≡ true
first_held m k n h = ground arith

rest_held :
    (m m' : BitMap) (k j n : ℕ)
    → (if k == j then 1 else 0) + n ≤ holds m j
    → member m' j ≡ (if k == j then false else member m j)
    → n ≤ holds m' j
rest_held m m' k j n h e = ground arith

-- `Deallocate` asserts that each sector is taken, and gives it back.
deallocate_from_lem :
    (h : FileHeader) (m : BitMap) (i r : ℕ)
    → IsValid m
    → InDisk h.data_sectors i r m.num_bits
    → ((j : ℕ) → claims h.data_sectors i r j ≤ holds m j)
    → (m' : BitMap) × (deallocate_from h m i r ≡ some m')
      × IsValid m'
      × (m'.num_bits ≡ m.num_bits)
      × ((j : ℕ) → holds m' j + claims h.data_sectors i r j ≡ holds m j)
unfolding deallocate_from claims InDisk
deallocate_from_lem h m i zero v d le = (m, refl, v, refl, λ j. omega arith)
deallocate_from_lem h m i (suc r) v ((k, here, lt), d) le =
    let (m₁, e₁, v₁, n₁, mem) = clear_lem m k v lt in
    let le₁ : (j : ℕ) → (if k == j then 1 else 0) + claims h.data_sectors (suc i) r j ≤ holds m j =
      λ j. rw here at (le j) in
    let used : member m k ≡ true = first_held m k (claims h.data_sectors (suc i) r k) (le₁ k) in
    let (m', e', v', n', mem') =
      deallocate_from_lem h m₁ (suc i) r v₁ (rw n₁ d)
        (λ j. rest_held m m₁ k j (claims h.data_sectors (suc i) r j) (le₁ j) (mem j)) in
    (
      m',
      rw (here, test-member m k lt, used, e₁) e',
      v',
      n' ∙ n₁,
      λ j. rw here (ground (arith, mem' j, mem j, used)),
    )

-- Where a header claims sectors that are all taken, and none twice, `Deallocate` runs through and
-- gives back those and no others.
pub deallocate_lem :
    (h : FileHeader) (m : BitMap)
    → IsValid m
    → InDisk h.data_sectors 0 h.num_sectors m.num_bits
    → ((j : ℕ) → claims h.data_sectors 0 h.num_sectors j ≤ holds m j)
    → (m' : BitMap) × (deallocate h m ≡ some m')
      × IsValid m'
      × (m'.num_bits ≡ m.num_bits)
      × ((j : ℕ) → holds m' j + claims h.data_sectors 0 h.num_sectors j ≡ holds m j)
unfolding deallocate
deallocate_lem h m v d le = deallocate_from_lem h m 0 h.num_sectors v d le

allocate_from_overflow :
    (h : FileHeader) (m : BitMap) (i r c : ℕ)
    → IsValid m
    → BitMap.num_clear m ≡ some c
    → r ≤ c
    → i ≤ length h.data_sectors
    → length h.data_sectors < i + r
    → allocate_from h m i r ≡ none
unfolding allocate_from write_sector
allocate_from_overflow h m i zero c v e le lo hi = absurd (omega arith)
allocate_from_overflow h m i (suc r) zero v e le lo hi = absurd (omega arith)
allocate_from_overflow h m i (suc r) (suc c) v e le lo hi =
    let (k, m₁, found, _, _, v₁, _, e₁, _) = find-some m c v e in
    let h₁ : FileHeader = record h { data_sectors = set h.data_sectors i (pos k) } in
    let len : length (set h.data_sectors i (pos k)) ≡ length h.data_sectors =
      length-set h.data_sectors i (pos k) in
    elim (Bool-cases (ltb i (length h.data_sectors))) [
      | inr full ↦ rw (found, full) refl
      | inl more ↦
          rw (found, more)
            (allocate_from_overflow h₁ m₁ (suc i) r c v₁ e₁ (omega arith) (ground arith)
              (ground arith))
    ]

-- For a file that needs more sectors than the header has room for, while as many are free,
-- `Allocate` writes past the end of `dataSectors`.
pub allocate_overflow :
    (h : FileHeader) (m : BitMap) (c size : ℕ)
    → IsValid m
    → BitMap.num_clear m ≡ some c
    → div_round_up size sector_size ≤ c
    → length h.data_sectors < div_round_up size sector_size
    → allocate h m size ≡ none
unfolding allocate
allocate_overflow h m c size v e le over =
    rw
      (
        e,
        le_test c (div_round_up size sector_size) le,
        allocate_from_overflow
            (record h { num_bytes = size; num_sectors = div_round_up size sector_size }) m 0
            (div_round_up size sector_size) c v e le (omega arith) (omega arith),
      )
      refl
