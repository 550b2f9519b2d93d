-- ===== src/Tests/Bits.antt =====
-- Concrete bit maps, headers and directories.
use so.Prelude.{ℕ, ◌+◌, ◌≤◌, true, [], ◌∷◌, pos, some, length, ◌≡◌, refl, arith, ℕ_discrete, subst}
use so.Prelude.Bits.{bit}
use so.Userprog.BitMap.{BitMap, test, find, num_clear, num_clear_from}
use so.Userprog.BitMap.View.{IsValid}
use so.Userprog.BitMap.Find.{Found, find-Found}
use so.Filesys.FileHeader.{FileHeader, allocate}
use so.Filesys.FileHeader.Sectors.{holds, claims, InDisk, allocate_lem}

-- The places 0, 2 and 32 out of 40.
abbrev places : BitMap
places = record { num_bits = 40; num_words = 2; map = 5 ∷ 1 ∷ [] }

places-IsValid : IsValid places
places-IsValid = record { words = refl; stored = refl }

places_left : num_clear places ≡ some 37
unfolding num_clear num_clear_from test
places_left = refl

find-Found_example : Found places 0 (find places)
find-Found_example = find-Found places places-IsValid

-- A header with room for four sectors, that holds two of `places`.
abbrev header : FileHeader
header = record {
  num_bytes = 200;
  num_sectors = 2;
  data_sectors = pos 2 ∷ pos 32 ∷ pos 7 ∷ pos 7 ∷ [];
}

allocate_lem_example :
    (h' : FileHeader) × (m' : BitMap) × (allocate header places 400 ≡ some (true, h', m'))
    × (h'.num_bytes ≡ 400)
    × (h'.num_sectors ≡ 4)
    × (length h'.data_sectors ≡ 4)
    × IsValid m'
    × (m'.num_bits ≡ 40)
    × (num_clear m' ≡ some 33)
    × InDisk h'.data_sectors 0 h'.num_sectors 40
    × ((j : ℕ) → holds m' j ≡ holds places j + claims h'.data_sectors 0 h'.num_sectors j)
allocate_lem_example =
    allocate_lem header places 37 400 places-IsValid places_left (omega arith) (omega arith)

header_claims_le : (j : ℕ) → claims header.data_sectors 0 2 j ≤ holds places j
unfolding claims bit
header_claims_le j = elim (ℕ_discrete 2 j) [
  | yes e ↦ subst (λ i. claims header.data_sectors 0 2 i ≤ holds places i) e (omega arith)
  | no ne ↦ elim (ℕ_discrete 32 j) [
    | yes e ↦ subst (λ i. claims header.data_sectors 0 2 i ≤ holds places i) e (omega arith)
    | no ne' ↦ ground arith
  ]
]

header_InDisk : InDisk header.data_sectors 0 2 40
unfolding InDisk
header_InDisk = ((2, refl, omega arith), ((32, refl, omega arith), tt))
