-- ===== src/Filesys/FileHeader/Sectors.antt =====
-- `Allocate`, by how often each sector is claimed. `holds` counts a sector of the
-- bit map as 1 or 0, so that moving sectors between a header and the map is an equation of sums.
use so.Prelude.{
  ℕ, zero, suc, ◌+◌, ◌-◌, ◌≤◌, ◌<◌, ltb, ◌==◌, if◌then◌else◌, true, false, List, ℤ, pos, negsuc,
  Option, none, some, get_elem?, set, length, length-set, get_elem?-set_self, get_elem?-set_ne, ◌≡◌,
  refl, arith, ◌∙◌, ap,
}
use so.Userprog.BitMap
use so.Userprog.BitMap.{BitMap, div_round_up}
use so.Userprog.BitMap.View.{IsValid, member}
use so.Userprog.BitMap.Find.{find-some}
use so.Filesys.FileHeader.{FileHeader, sector_size, write_sector, allocate_from, allocate}

abbrev pub holds : BitMap → ℕ → ℕ
holds m j = if member m j then 1 else 0

abbrev pub names_sector : Option ℤ → ℕ → ℕ
names_sector (some (pos k)) j = if k == j then 1 else 0
names_sector (some (negsuc n)) j = 0
names_sector none j = 0

-- How often sector `j` stands at the `r` indices from `i` on.
unfoldable pub claims : List ℤ → ℕ → ℕ → ℕ → ℕ
claims ds i zero j = 0
claims ds i (suc r) j = names_sector (get_elem? ds i) j + claims ds (suc i) r j

-- The `r` indices from `i` on hold sectors below `n`.
unfoldable pub InDisk : List ℤ → ℕ → ℕ → ℕ → Type 0
InDisk ds i zero n = Unit
InDisk ds i (suc r) n =
    ((k : ℕ) × (get_elem? ds i ≡ some (pos k)) × (k < n)) × InDisk ds (suc i) r n

-- What the loop of `Allocate` leaves: each sector that it stored was free before and is taken now.
pub record Allocated (h : FileHeader) (m : BitMap) (i r c : ℕ) (h' : FileHeader) (m' : BitMap)
    : Type 0 where
  pub valid : IsValid m'
  pub bits : m'.num_bits ≡ m.num_bits
  pub bytes_same : h'.num_bytes ≡ h.num_bytes
  pub sectors_same : h'.num_sectors ≡ h.num_sectors
  pub array_same : length h'.data_sectors ≡ length h.data_sectors
  pub before : (p : ℕ) → p < i → get_elem? h'.data_sectors p ≡ get_elem? h.data_sectors p
  pub in_disk : InDisk h'.data_sectors i r m.num_bits
  pub left : BitMap.num_clear m' ≡ some (c - r)
  pub taken : (j : ℕ) → holds m' j ≡ holds m j + claims h'.data_sectors i r j

write_sector_lem :
    (h : FileHeader) (i : ℕ) (s : ℤ)
    → i < length h.data_sectors
    → write_sector h i s ≡ some (record h { data_sectors = set h.data_sectors i s })
unfolding write_sector
write_sector_lem h i s lt = ground arith

allocate_from-Allocated :
    (h : FileHeader) (m : BitMap) (i r c : ℕ)
    → IsValid m
    → BitMap.num_clear m ≡ some c
    → r ≤ c
    → i + r ≤ length h.data_sectors
    → (h' : FileHeader) × (m' : BitMap) × (allocate_from h m i r ≡ some (h', m'))
      × Allocated h m i r c h' m'
unfolding allocate_from claims InDisk
allocate_from-Allocated h m i zero c v e le fits = (
  h,
  m,
  refl,
  record {
    valid = v;
    bits = refl;
    bytes_same = refl;
    sectors_same = refl;
    array_same = refl;
    before = λ p lt. refl;
    in_disk = tt;
    left = e ∙ ap some (omega arith);
    taken = λ j. omega arith;
  },
)
allocate_from-Allocated h m i (suc r) zero v e le fits = absurd (omega arith)
allocate_from-Allocated h m i (suc r) (suc c) v e le fits =
    let (k, m₁, found, lt, free, v₁, n₁, e₁, mem) = find-some m c v e in
    let h₁ : FileHeader = record h { data_sectors = set h.data_sectors i (pos k) } in
    let len : length (set h.data_sectors i (pos k)) ≡ length h.data_sectors =
      length-set h.data_sectors i (pos k) in
    let (h', m', e', a) =
      allocate_from-Allocated h₁ m₁ (suc i) r c v₁ e₁ (omega arith) (omega arith) in
    let here : get_elem? h'.data_sectors i ≡ some (pos k) =
      a.before i (omega arith) ∙ get_elem?-set_self h.data_sectors i (pos k) (omega arith) in
    (
      h',
      m',
      rw found (rw (write_sector_lem h i (pos k) (omega arith)) e'),
      record {
        valid = a.valid;
        bits = a.bits ∙ n₁;
        bytes_same = a.bytes_same;
        sectors_same = a.sectors_same;
        array_same = a.array_same ∙ len;
        before = λ p lt.
            a.before p (omega arith) ∙ get_elem?-set_ne h.data_sectors (pos k) (λ q. omega arith);
        in_disk = ((k, here, lt), rw (← n₁) a.in_disk);
        left = a.left ∙ ap some (omega arith);
        taken = λ j. rw here (ground (arith, a.taken j, mem j));
      },
    )

pub le_test : (c n : ℕ) → n ≤ c → ltb c n ≡ false
le_test c n h = ground arith

-- `Allocate` with fewer free sectors than the file needs fails, and leaves the map alone.
pub allocate_refused :
    (h : FileHeader) (m : BitMap) (c size : ℕ)
    → BitMap.num_clear m ≡ some c
    → c < div_round_up size sector_size
    → (h' : FileHeader) × (allocate h m size ≡ some (false, h', m))
unfolding allocate
allocate_refused h m c size e lt = (
  record h { num_bytes = size; num_sectors = div_round_up size sector_size },
  rw e (ground arith),
)

-- With enough free sectors, for a file that a header can describe, `Allocate` succeeds: the header
-- gets the size, and as many sectors as it needs, each free before and taken now.
pub allocate_lem :
    (h : FileHeader) (m : BitMap) (c size : ℕ)
    → IsValid m
    → BitMap.num_clear m ≡ some c
    → div_round_up size sector_size ≤ c
    → div_round_up size sector_size ≤ length h.data_sectors
    → (h' : FileHeader) × (m' : BitMap) × (allocate h m size ≡ some (true, h', m'))
      × (h'.num_bytes ≡ size)
      × (h'.num_sectors ≡ div_round_up size sector_size)
      × (length h'.data_sectors ≡ length h.data_sectors)
      × IsValid m'
      × (m'.num_bits ≡ m.num_bits)
      × (BitMap.num_clear m' ≡ some (c - div_round_up size sector_size))
      × InDisk h'.data_sectors 0 h'.num_sectors m.num_bits
      × ((j : ℕ) → holds m' j ≡ holds m j + claims h'.data_sectors 0 h'.num_sectors j)
unfolding allocate
allocate_lem h m c size v e le fits =
    let h₁ : FileHeader = record h {
      num_bytes = size;
      num_sectors = div_round_up size sector_size;
    } in
    let (h', m', e', a) =
      allocate_from-Allocated h₁ m 0 (div_round_up size sector_size) c v e le (omega arith) in
    (
      h',
      m',
      rw (e, le_test c (div_round_up size sector_size) le, e'),
      a.bytes_same,
      a.sectors_same,
      a.array_same,
      a.valid,
      a.bits,
      a.left,
      rw a.sectors_same a.in_disk,
      λ j. rw a.sectors_same (a.taken j),
    )
