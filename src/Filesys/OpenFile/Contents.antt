-- ===== src/Filesys/OpenFile/Contents.antt =====
-- The bytes of a file, as its header and the disk hold them, and the loops that move them.
use so.Prelude.{
  ℕ, zero, suc, ◌+◌, ◌-◌, ◌*◌, ◌/◌, ◌%◌, ◌≤◌, ◌<◌, ltb, leb, ◌==◌, if◌then◌else◌, ◌&&◌, true, false,
  ℤ, pos, negsuc, Option, none, some, get_elem?, ◌≡◌, ◌≢◌, refl, arith, ◌∙◌, ℕ_discrete, dec_le,
  dec_lt,
}
use so.Filesys.FileHeader.{FileHeader, byte_to_sector}
use so.Filesys.OpenFile.{
  Bytes, Sectors, copy, read_sector, write_sector, read_sectors, write_sectors,
}

abbrev pub number : Option ℤ → ℕ
number (some (pos k)) = k
number (some (negsuc n)) = 0
number none = 0

-- The disk sector of sector `i` of a file.
abbrev pub sector_of : FileHeader → ℕ → ℕ
sector_of h i = number (get_elem? h.data_sectors i)

-- Byte `p` of a file.
abbrev pub byte_at : Sectors → FileHeader → ℕ → ℕ
byte_at d h p = d (sector_of h (p / 128)) (p % 128)

-- A header whose file is stored in sectors of the disk, each of them once.
pub record IsStored (h : FileHeader) : Type 0 where
  pub covered : h.num_bytes ≤ h.num_sectors * 128
  pub on_disk : h.num_sectors ≤ 1024
  pub stored :
      (i : ℕ)
      → i < h.num_sectors
      → (get_elem? h.data_sectors i ≡ some (pos (sector_of h i))) × (sector_of h i < 1024)
  pub once :
      (i j : ℕ) → i < h.num_sectors → j < h.num_sectors → sector_of h i ≡ sector_of h j → i ≡ j

pub byte_to_sector_lem :
    (h : FileHeader) (i : ℕ)
    → IsStored h
    → i < h.num_sectors
    → byte_to_sector h (i * 128) ≡ some (pos (sector_of h i))
unfolding byte_to_sector
byte_to_sector_lem h i st lt = let e : i * 128 / 128 ≡ i = omega arith in rw e ((st.stored i lt).0)

-- What the buffer holds once the sectors from `i` on are read.
pub read_sectors_lem :
    (d : Sectors) (h : FileHeader) (first i r : ℕ) (buf : Bytes)
    → IsStored h
    → first ≤ i
    → i + r ≤ h.num_sectors
    → (buf' : Bytes) × (read_sectors d h first i r buf ≡ some buf')
      × ((j : ℕ)
          → buf' j ≡ (
              if leb ((i - first) * 128) j && ltb j ((i + r - first) * 128)
              then d (sector_of h (first + j / 128)) (j % 128)
              else buf j))
unfolding read_sectors read_sector
read_sectors_lem d h first i zero buf st le fits = (buf, refl, λ j. ground arith)
read_sectors_lem d h first i (suc r) buf st le fits =
    let s = sector_of h i in
    let buf₁ = copy (d s) 0 buf ((i - first) * 128) 128 in
    let (buf', e, at) = read_sectors_lem d h first (suc i) r buf₁ st (omega arith) (omega arith) in
    let found = byte_to_sector_lem h i st (omega arith) in
    let small : ltb s 1024 ≡ true = ground (arith, (st.stored i (omega arith)).1) in
    (buf', rw (found, small, e) refl, λ j. at j ∙ here j)
  where
    here :
        (j : ℕ)
        → (if leb ((suc i - first) * 128) j && ltb j ((suc i + r - first) * 128)
            then d (sector_of h (first + j / 128)) (j % 128)
            else copy (d (sector_of h i)) 0 buf ((i - first) * 128) 128 j)
          ≡ (if leb ((i - first) * 128) j && ltb j ((i + suc r - first) * 128)
              then d (sector_of h (first + j / 128)) (j % 128)
              else buf j)
    here j = elim (dec_le ((i - first) * 128) j) [
      | no n ↦ ground arith
      | yes y ↦ elim (dec_lt j ((i - first) * 128 + 128)) [
        | no n ↦ ground arith
        | yes z ↦
            let e : first + j / 128 ≡ i = omega arith in
            let e₂ : j % 128 ≡ j - (i - first) * 128 = omega arith in rw (e, e₂) ground arith
      ]
    ]

-- What the disk holds once the sectors from `i` on are written.
pub record IsWritten (d d' : Sectors) (h : FileHeader) (first i r : ℕ) (buf : Bytes) : Type 0 where
  pub within :
      (k o : ℕ)
      → k < h.num_sectors
      → o < 128
      → d' (sector_of h k) o
        ≡ (if leb i k && ltb k (i + r) then buf ((k - first) * 128 + o) else d (sector_of h k) o)
  pub others : (t o : ℕ) → ((k : ℕ) → k < h.num_sectors → sector_of h k ≢ t) → d' t o ≡ d t o

==-refl : (a : ℕ) → (a == a) ≡ true
==-refl a = ground arith

==_false : (a b : ℕ) → a ≢ b → (a == b) ≡ false
==_false a b ne = ground arith

abbrev one_written : Sectors → FileHeader → ℕ → ℕ → Bytes → Sectors
one_written d h first i buf t =
    if sector_of h i == t then copy buf ((i - first) * 128) (d (sector_of h i)) 0 128 else d t

pub write_sectors_lem :
    (d : Sectors) (h : FileHeader) (first i r : ℕ) (buf : Bytes)
    → IsStored h
    → first ≤ i
    → i + r ≤ h.num_sectors
    → (d' : Sectors) × (write_sectors d h first i r buf ≡ some d') × IsWritten d d' h first i r buf
unfolding write_sectors write_sector
write_sectors_lem d h first i zero buf st le fits =
    (d, refl, record { within = λ k o a b. ground arith; others = λ t o f. refl })
write_sectors_lem d h first i (suc r) buf st le fits =
    let (d', e, w) =
      write_sectors_lem (one_written d h first i buf) h first (suc i) r buf st (omega arith)
        (omega arith) in
    let found = byte_to_sector_lem h i st (omega arith) in
    let small : ltb (sector_of h i) 1024 ≡ true = ground (arith, (st.stored i (omega arith)).1) in
    (
      d',
      rw (found, small, e) refl,
      record {
        within = λ k o a b. w.within k o a b ∙ here k o a b;
        others = λ t o f. w.others t o f ∙ there t o (f i (omega arith));
      },
    )
  where
    here :
        (k o : ℕ)
        → k < h.num_sectors
        → o < 128
        → (if leb (suc i) k && ltb k (suc i + r)
            then buf ((k - first) * 128 + o)
            else one_written d h first i buf (sector_of h k) o)
          ≡ (if leb i k && ltb k (i + suc r)
              then buf ((k - first) * 128 + o)
              else d (sector_of h k) o)
    here k o a b = elim (ℕ_discrete i k) [
      | yes y ↦
          let same : (sector_of h i == sector_of h k) ≡ true = rw y (==-refl (sector_of h k)) in
          rw same ground arith
      | no n ↦
          let other : (sector_of h i == sector_of h k) ≡ false =
            ==_false (sector_of h i) (sector_of h k) (λ e. n (st.once i k (omega arith) a e)) in
          rw other ground arith
    ]

    there : (t o : ℕ) → sector_of h i ≢ t → one_written d h first i buf t o ≡ d t o
    there t o ne = rw (==_false (sector_of h i) t ne) refl
