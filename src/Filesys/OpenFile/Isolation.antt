-- ===== src/Filesys/OpenFile/Isolation.antt =====
-- Files of one disk: what `WriteAt` of filesys/openfile.cc to one of them does to another, where the free
-- map, the directory and the headers of filesys/filesys.cc agree.
use so.Prelude.{
  ℕ, ◌+◌, ◌*◌, ◌/◌, ◌%◌, ◌≤◌, ◌<◌, List, pos, some, get_elem?, ◌≡◌, ◌≢◌, arith, ◌∙◌, sym, ap,
  dec_lt, ℕ_discrete,
}
use so.Filesys.Directory.{find_index_from, sector_at, find_index}
use so.Filesys.FileHeader.{FileHeader}
use so.Filesys.FileHeader.Sectors.{claims, InDisk, holds}
use so.Filesys.FileSystem.{FileSystem, num_sectors}
use so.Filesys.FileSystem.Consistent.{
  Consistent, FoundFile, header_claims, file_claims, table_claims,
}
use so.Filesys.OpenFile.{Bytes, Sectors, int_limit, write_at}
use so.Filesys.OpenFile.Contents.{IsStored, number, sector_of, byte_at}
use so.Filesys.OpenFile.Reading.{moved}
use so.Filesys.OpenFile.Writing.{write_at_lem}
use so.Filesys.OpenFile.Claims.{
  claims-one, claims-two, claims-total, table_claims-one, table_claims-two, InDisk-at,
}

-- The claims on a sector are at most one.
claims_bound : (s : FileSystem) (j : ℕ) → Consistent s → table_claims s.header s.dir.table j ≤ 1
claims_bound s j ok =
    let e = ok.exact j in let b : holds s.free_map j ≤ 1 = ground arith in omega arith

header_in_file :
    (hd : ℕ → FileHeader) (k j : ℕ)
    → claims (hd k).data_sectors 0 (hd k).num_sectors j ≤ file_claims hd (pos k) j
unfolding file_claims header_claims
header_in_file hd k j = omega arith

sector_stored :
    (h : FileHeader) (i : ℕ)
    → InDisk h.data_sectors 0 h.num_sectors num_sectors
    → i < h.num_sectors
    → (get_elem? h.data_sectors i ≡ some (pos (sector_of h i))) × (sector_of h i < 1024)
sector_stored h i d lt =
    let (k, e, small) =
      InDisk-at h.data_sectors 0 h.num_sectors num_sectors i d (omega arith) (omega arith) in
    let named : sector_of h i ≡ k = ap number e in
    (e ∙ ap (λ m. some (pos m)) (sym named), rw named small)

claims_of_file :
    (s : FileSystem) (q : List ℕ) (j : ℕ) (f : FoundFile s q)
    → claims (s.header f.sector).data_sectors 0 (s.header f.sector).num_sectors j
      ≤ file_claims s.header (sector_at s.dir.table f.index) j
claims_of_file s q j f = rw f.at_index (header_in_file s.header f.sector j)

first_index :
    (s : FileSystem) (q : List ℕ) (f : FoundFile s q)
    → find_index_from s.dir.table 0 q ≡ pos (0 + f.index)
unfolding find_index
first_index s q f = f.indexed ∙ ap pos (omega arith)

not_twice :
    (s : FileSystem) (q : List ℕ) (f : FoundFile s q) (i j : ℕ)
    → Consistent s
    → i < j
    → j < (s.header f.sector).num_sectors
    → sector_of (s.header f.sector) i ≢ sector_of (s.header f.sector) j
not_twice s q f i j ok lt b e =
    let h = s.header f.sector in
    let k = sector_of h i in
    let at_i = sector_stored h i f.data_in_disk (omega arith) in
    let at_j = sector_stored h j f.data_in_disk b in
    let two =
      claims-two h.data_sectors 0 h.num_sectors i j k at_i.0
        (at_j.0 ∙ ap (λ m. some (pos m)) (sym e)) (omega arith) lt (omega arith) in
    let own = claims_of_file s q k f in
    let of_table = table_claims-one s.header s.dir.table 0 f.index k q (first_index s q f) in
    let bound = claims_bound s k ok in omega arith

one_claim :
    (s : FileSystem) (q : List ℕ) (f : FoundFile s q) (j : ℕ)
    → Consistent s
    → claims (s.header f.sector).data_sectors 0 (s.header f.sector).num_sectors j ≤ 1
one_claim s q f j ok =
    let own = claims_of_file s q j f in
    let of_table = table_claims-one s.header s.dir.table 0 f.index j q (first_index s q f) in
    let bound = claims_bound s j ok in omega arith

-- The header that a name leads to stores its file in sectors of its own.
pub FoundFile-IsStored :
    (s : FileSystem) (q : List ℕ)
    → Consistent s
    → (f : FoundFile s q) → (s.header f.sector).num_bytes ≤ (s.header f.sector).num_sectors * 128
    → IsStored (s.header f.sector)
FoundFile-IsStored s q ok f fits = record {
  covered = fits;
  on_disk =
      claims-total (s.header f.sector).data_sectors 0 (s.header f.sector).num_sectors num_sectors
        f.data_in_disk (λ j. one_claim s q f j ok);
  stored = λ i lt. sector_stored (s.header f.sector) i f.data_in_disk lt;
  once = λ i j a b e. elim (ℕ_discrete i j) [
    | yes y ↦ y
    | no n ↦ elim (dec_lt i j) [
      | yes lt ↦ absurd (not_twice s q f i j ok lt b e)
      | no gt ↦ absurd (not_twice s q f j i ok (omega arith) a (sym e))
    ]
  ];
}

apart_in_order :
    (s : FileSystem) (q q₂ : List ℕ) (f : FoundFile s q) (f₂ : FoundFile s q₂) (i i₂ : ℕ)
    → Consistent s
    → f.index < f₂.index
    → i < (s.header f.sector).num_sectors
    → i₂ < (s.header f₂.sector).num_sectors
    → sector_of (s.header f.sector) i ≢ sector_of (s.header f₂.sector) i₂
apart_in_order s q q₂ f f₂ i i₂ ok lt a b e =
    let h = s.header f.sector in
    let h₂ = s.header f₂.sector in
    let k = sector_of h i in
    let at = sector_stored h i f.data_in_disk a in
    let at₂ = sector_stored h₂ i₂ f₂.data_in_disk b in
    let one = claims-one h.data_sectors 0 h.num_sectors i k at.0 (omega arith) (omega arith) in
    let one₂ =
      claims-one h₂.data_sectors 0 h₂.num_sectors i₂ k (at₂.0 ∙ ap (λ m. some (pos m)) (sym e))
        (omega arith) (omega arith) in
    let own = claims_of_file s q k f in
    let own₂ = claims_of_file s q₂ k f₂ in
    let both =
      table_claims-two s.header s.dir.table 0 f.index f₂.index k q q₂ (first_index s q f)
        (first_index s q₂ f₂) lt in
    let bound = claims_bound s k ok in omega arith

-- Where the free map, the directory and the headers agree, and two names lead to two entries whose sizes
-- their sectors cover: `WriteAt` to the first file succeeds, for any position and number of bytes whose
-- sum is an `int`, and every byte of the second file is then what it was.
pub write_at-other_file :
    (s : FileSystem) (q q₂ : List ℕ) (g : Bytes) (d : Sectors) (from : Bytes)
    (num_bytes position : ℕ)
    → Consistent s
    → (f : FoundFile s q) → (f₂ : FoundFile s q₂) → f.index ≢ f₂.index
    → position + num_bytes < int_limit
    → (s.header f.sector).num_bytes ≤ (s.header f.sector).num_sectors * 128
    → (s.header f₂.sector).num_bytes ≤ (s.header f₂.sector).num_sectors * 128
    → (n : ℕ) × (d' : Sectors) × (write_at g d (s.header f.sector) from (pos num_bytes) position
        ≡ some (n, d'))
      × ((p : ℕ)
          → p < (s.header f₂.sector).num_bytes
          → byte_at d' (s.header f₂.sector) p ≡ byte_at d (s.header f₂.sector) p)
write_at-other_file s q q₂ g d from num_bytes position ok f f₂ ne small fits fits₂ =
    let (d', e, u) =
      write_at_lem g d (s.header f.sector) from num_bytes position
        (FoundFile-IsStored s q ok f fits) small in
    (
      moved (s.header f.sector) num_bytes position,
      d',
      e,
      λ p lt.
          u.elsewhere (sector_of (s.header f₂.sector) (p / 128)) (p % 128)
            (λ k a e₂. apart p k lt a e₂),
    )
  where
    apart :
        (p k : ℕ)
        → p < (s.header f₂.sector).num_bytes
        → k < (s.header f.sector).num_sectors
        → sector_of (s.header f.sector) k ≢ sector_of (s.header f₂.sector) (p / 128)
    apart p k lt a e = elim (dec_lt f.index f₂.index) [
      | yes y ↦ apart_in_order s q q₂ f f₂ k (p / 128) ok y a (omega arith) e
      | no n ↦ apart_in_order s q₂ q f₂ f (p / 128) k ok (omega arith) (omega arith) a (sym e)
    ]
