-- ===== src/Filesys/OpenFile/Writing.antt =====
-- What `WriteAt` of filesys/openfile.cc returns and leaves on the disk.
use so.Prelude.{
  ℕ, ◌+◌, ◌-◌, ◌*◌, ◌/◌, ◌%◌, ◌≤◌, ◌<◌, ltb, leb, ◌==◌, if◌then◌else◌, ◌&&◌, ◌||◌, true, false, not,
  pos, some, ◌≡◌, ◌≢◌, refl, arith, ◌∙◌, inl, inr, Bool-cases, dec_le,
}
use so.Filesys.FileHeader.{FileHeader, file_length}
use so.Filesys.OpenFile.{
  Bytes, Sectors, copy, clipped, last_sector, fetch_first, fetch_last, write_sectors, write_inside,
  write_at, int_limit, is_past,
}
use so.Filesys.OpenFile.Contents.{IsStored, sector_of, byte_at, IsWritten, write_sectors_lem}
use so.Filesys.OpenFile.Reading.{moved, with_bytes, touched, touched_fit, read_at_lem}

sector_small :
    (h : FileHeader) (p : ℕ) → IsStored h → p < h.num_bytes → p / 128 * 128 + 128 < int_limit
sector_small h p st lt = omega (arith, st.covered, st.on_disk)

fetch_first_lem :
    (g : Bytes) (d : Sectors) (h : FileHeader) (buf : Bytes) (position : ℕ)
    → IsStored h
    → position < h.num_bytes
    → (buf' : Bytes) × (fetch_first g d h buf position ≡ some buf')
      × (position ≢ position / 128 * 128
          → (j : ℕ) → j < 128
          → position / 128 * 128 + j < h.num_bytes
          → buf' j ≡ byte_at d h (position / 128 * 128 + j))
unfolding fetch_first
fetch_first_lem g d h buf position st inside =
    elim (Bool-cases (position == position / 128 * 128)) [
      | inl e ↦
          let same : position ≡ position / 128 * 128 = ground arith in
          (buf, rw e refl, λ ne j a b. absurd (ne same))
      | inr e ↦
          let (buf', r, at) =
            read_at_lem g d h buf 0 128 (position / 128 * 128) st
              (sector_small h position st inside) in
          (buf', rw (e, r) refl, λ ne j a b. at j ∙ ground arith)
    ]

-- The bytes around the ones to write, in the sectors that are written, once both are fetched.
fetch_last_lem :
    (g : Bytes) (d : Sectors) (h : FileHeader) (buf : Bytes) (position n : ℕ)
    → IsStored h
    → (position ≢ position / 128 * 128
        → (j : ℕ) → j < 128
        → position / 128 * 128 + j < h.num_bytes
        → buf j ≡ byte_at d h (position / 128 * 128 + j))
    → 0 < n
    → position + n ≤ h.num_bytes
    → (buf' : Bytes) × (fetch_last g d h buf position n ≡ some buf')
      × ((o : ℕ)
          → o < touched position n * 128
          → position / 128 * 128 + o < h.num_bytes
          → (leb position (position / 128 * 128 + o)
              && ltb (position / 128 * 128 + o) (position + n))
            ≡ false
          → buf' o ≡ byte_at d h (position / 128 * 128 + o))
unfolding fetch_last
fetch_last_lem g d h buf position n st low some_bytes inside =
    elim (Bool-cases (
      not (position + n == (last_sector position n + 1) * 128)
      && (not (position / 128 == last_sector position n) || position == position / 128 * 128))) [
        | inl e ↦
            let (buf', r, at) =
              read_at_lem g d h buf ((last_sector position n - position / 128) * 128) 128
                (last_sector position n * 128) st
                (sector_small h (position + n - 1) st (omega arith)) in
            (buf', rw (e, r) refl, λ o lt fits out. at o ∙ with_last o lt fits out)
        | inr e ↦ (buf, rw e refl, λ o lt fits out. low (ground arith) o (ground arith) fits)
      ]
  where
    with_last :
        (o : ℕ)
        → o < touched position n * 128
        → position / 128 * 128 + o < h.num_bytes
        → (leb position (position / 128 * 128 + o) && ltb (position / 128 * 128 + o) (position + n))
          ≡ false
        → with_bytes d h buf
            ((last_sector position n - position / 128) * 128)
            (moved h 128 (last_sector position n * 128))
            (last_sector position n * 128)
            o
          ≡ byte_at d h (position / 128 * 128 + o)
    with_last o lt fits out = elim (dec_le ((last_sector position n - position / 128) * 128) o) [
      | yes y ↦
          let in_last : (leb ((last_sector position n - position / 128) * 128) o
                && ltb o (
                    (last_sector position n - position / 128) * 128
                    + moved h 128 (last_sector position n * 128)))
              ≡ true =
            ground arith in
          let e : last_sector position n * 128
                + (o - (last_sector position n - position / 128) * 128)
              ≡ position / 128 * 128 + o =
            omega arith in
          rw (in_last, e) refl
      | no early ↦
          let not_yet : leb ((last_sector position n - position / 128) * 128) o ≡ false =
            ground arith in
          rw not_yet (low (ground arith) o (ground arith) fits)
    ]

-- The disk once `n` bytes from `position` on are written: these, and no other byte of the file or of any
-- sector that is not its own.
pub record IsUpdated (d d' : Sectors) (h : FileHeader) (from : Bytes) (position n : ℕ)
    : Type 0 where
  pub bytes :
      (p : ℕ)
      → p < h.num_bytes
      → byte_at d' h p
        ≡ (if leb position p && ltb p (position + n) then from (p - position) else byte_at d h p)
  pub elsewhere : (t o : ℕ) → ((k : ℕ) → k < h.num_sectors → sector_of h k ≢ t) → d' t o ≡ d t o

stored_bytes :
    (d d' : Sectors) (h : FileHeader) (from buf : Bytes) (position n : ℕ)
    → IsStored h
    → 0 < n
    → position + n ≤ h.num_bytes
    → ((o : ℕ)
        → o < touched position n * 128
        → position / 128 * 128 + o < h.num_bytes
        → (leb position (position / 128 * 128 + o) && ltb (position / 128 * 128 + o) (position + n))
          ≡ false
        → buf o ≡ byte_at d h (position / 128 * 128 + o))
    → IsWritten d d' h
        (position / 128)
        (position / 128)
        (touched position n)
        (copy from 0 buf (position - position / 128 * 128) n)
    → IsUpdated d d' h from position n
stored_bytes d d' h from buf position n st some_bytes inside around w = record {
  bytes = at;
  elsewhere = λ t o f. w.others t o f;
}
  where
    k_fits : (p : ℕ) → p < h.num_bytes → p / 128 < h.num_sectors
    k_fits p lt = let c = st.covered in omega arith

    new :
        (p : ℕ)
        → p < h.num_bytes
        → (if leb (position / 128) (p / 128) && ltb (p / 128) (position / 128 + touched position n)
            then copy from 0 buf
                (position - position / 128 * 128)
                n
                ((p / 128 - position / 128) * 128 + p % 128)
            else byte_at d h p)
          ≡ (if leb position p && ltb p (position + n) then from (p - position) else byte_at d h p)
    new p lt =
        elim (Bool-cases
          (leb (position / 128) (p / 128) && ltb (p / 128) (position / 128 + touched position n))) [
            | inr e ↦ ground arith
            | inl e ↦
                let o = (p / 128 - position / 128) * 128 + p % 128 in
                let base = position - position / 128 * 128 in
                let o_lem : position / 128 * 128 + o ≡ p = ground arith in
                elim (Bool-cases (leb position p && ltb p (position + n))) [
                  | inl e₂ ↦
                      let in_copy : (leb base o && ltb o (base + n)) ≡ true = ground arith in
                      let from_lem : 0 + (o - base) ≡ p - position = omega arith in
                      rw (e, e₂, in_copy, from_lem) refl
                  | inr e₂ ↦
                      let out_copy : (leb base o && ltb o (base + n)) ≡ false = ground arith in
                      let old = around o (ground arith) (omega arith) (rw o_lem e₂) in
                      rw (e, e₂, out_copy) (old ∙ rw o_lem refl)
                ]
          ]

    at :
        (p : ℕ)
        → p < h.num_bytes
        → byte_at d' h p
          ≡ (if leb position p && ltb p (position + n) then from (p - position) else byte_at d h p)
    at p lt = w.within (p / 128) (p % 128) (k_fits p lt) (omega arith) ∙ new p lt

write_clipped :
    (g : Bytes) (d : Sectors) (h : FileHeader) (from : Bytes) (num_bytes position n : ℕ)
    → IsStored h
    → clipped h num_bytes position ≡ some n
    → position + n ≤ h.num_bytes
    → 0 < n
    → (d' : Sectors) × (write_inside g d h from num_bytes position ≡ some (n, d'))
      × IsUpdated d d' h from position n
unfolding write_inside
write_clipped g d h from num_bytes position n st clip inside some_bytes =
    let (buf, e, low) = fetch_first_lem g d h g position st (omega arith) in
    let (buf', e₂, around) = fetch_last_lem g d h buf position n st low some_bytes inside in
    let final = copy from 0 buf' (position - position / 128 * 128) n in
    let (d', e₃, w) =
      write_sectors_lem d h (position / 128) (position / 128) (touched position n) final st
        (omega arith) (touched_fit h n position st inside some_bytes) in
    (
      d',
      result buf buf' d' e e₂ e₃,
      stored_bytes d d' h from buf' position n st some_bytes inside around w,
    )
  where
    result :
        (buf buf' : Bytes) (d' : Sectors)
        → fetch_first g d h g position ≡ some buf
        → fetch_last g d h buf position n ≡ some buf'
        → write_sectors d h
            (position / 128)
            (position / 128)
            (touched position n)
            (copy from 0 buf' (position - position / 128 * 128) n)
          ≡ some d'
        → write_inside g d h from num_bytes position ≡ some (n, d')
    result buf buf' d' e e₂ e₃ = rw (clip, e, e₂, e₃) refl

-- To a file that its sectors hold, any number of bytes at any position, whose sum is an `int`, is written with no
-- ASSERT failing:
-- the result is the number that lie inside the file, as an array of bytes these change and the others do
-- not, and no sector that is not the file's changes.
pub write_at_lem :
    (g : Bytes) (d : Sectors) (h : FileHeader) (from : Bytes) (num_bytes position : ℕ)
    → IsStored h
    → position + num_bytes < int_limit
    → (d' : Sectors) × (write_at g d h from (pos num_bytes) position
        ≡ some (moved h num_bytes position, d'))
      × IsUpdated d d' h from position (moved h num_bytes position)
unfolding write_at file_length
write_at_lem g d h from num_bytes position st small =
    elim (Bool-cases (num_bytes == 0 || is_past h position)) [
      | inl e ↦
          let none_left : moved h num_bytes position ≡ 0 = ground arith in
          (
            d,
            rw (e, none_left) refl,
            record { bytes = λ p lt. rw none_left ground arith; elsewhere = λ t o f. refl },
          )
      | inr e ↦
          let (d', r, at) =
            write_clipped g d h from num_bytes position (moved h num_bytes position) st
              (ground arith) (ground arith) (ground arith) in
          (d', rw (e, r) refl, at)
    ]
