-- ===== src/Filesys/OpenFile/Reading.antt =====
-- What `ReadAt` of filesys/openfile.cc returns and leaves in the caller's buffer.
use so.Prelude.{
  ℕ, ◌+◌, ◌-◌, ◌*◌, ◌/◌, ◌%◌, ◌≤◌, ◌<◌, min, ltb, leb, ◌==◌, if◌then◌else◌, ◌&&◌, ◌||◌, true, pos,
  some, ◌≡◌, refl, arith, ◌∙◌, inl, inr, Bool-cases, lt→ltb,
}
use so.Filesys.FileHeader.{FileHeader, file_length}
use so.Filesys.OpenFile.{
  Bytes, Sectors, copy, clipped, last_sector, read_sectors, read_inside, read_at, int_limit,
  is_past,
}
use so.Filesys.OpenFile.Contents.{IsStored, sector_of, byte_at, read_sectors_lem}

-- How many bytes of the file a request for `num_bytes` of them at `position` moves.
abbrev pub moved : FileHeader → ℕ → ℕ → ℕ
moved h num_bytes position = min num_bytes (h.num_bytes - position)

-- The caller's buffer, from `to` on, with `n` bytes of the file from `position` on.
abbrev pub with_bytes : Sectors → FileHeader → Bytes → ℕ → ℕ → ℕ → Bytes
with_bytes d h into to n position j =
    if leb to j && ltb j (to + n) then byte_at d h (position + (j - to)) else into j

-- The sectors from the first to the last one of a transfer of `n` bytes.
abbrev pub touched : ℕ → ℕ → ℕ
touched position n = 1 + last_sector position n - position / 128

pub touched_fit :
    (h : FileHeader) (n position : ℕ)
    → IsStored h
    → position + n ≤ h.num_bytes
    → 0 < n
    → position / 128 + touched position n ≤ h.num_sectors
touched_fit h n position st inside some_bytes = let c = st.covered in omega arith

buffer_byte :
    (d : Sectors) (h : FileHeader) (g buf : Bytes) (n position o : ℕ)
    → ((j : ℕ)
        → buf j ≡ (
            if leb ((position / 128 - position / 128) * 128) j
              && ltb j ((position / 128 + touched position n - position / 128) * 128)
            then d (sector_of h (position / 128 + j / 128)) (j % 128)
            else g j))
    → o < n
    → buf (position - position / 128 * 128 + o) ≡ byte_at d h (position + o)
buffer_byte d h g buf n position o at lt =
    let j = position - position / 128 * 128 + o in
    let e : position / 128 + j / 128 ≡ (position + o) / 128 = omega arith in
    let e₂ : j % 128 ≡ (position + o) % 128 = omega arith in
    let low : leb ((position / 128 - position / 128) * 128) j ≡ true = ground arith in
    let high : ltb j ((position / 128 + touched position n - position / 128) * 128) ≡ true =
      lt→ltb j ((position / 128 + touched position n - position / 128) * 128) (omega arith) in
    at j ∙ rw (low, high, e, e₂) refl

read_clipped :
    (g : Bytes) (d : Sectors) (h : FileHeader) (into : Bytes) (to num_bytes position n : ℕ)
    → IsStored h
    → clipped h num_bytes position ≡ some n
    → position + n ≤ h.num_bytes
    → 0 < n
    → (into' : Bytes) × (read_inside g d h into to num_bytes position ≡ some (n, into'))
      × ((j : ℕ) → into' j ≡ with_bytes d h into to n position j)
unfolding read_inside file_length
read_clipped g d h into to num_bytes position n st clip inside some_bytes =
    let first = position / 128 in
    let (buf, e, at) =
      read_sectors_lem d h first first (touched position n) g st (omega arith)
        (touched_fit h n position st inside some_bytes) in
    (copy buf (position - first * 128) into to n, result buf e, bytes buf at)
  where
    result :
        (buf : Bytes)
        → read_sectors d h (position / 128) (position / 128) (touched position n) g ≡ some buf
        → read_inside g d h into to num_bytes position
          ≡ some (n, copy buf (position - position / 128 * 128) into to n)
    result buf e = rw (clip, e) refl

    bytes :
        (buf : Bytes)
        → ((j : ℕ)
            → buf j ≡ (
                if leb ((position / 128 - position / 128) * 128) j
                  && ltb j ((position / 128 + touched position n - position / 128) * 128)
                then d (sector_of h (position / 128 + j / 128)) (j % 128)
                else g j))
        → (j : ℕ)
        → copy buf (position - position / 128 * 128) into to n j
          ≡ with_bytes d h into to n position j
    bytes buf at j = elim (Bool-cases (leb to j && ltb j (to + n))) [
      | inl e ↦ rw e (buffer_byte d h g buf n position (j - to) at (ground arith))
      | inr e ↦ rw e refl
    ]

-- From a file that its sectors hold, any number of bytes at any position, whose sum is an `int`, is read with no
-- ASSERT failing:
-- the result is the number that lie inside the file, these bytes of the file stand in the caller's buffer,
-- in order, and the rest of the buffer is as it was.
pub read_at_lem :
    (g : Bytes) (d : Sectors) (h : FileHeader) (into : Bytes) (to num_bytes position : ℕ)
    → IsStored h
    → position + num_bytes < int_limit
    → (into' : Bytes) × (read_at g d h into to (pos num_bytes) position
        ≡ some (moved h num_bytes position, into'))
      × ((j : ℕ) → into' j ≡ with_bytes d h into to (moved h num_bytes position) position j)
unfolding read_at file_length
read_at_lem g d h into to num_bytes position st small =
    elim (Bool-cases (num_bytes == 0 || is_past h position)) [
      | inl e ↦
          let none_left : moved h num_bytes position ≡ 0 = ground arith in
          (into, rw (e, none_left) refl, λ j. rw none_left ground arith)
      | inr e ↦
          let (into', r, at) =
            read_clipped g d h into to num_bytes position (moved h num_bytes position) st
              (ground arith) (ground arith) (ground arith) in
          (into', rw (e, r) refl, at)
    ]
