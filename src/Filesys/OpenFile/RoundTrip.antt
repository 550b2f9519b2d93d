-- ===== src/Filesys/OpenFile/RoundTrip.antt =====
-- `Read`, `Write` and `Seek` of filesys/openfile.h together.
use so.Prelude.{
  ℕ, ◌+◌, ◌-◌, ◌<◌, ltb, leb, if◌then◌else◌, ◌&&◌, true, pos, some, ◌≡◌, refl, arith, ◌∙◌,
}
use so.Filesys.FileSystem.{OpenFile}
use so.Filesys.OpenFile.{Bytes, Sectors, int_limit, read, write, seek}
use so.Filesys.OpenFile.Contents.{IsStored, byte_at}
use so.Filesys.OpenFile.Reading.{moved, read_at_lem}
use so.Filesys.OpenFile.Writing.{IsUpdated, write_at_lem}

-- `Write`, then `Seek` back to where it began and `Read`: on a file that its sectors hold, where the position
-- and the number of bytes have an `int` as sum, both move the same number of bytes, the buffer that is read holds the bytes that were written, and the file is left
-- with the same seek position as after the `Write`.
pub read-write :
    (g g' : Bytes) (d : Sectors) (f : OpenFile) (from into : Bytes) (num_bytes : ℕ)
    → IsStored f.hdr
    → f.seek_position + num_bytes < int_limit
    → (n : ℕ) × (d' : Sectors) × (into' : Bytes) × (f' : OpenFile) × (write g d f from
          (pos num_bytes)
        ≡ some (n, d', f'))
      × (read g' d' (seek f' f.seek_position) into (pos num_bytes) ≡ some (n, into', f'))
      × ((k : ℕ) → k < n → into' k ≡ from k)
unfolding read write seek
read-write g g' d f from into num_bytes st small =
    let (d', e, u) = write_at_lem g d f.hdr from num_bytes f.seek_position st small in
    let (into', e₂, at) = read_at_lem g' d' f.hdr into 0 num_bytes f.seek_position st small in
    let n = moved f.hdr num_bytes f.seek_position in
    (
      n,
      d',
      into',
      seek f (f.seek_position + n),
      rw e refl,
      rw e₂ refl,
      λ k lt. at k ∙ written d' u k lt,
    )
  where
    written :
        (d' : Sectors)
        → IsUpdated d d' f.hdr from f.seek_position (moved f.hdr num_bytes f.seek_position)
        → (k : ℕ) → k < moved f.hdr num_bytes f.seek_position
        → (if leb 0 k && ltb k (0 + moved f.hdr num_bytes f.seek_position)
            then byte_at d' f.hdr (f.seek_position + (k - 0))
            else into k)
          ≡ from k
    written d' u k lt =
        let p = f.seek_position + (k - 0) in
        let low : (leb 0 k && ltb k (0 + moved f.hdr num_bytes f.seek_position)) ≡ true =
          ground arith in
        let high : (leb f.seek_position p
              && ltb p (f.seek_position + moved f.hdr num_bytes f.seek_position))
            ≡ true =
          ground arith in
        let e : p - f.seek_position ≡ k = omega arith in
        rw low (u.bytes p (omega arith) ∙ rw (high, e) refl)
