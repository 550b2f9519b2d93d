-- ===== src/Filesys/Transfer/RoundTrip.antt =====
-- What Copy of filesys/fstest.cc leaves in a file, and what Print shows of it.
use so.Prelude.{
  ℕ, zero, suc, ◌+◌, ◌-◌, ◌≤◌, ◌<◌, ltb, leb, ◌==◌, if◌then◌else◌, ◌&&◌, false, List, [], ◌∷◌, ◌++◌,
  pos, some, ◌≡◌, refl, arith, ◌∙◌, sym, ap, inl, inr, Bool-cases,
}
use so.Filesys.FileHeader.{FileHeader}
use so.Filesys.FileSystem.{OpenFile}
use so.Filesys.OpenFile
use so.Filesys.OpenFile.{Bytes, Sectors, int_limit, seek}
use so.Filesys.OpenFile.Contents.{IsStored, byte_at}
use so.Filesys.OpenFile.Reading.{moved, read_at_lem}
use so.Filesys.OpenFile.Writing.{write_at_lem}
use so.Filesys.Transfer.{Chunk, copy_chunks, print_chunks, shown, transfer_size}

-- The bytes that the chunks make up, and how many they are.
abbrev pub total : List Chunk → ℕ
total [] = 0
total (c ∷ cs) = c.amount_read + total cs

abbrev pub joined : List Chunk → Bytes
joined [] j = 0
joined (c ∷ cs) j = if ltb j c.amount_read then c.buffer j else joined cs (j - c.amount_read)

abbrev pub opened : FileHeader → ℕ → OpenFile
opened h position = record { hdr = h; seek_position = position }

-- The bytes of the file once `n` bytes of `from` stand from `position` on.
abbrev with_range : Bytes → Bytes → ℕ → ℕ → Bytes
with_range old from position n p =
    if leb position p && ltb p (position + n) then from (p - position) else old p

with_range-joined :
    (old mid : Bytes) (c : Chunk) (cs : List Chunk) (position p : ℕ)
    → mid p ≡ with_range old c.buffer position c.amount_read p
    → with_range mid (joined cs) (position + c.amount_read) (total cs) p
      ≡ with_range old (joined (c ∷ cs)) position (c.amount_read + total cs) p
with_range-joined old mid c cs position p e =
    let shift : p - (position + c.amount_read) ≡ (p - position) - c.amount_read = omega arith in
    rw shift (ground (arith, e))

-- One round of the loop of `Copy`.
copy_round :
    (g : Bytes) (d d₁ d' : Sectors) (f f' : OpenFile) (c : Chunk) (cs : List Chunk) (n : ℕ)
    → OpenFile.write_at g d f.hdr c.buffer (pos c.amount_read) f.seek_position ≡ some (n, d₁)
    → copy_chunks g d₁ (seek f (f.seek_position + n)) cs ≡ some (d', f')
    → copy_chunks g d f (c ∷ cs) ≡ some (d', f')
unfolding copy_chunks OpenFile.write
copy_round g d d₁ d' f f' c cs n e run = rw (e, run) refl

inside_small :
    (h : FileHeader) (position n : ℕ)
    → IsStored h
    → position + n ≤ h.num_bytes
    → position + n < int_limit
inside_small h position n st inside = omega (arith, st.covered, st.on_disk)

chunk_small :
    (h : FileHeader) (position n : ℕ)
    → IsStored h
    → position ≤ h.num_bytes
    → n ≤ 128
    → position + n < int_limit
chunk_small h position n st inside few = omega (arith, st.covered, st.on_disk)

copy_chunks_lem :
    (g : Bytes) (d : Sectors) (h : FileHeader) (position : ℕ) (cs : List Chunk)
    → IsStored h
    → position + total cs ≤ h.num_bytes
    → (d' : Sectors) × (copy_chunks g d (opened h position) cs
        ≡ some (d', opened h (position + total cs)))
      × ((p : ℕ)
          → p < h.num_bytes
          → byte_at d' h p ≡ with_range (byte_at d h) (joined cs) position (total cs) p)
unfolding copy_chunks seek
copy_chunks_lem g d h position [] st fits =
    let e : position + 0 ≡ position = omega arith in (d, rw e refl, λ p lt. ground arith)
copy_chunks_lem g d h position (c ∷ cs) st fits =
    let (d₁, e, u) =
      write_at_lem g d h c.buffer c.amount_read position st
        (inside_small h position c.amount_read st (omega arith)) in
    let all : moved h c.amount_read position ≡ c.amount_read = ground arith in
    let next = position + c.amount_read in
    let (d', run, bytes) = copy_chunks_lem g d₁ h next cs st (omega arith) in
    let ends : next + total cs ≡ position + (c.amount_read + total cs) = omega arith in
    let e' : OpenFile.write_at g d h c.buffer (pos c.amount_read) position
        ≡ some (c.amount_read, d₁) =
      e ∙ ap (λ n. some (n, d₁)) all in
    (
      d',
      copy_round g d d₁ d' (opened h position) (opened h (next + total cs)) c cs c.amount_read e'
            run
          ∙ ap (λ n. some (d', opened h n)) ends,
      λ p lt.
          bytes p lt
          ∙ with_range-joined (byte_at d h) (byte_at d₁ h) c cs position p
              (u.bytes p lt ∙ ap (λ n. with_range (byte_at d h) c.buffer position n p) all),
    )

shown-ext :
    (b b' : Bytes) (p q n : ℕ)
    → ((k : ℕ) → k < n → b (p + k) ≡ b' (q + k))
    → shown b p n ≡ shown b' q n
unfolding shown
shown-ext b b' p q zero same = refl
shown-ext b b' p q (suc n) same =
    let head : b p ≡ b' q = ap b (omega arith) ∙ same 0 (omega arith) ∙ ap b' (omega arith) in
    let tail =
      shown-ext b b' (suc p) (suc q) n
        (λ k lt. ap b (omega arith) ∙ same (suc k) (omega arith) ∙ ap b' (omega arith)) in
    rw (head, tail) refl

shown-append : (b : Bytes) (p m n : ℕ) → shown b p (m + n) ≡ shown b p m ++ shown b (p + m) n
unfolding shown
shown-append b p zero n =
    let e : 0 + n ≡ n = omega arith in let e' : p + 0 ≡ p = omega arith in rw (e, e') refl
shown-append b p (suc m) n =
    let e : suc m + n ≡ suc (m + n) = omega arith in
    let e' : p + suc m ≡ suc p + m = omega arith in
    rw (e, e') (ap (λ l. b p ∷ l) (shown-append b (suc p) m n))

last_round :
    (fuel : ℕ) (g : Bytes) (d : Sectors) (h : FileHeader) (position : ℕ) (buf buf' : Bytes)
    → OpenFile.read_at g d h buf 0 (pos transfer_size) position ≡ some (0, buf')
    → print_chunks (suc fuel) g d (opened h position) buf ≡ some []
unfolding print_chunks OpenFile.read
last_round fuel g d h position buf buf' e = rw e refl

print_round :
    (fuel : ℕ) (g : Bytes) (d : Sectors) (h : FileHeader) (position n : ℕ) (buf buf' : Bytes)
    (l : List ℕ)
    → OpenFile.read_at g d h buf 0 (pos transfer_size) position ≡ some (n, buf')
    → (n == 0) ≡ false
    → print_chunks fuel g d (opened h (position + n)) buf' ≡ some l
    → print_chunks (suc fuel) g d (opened h position) buf ≡ some (shown buf' 0 n ++ l)
unfolding print_chunks OpenFile.read seek
print_round fuel g d h position n buf buf' l e more run = rw (e, more, run) refl

print_chunks_lem :
    (fuel : ℕ) (g : Bytes) (d : Sectors) (h : FileHeader) (position : ℕ) (buf : Bytes)
    → IsStored h
    → position ≤ h.num_bytes
    → h.num_bytes - position < fuel
    → print_chunks fuel g d (opened h position) buf
      ≡ some (shown (byte_at d h) position (h.num_bytes - position))
unfolding shown
print_chunks_lem zero g d h position buf st inside lt = absurd (omega arith)
print_chunks_lem (suc fuel) g d h position buf st inside lt =
    let (buf', e, at) =
      read_at_lem g d h buf 0 transfer_size position st
        (chunk_small h position 10 st inside (omega arith)) in
    let n = moved h 10 position in
    elim (Bool-cases (n == 0)) [
      | inl done ↦
          let none_moved : n ≡ 0 = ground arith in
          let none_left : h.num_bytes - position ≡ 0 = ground arith in
          last_round fuel g d h position buf buf' (e ∙ ap (λ m. some (m, buf')) none_moved)
          ∙ ap (λ m. some (shown (byte_at d h) position m)) (sym none_left)
      | inr more ↦
          let rest = h.num_bytes - (position + n) in
          let split : n + rest ≡ h.num_bytes - position = ground arith in
          let same =
            shown-ext buf' (byte_at d h) 0 position n (λ k under. at (0 + k) ∙ ground arith) in
          let run =
            print_chunks_lem fuel g d h (position + n) buf' st (ground arith) (ground arith) in
          print_round fuel g d h position n buf buf' (shown (byte_at d h) (position + n) rest) e
            more run
          ∙ ap some (
              ap (λ l. l ++ shown (byte_at d h) (position + n) rest) same
              ∙ sym (shown-append (byte_at d h) position n rest)
              ∙ ap (λ m. shown (byte_at d h) position m) split)
    ]

-- The loop of `Copy` into a file that its sectors hold and that is as long as the chunks that `fread` gives together
-- writes with no ASSERT failing, and ends at the end of the file; the loop of `Print` on that file then shows the
-- bytes of the chunks in order, and nothing else. One round more than there are bytes is enough for it.
pub print_chunks-copy_chunks :
    (g g' : Bytes) (d : Sectors) (h : FileHeader) (cs : List Chunk) (fuel : ℕ) (buf : Bytes)
    → IsStored h
    → total cs ≡ h.num_bytes
    → total cs < fuel
    → (d' : Sectors) × (copy_chunks g d (opened h 0) cs ≡ some (d', opened h (total cs)))
      × (print_chunks fuel g' d' (opened h 0) buf ≡ some (shown (joined cs) 0 (total cs)))
print_chunks-copy_chunks g g' d h cs fuel buf st size enough =
    let (d', run, bytes) = copy_chunks_lem g d h 0 cs st (omega arith) in
    let ends : 0 + total cs ≡ total cs = omega arith in
    let all : h.num_bytes - 0 ≡ total cs = omega arith in
    let printed = print_chunks_lem fuel g' d' h 0 buf st (omega arith) (omega arith) in
    let same =
      shown-ext (byte_at d' h) (joined cs) 0 0 (total cs)
        (λ k lt. bytes (0 + k) (omega arith) ∙ ground arith) in
    (
      d',
      run ∙ ap (λ n. some (d', opened h n)) ends,
      printed ∙ ap (λ n. some (shown (byte_at d' h) 0 n)) all ∙ ap some same,
    )
