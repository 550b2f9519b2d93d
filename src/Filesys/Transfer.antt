-- ===== src/Filesys/Transfer.antt =====
-- filesys/fstest.cc: Copy and Print. What `fread` finds is a parameter, chunk by chunk; a file is open and at its
-- beginning where the loops start, and what `new` finds in memory is a parameter.
pub mod RoundTrip
pub mod Files
use so.Prelude.{
  ℕ, zero, suc, ◌+◌, ◌-◌, ◌==◌, ltb, if◌then◌else◌, List, [], ◌∷◌, ◌++◌, pos, Option, none, some,
  ◌>>=◌, not,
}
use so.Filesys.FileHeader.{FileHeader}
use so.Filesys.FileSystem
use so.Filesys.FileSystem.{FileSystem, OpenFile}
use so.Filesys.OpenFile
use so.Filesys.OpenFile.{Bytes, Sectors}

-- `TransferSize`.
abbrev pub transfer_size : ℕ
transfer_size = 10

-- What one call of `fread` returns and puts into the buffer.
pub record Chunk : Type 0 where
  pub amount_read : ℕ
  pub buffer : Bytes

-- The loop of `Copy`: `Write` of each chunk, whose result is not looked at.
unfoldable pub copy_chunks : Bytes → Sectors → OpenFile → List Chunk → Option (Sectors × OpenFile)
copy_chunks g d f [] = some (d, f)
copy_chunks g d f (c ∷ cs) = do
  (n, d', f') ← OpenFile.write g d f c.buffer (pos c.amount_read)
  copy_chunks g d' f' cs

-- The characters `buffer[from]`, `buffer[from + 1]`, ... that are printed.
unfoldable pub shown : Bytes → ℕ → ℕ → List ℕ
shown buf from zero = []
shown buf from (suc n) = buf from ∷ shown buf (suc from) n

-- The loop of `Print`; `fuel` bounds its rounds.
unfoldable pub print_chunks : ℕ → Bytes → Sectors → OpenFile → Bytes → Option (List ℕ)
print_chunks zero g d f buf = none
print_chunks (suc fuel) g d f buf = do
  (n, buf', f') ← OpenFile.read g d f buf (pos transfer_size)
  let rest = print_chunks fuel g d f' buf' in
      if n == 0 then some [] else (do l ← rest; some (shown buf' 0 n ++ l))

-- `Copy`. The UNIX file is its length, as `ftell` gives it, and what the calls of `fread` deliver; it is `none`
-- where `fopen` fails. `h` and `g` are what `new` finds in memory.
unfoldable pub copy_file :
    FileHeader
    → Bytes
    → FileSystem
    → Sectors
    → Option (ℕ × List Chunk)
    → List ℕ
    → Option (FileSystem × Sectors)
copy_file h g s d none to = some (s, d)
copy_file h g s d (some (file_length, cs)) to = do
  (created, s') ← FileSystem.create h s to file_length
  if not created then some (s', d) else (do
    opened ← FileSystem.open_file s' to
    f ← opened
    (d', f') ← copy_chunks g d f cs
    some (s', d'))

-- `Print`: the characters of the file, or `none` for the message that it cannot be opened.
unfoldable pub print_file :
    ℕ → Bytes → FileSystem → Sectors → List ℕ → Bytes → Option (Option (List ℕ))
print_file fuel g s d name buf = do
  opened ← FileSystem.open_file s name
  elim opened [ none ↦ some none | some f ↦ (do l ← print_chunks fuel g d f buf; some (some l)) ]
