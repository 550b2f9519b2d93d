-- ===== src/Userprog/AddrSpace/Frames.antt =====
-- The frames that userprog/addrspace.cc takes from `myBitmap` and gives back.
use so.Prelude.{
  ℕ, zero, suc, ◌+◌, ◌-◌, ◌≤◌, ◌<◌, ◌==◌, if◌then◌else◌, true, false, List, [], ◌∷◌, some, length,
  ◌≡◌, refl, arith, ◌∙◌, ap,
}
use so.Userprog.BitMap
use so.Userprog.BitMap.{BitMap}
use so.Userprog.BitMap.View.{IsValid, clear_lem}
use so.Userprog.BitMap.Find.{find-some}
use so.Machine.Memory.{TranslationEntry}
use so.Filesys.FileHeader.Sectors.{holds}
use so.Userprog.AddrSpace.{entry, allocate_pages, clean_pages}

-- How often a page table names a frame.
unfoldable pub frames : List TranslationEntry → ℕ → ℕ
frames [] j = 0
frames (e ∷ es) j = (if e.physical_page == j then 1 else 0) + frames es j

-- Page `i` on stand in the table in order, each valid and in a frame below `n`.
unfoldable pub AreMapped : List TranslationEntry → ℕ → ℕ → Type 0
AreMapped [] i n = Unit
AreMapped (e ∷ es) i n =
    (e.virtual_page ≡ i)
    × (e.physical_page < n)
    × (e.valid ≡ true)
    × (e.read_only ≡ false)
    × AreMapped es (suc i) n

-- What the loop leaves: each frame that it took was free before and is taken now.
pub record Taken (m : BitMap) (i r c : ℕ) (es : List TranslationEntry) (m' : BitMap) : Type 0 where
  pub valid : IsValid m'
  pub bits : m'.num_bits ≡ m.num_bits
  pub pages : length es ≡ r
  pub mapped : AreMapped es i m.num_bits
  pub left : BitMap.num_clear m' ≡ some (c - r)
  pub taken : (j : ℕ) → holds m' j ≡ holds m j + frames es j

-- Where `r` frames are free, the loop of the constructor takes `r` frames, one for each page: they were free, no two
-- are the same, and the marks of the other frames stay.
pub allocate_pages-Taken :
    (m : BitMap) (i r c : ℕ)
    → IsValid m
    → BitMap.num_clear m ≡ some c
    → r ≤ c
    → (es : List TranslationEntry) × (m' : BitMap) × (allocate_pages m i r ≡ some (es, m'))
      × Taken m i r c es m'
unfolding allocate_pages frames AreMapped
allocate_pages-Taken m i zero c v e le = (
  [],
  m,
  refl,
  record {
    valid = v;
    bits = refl;
    pages = refl;
    mapped = tt;
    left = e ∙ ap some (omega arith);
    taken = λ j. omega arith;
  },
)
allocate_pages-Taken m i (suc r) zero v e le = absurd (omega arith)
allocate_pages-Taken m i (suc r) (suc c) v e le =
    let (k, m₁, found, lt, free, v₁, n₁, e₁, mem) = find-some m c v e in
    let (es, m', e', a) = allocate_pages-Taken m₁ (suc i) r c v₁ e₁ (omega arith) in
    (
      entry i k ∷ es,
      m',
      rw (found, e') refl,
      record {
        valid = a.valid;
        bits = a.bits ∙ n₁;
        pages = ap suc a.pages;
        mapped = (refl, lt, refl, refl, rw (← n₁) a.mapped);
        left = a.left ∙ ap some (omega arith);
        taken = λ j. ground (arith, a.taken j, mem j);
      },
    )

pub clean_pages_lem :
    (es : List TranslationEntry) (m : BitMap) (i : ℕ)
    → IsValid m
    → AreMapped es i m.num_bits
    → ((j : ℕ) → frames es j ≤ holds m j)
    → (m' : BitMap) × (clean_pages es m ≡ some m')
      × IsValid m'
      × (m'.num_bits ≡ m.num_bits)
      × ((j : ℕ) → holds m' j + frames es j ≡ holds m j)
unfolding clean_pages frames AreMapped
clean_pages_lem [] m i v a le = (m, refl, v, refl, λ j. omega arith)
clean_pages_lem (e ∷ es) m i v (a₀, lt, a₂, a₃, a) le =
    let (m₁, e₁, v₁, n₁, mem) = clear_lem m e.physical_page v lt in
    let (m', e', v', n', mem') =
      clean_pages_lem es m₁ (suc i) v₁ (rw n₁ a) (λ j. ground (arith, le j, mem j)) in
    (m', rw e₁ e', v', n' ∙ n₁, λ j. ground (arith, mem' j, mem j, le j, le e.physical_page))
