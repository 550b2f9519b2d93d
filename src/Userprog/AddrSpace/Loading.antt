-- ===== src/Userprog/AddrSpace/Loading.antt =====
-- What the constructor of userprog/addrspace.cc does to main memory, and a program next to the others.
use so.Prelude.{
  ℕ, zero, suc, ◌+◌, ◌*◌, ◌/◌, ◌≤◌, ◌<◌, ltb, leb, ◌==◌, if◌then◌else◌, ◌&&◌, true, false, List, [],
  ◌∷◌, some, get_elem?, length, ◌≡◌, refl, arith, ◌∙◌, ℕ_discrete,
}
use so.Userprog.BitMap
use so.Userprog.BitMap.{BitMap, div_round_up}
use so.Userprog.BitMap.View.{IsValid}
use so.Machine.Memory.{TranslationEntry}
use so.Filesys.FileHeader.{FileHeader}
use so.Filesys.FileHeader.Sectors.{holds}
use so.Filesys.OpenFile.{Bytes, Sectors, int_limit}
use so.Filesys.OpenFile.Contents.{IsStored}
use so.Filesys.OpenFile.Reading.{moved, with_bytes, read_at_lem}
use so.Userprog.AddrSpace.{
  AddrSpace, NoffHeader, noffmagic, pages_of, allocate_pages, zero_pages, load_pages, load,
  code_rounds, data_rounds, create_space, clean_my_bitmap,
}
use so.Userprog.AddrSpace.Frames.{frames, Taken, allocate_pages-Taken, clean_pages_lem}

zero_pages-outside :
    (es : List TranslationEntry) (mem : Bytes) (a : ℕ)
    → frames es (a / 128) ≡ 0
    → zero_pages es mem a ≡ mem a
unfolding zero_pages frames
zero_pages-outside [] mem a e = refl
zero_pages-outside (x ∷ es) mem a e =
    zero_pages-outside es
      (λ b.
        if leb (x.physical_page * 128) b && ltb b (x.physical_page * 128 + 128) then 0 else mem b)
      a (omega arith)
    ∙ ground arith

entry_at :
    (es : List TranslationEntry) (j : ℕ)
    → j < length es
    → (e : TranslationEntry) × (get_elem? es j ≡ some e) × (1 ≤ frames es e.physical_page)
unfolding frames
entry_at [] j lt = ground arith
entry_at (x ∷ es) zero lt = (x, refl, ground arith)
entry_at (x ∷ es) (suc j) lt =
    let (e, at, one) = entry_at es j (omega arith) in (e, at, omega arith)

load_pages_lem :
    (g : Bytes) (d : Sectors) (h : FileHeader) (es : List TranslationEntry) (start i j r : ℕ)
    (mem : Bytes)
    → IsStored h
    → j + r ≤ length es
    → start + i + r * 128 < int_limit
    → (mem' : Bytes) × (load_pages g d h es start i j r mem ≡ some mem')
      × ((a : ℕ) → frames es (a / 128) ≡ 0 → mem' a ≡ mem a)
unfolding load_pages
load_pages_lem g d h es start i j zero mem st fits small = (mem, refl, λ a e. refl)
load_pages_lem g d h es start i j (suc r) mem st fits small =
    let (e, at, one) = entry_at es j (omega arith) in
    let (mem₁, read, bytes) =
      read_at_lem g d h mem (e.physical_page * 128) 128 (start + i) st (omega arith) in
    let (mem', e', rest) =
      load_pages_lem g d h es start (i + 128) (suc j) r mem₁ st (omega arith) (omega arith) in
    (mem', rw (at, read) e', λ a z. rest a z ∙ bytes a ∙ outside e a one z)
  where
    outside :
        (e : TranslationEntry) (a : ℕ)
        → 1 ≤ frames es e.physical_page
        → frames es (a / 128) ≡ 0
        → with_bytes d h mem (e.physical_page * 128) (moved h 128 (start + i)) (start + i) a ≡ mem a
    outside e a one z =
        let ne : (leb (e.physical_page * 128) a
              && ltb a (e.physical_page * 128 + moved h 128 (start + i)))
            ≡ false =
          elim (ℕ_discrete (a / 128) e.physical_page) [
            | yes y ↦ absurd (let z' = rw y at z in omega arith)
            | no n ↦ ground arith
          ] in
        rw ne refl

load_lem :
    (g : Bytes) (d : Sectors) (h : FileHeader) (n : NoffHeader) (es : List TranslationEntry)
    (mem : Bytes)
    → IsStored h
    → div_round_up n.code.virtual_addr 128 + code_rounds n ≤ length es
    → div_round_up n.init_data.virtual_addr 128 + data_rounds n ≤ length es
    → n.code.in_file_addr + (code_rounds n + data_rounds n) * 128 < int_limit
    → (mem' : Bytes) × (load g d h n es (zero_pages es mem) ≡ some mem')
      × ((a : ℕ) → frames es (a / 128) ≡ 0 → mem' a ≡ mem a)
unfolding load
load_lem g d h n es mem st code_fits data_fits small =
    let (mem₁, e₁, same₁) =
      load_pages_lem g d h es n.code.in_file_addr 0 (div_round_up n.code.virtual_addr 128)
        (code_rounds n) (zero_pages es mem) st code_fits (omega arith) in
    let (mem₂, e₂, same₂) =
      load_pages_lem g d h es n.code.in_file_addr (code_rounds n * 128)
        (div_round_up n.init_data.virtual_addr 128) (data_rounds n) mem₁ st data_fits
        (omega arith) in
    (mem₂, rw (e₁, e₂) refl, λ a z. same₂ a z ∙ same₁ a z ∙ zero_pages-outside es mem a z)

-- A frame that another page table names is taken, so that no new one names it too.
not_shared :
    (m m' : BitMap) (es es₂ : List TranslationEntry) (j : ℕ)
    → holds m' j ≡ holds m j + frames es j
    → frames es₂ j ≤ holds m j
    → 0 < frames es₂ j
    → frames es j ≡ 0
not_shared m m' es es₂ j e le used = let b : holds m' j ≤ 1 = ground arith in omega arith

pub create_space_lem :
    (g : Bytes) (d : Sectors) (h : FileHeader) (n : NoffHeader) (m : BitMap) (mem : Bytes) (c : ℕ)
    → IsValid m
    → BitMap.num_clear m ≡ some c
    → pages_of n ≤ c
    → pages_of n ≤ 128
    → n.noff_magic ≡ noffmagic
    → IsStored h
    → div_round_up n.code.virtual_addr 128 + code_rounds n ≤ pages_of n
    → div_round_up n.init_data.virtual_addr 128 + data_rounds n ≤ pages_of n
    → n.code.in_file_addr + (code_rounds n + data_rounds n) * 128 < int_limit
    → (s : AddrSpace) × (m' : BitMap) × (mem' : Bytes) × (m'' : BitMap) × (create_space g d h n m
          mem
        ≡ some (s, m', mem'))
      × Taken m 0 (pages_of n) c s.page_table m'
      × ((es₂ : List TranslationEntry)
          → ((j : ℕ) → frames es₂ j ≤ holds m j)
          → (a : ℕ) → 0 < frames es₂ (a / 128)
          → mem' a ≡ mem a)
      × (clean_my_bitmap s m' ≡ some m'')
      × ((j : ℕ) → holds m'' j ≡ holds m j)
unfolding clean_my_bitmap create_space
create_space_lem g d h n m mem c v clear enough fits magic st code_fits data_fits small =
    let (es, m', e, t) = allocate_pages-Taken m 0 (pages_of n) c v clear enough in
    let (mem', e₂, same) =
      load_lem g d h n es mem st (rw t.pages code_fits) (rw t.pages data_fits) small in
    let (m'', e₃, _, _, back) =
      clean_pages_lem es m' 0 t.valid (rw t.bits t.mapped) (λ j. omega (arith, t.taken j)) in
    (
      record { page_table = es; num_pages = pages_of n },
      m',
      mem',
      m'',
      result es m' mem' e e₂,
      t,
      (λ es₂ held a used.
          same a (not_shared m m' es es₂ (a / 128) (t.taken (a / 128)) (held (a / 128)) used)),
      e₃,
      λ j. omega (arith, t.taken j, back j),
    )
  where
    result :
        (es : List TranslationEntry) (m' : BitMap) (mem' : Bytes)
        → allocate_pages m 0 (pages_of n) ≡ some (es, m')
        → load g d h n es (zero_pages es mem) ≡ some mem'
        → create_space g d h n m mem
          ≡ some (record { page_table = es; num_pages = pages_of n }, m', mem')
    result es m' mem' e e₂ =
        let test : (n.noff_magic == noffmagic) ≡ true = ground arith in
        let test₂ : leb (pages_of n) 128 ≡ true = ground arith in
        let test₃ : leb (pages_of n) c ≡ true = ground arith in
        rw (test, test₂, clear, test₃, e, e₂) refl
