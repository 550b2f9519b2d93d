-- ===== src/Userprog/AddrSpace/Loadable.antt =====
-- When the constructor of userprog/addrspace.cc runs through.
use so.Prelude.{
  ℕ, ◌+◌, ◌*◌, ◌/◌, ◌≤◌, ◌<◌, ◌==◌, if◌then◌else◌, [], ◌∷◌, pos, some, ◌>>=◌, ◌≡◌, ◌∙◌, ap, arith,
}
use so.Userprog.BitMap
use so.Userprog.BitMap.{BitMap, div_round_up}
use so.Userprog.BitMap.View.{IsValid}
use so.Filesys.FileHeader.{FileHeader}
use so.Filesys.FileHeader.Sectors.{holds}
use so.Filesys.OpenFile.{Bytes, Sectors, int_limit, read_at}
use so.Filesys.OpenFile.Contents.{IsStored}
use so.Userprog.AddrSpace.{
  AddrSpace, entry, noff_header, noffmagic, pages_of, code_rounds, data_rounds, addr_space,
  create_space, clean_my_bitmap,
}
use so.Userprog.AddrSpace.Frames.{frames}
use so.Userprog.AddrSpace.Loading.{create_space_lem}

-- The executable is stored, its first bytes are a header with the magic number and segments that end inside the pages,
-- places in the file that are `int`s, and as many frames are free as it has pages.
pub record IsLoadable (g : Bytes) (d : Sectors) (h : FileHeader) (m : BitMap) : Type 0 where
  pub count : ℕ
  pub bytes : Bytes
  pub read : read_at g d h g 0 (pos 40) 0 ≡ some (count, bytes)
  pub free : ℕ
  pub valid : IsValid m
  pub left : BitMap.num_clear m ≡ some free
  pub enough : pages_of (noff_header bytes) ≤ free
  pub fits : pages_of (noff_header bytes) ≤ 128
  pub magic : (noff_header bytes).noff_magic ≡ noffmagic
  pub stored : IsStored h
  pub code_fits :
      div_round_up ((noff_header bytes).code.virtual_addr) 128 + code_rounds (noff_header bytes)
      ≤ pages_of (noff_header bytes)
  pub data_fits :
      div_round_up ((noff_header bytes).init_data.virtual_addr) 128
        + data_rounds (noff_header bytes)
      ≤ pages_of (noff_header bytes)
  pub places :
      (noff_header bytes).code.in_file_addr
        + (code_rounds (noff_header bytes) + data_rounds (noff_header bytes)) * 128
      < int_limit

-- The constructor runs through, leaves the frames of other programs alone, and the destructor gives back its own.
pub addr_space_lem :
    (g : Bytes) (d : Sectors) (h : FileHeader) (m : BitMap) (mem : Bytes)
    → IsLoadable g d h m
    → (s : AddrSpace) × (m' : BitMap) × (mem' : Bytes) × (m'' : BitMap) × (addr_space g d h m mem
        ≡ some (s, m', mem'))
      × ((a : ℕ) → 0 < holds m (a / 128) → mem' a ≡ mem a)
      × (clean_my_bitmap s m' ≡ some m'')
      × ((j : ℕ) → holds m'' j ≡ holds m j)
unfolding addr_space frames
addr_space_lem g d h m mem l =
    let (s, m', mem', m'', e, t, same, cleaned, back) =
      create_space_lem g d h (noff_header l.bytes) m mem l.free l.valid l.left l.enough l.fits
        l.magic l.stored l.code_fits l.data_fits l.places in
    (
      s,
      m',
      mem',
      m'',
      ap (λ o. o >>= λ r. create_space g d h (noff_header (r.1)) m mem) l.read ∙ e,
      (λ a used. same (entry 0 (a / 128) ∷ []) (λ j. named a j used) a (ground arith)),
      cleaned,
      back,
    )
  where
    named : (a j : ℕ) → 0 < holds m (a / 128) → (if (a / 128) == j then 1 else 0) + 0 ≤ holds m j
    named a j used = ground arith
