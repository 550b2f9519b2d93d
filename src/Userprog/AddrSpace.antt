-- ===== src/Userprog/AddrSpace.antt =====
-- userprog/addrspace.h and userprog/addrspace.cc: the frames and the page table of a user program. Main memory is
-- read by index, and sizes are taken not to wrap. `ReadAt` takes a place from 2 ^ 31 on as negative. `none` is an ASSERT that fails, or an index past the page table.
pub mod Frames
pub mod Loading
pub mod Loadable
use so.Prelude.{
  ℕ, zero, suc, ◌+◌, ◌-◌, ◌*◌, ◌/◌, ◌^◌, ltb, leb, ◌==◌, if◌then◌else◌, ◌&&◌, Bool, true, false,
  not, List, [], ◌∷◌, ℤ, pos, negsuc, Option, none, some, ◌>>=◌, ◌>>◌, assert, get_elem?,
}
use so.Prelude.Words.{int_at}
use so.Userprog.BitMap
use so.Userprog.BitMap.{BitMap, div_round_up}
use so.Machine.Memory.{
  Machine, TranslationEntry, page_size, num_phys_pages, set_register, store, pc_reg, next_pc_reg,
}
use so.Filesys.FileHeader.{FileHeader}
use so.Filesys.OpenFile.{Bytes, Sectors, read_at}

-- `Segment` and `NoffHeader` of bin/noff.h, each field an `int` as a number below 2 ^ 32.
pub record Segment : Type 0 where
  pub virtual_addr : ℕ
  pub in_file_addr : ℕ
  pub size : ℕ

pub record NoffHeader : Type 0 where
  pub noff_magic : ℕ
  pub code : Segment
  pub init_data : Segment
  pub uninit_data : Segment

pub record AddrSpace : Type 0 where
  pub page_table : List TranslationEntry
  pub num_pages : ℕ

abbrev pub noffmagic : ℕ
noffmagic = 12246957

abbrev pub user_stack_size : ℕ
user_stack_size = 1024

abbrev pub segment_at : Bytes → ℕ → Segment
segment_at b a = record {
  virtual_addr = int_at b a;
  in_file_addr = int_at b (a + 4);
  size = int_at b (a + 8);
}

-- The bytes of `noffH`; `SwapHeader` changes nothing on a little endian host.
unfoldable pub noff_header : Bytes → NoffHeader
noff_header b = record {
  noff_magic = int_at b 0;
  code = segment_at b 4;
  init_data = segment_at b 16;
  uninit_data = segment_at b 28;
}

unfoldable pub pages_of : NoffHeader → ℕ
pages_of n =
    div_round_up (n.code.size + n.init_data.size + n.uninit_data.size + user_stack_size) page_size

-- What an `int` is as a page number.
abbrev pub page_number : ℤ → ℕ
page_number (pos k) = k
page_number (negsuc n) = 2 ^ 32 - 1 - n

abbrev pub entry : ℕ → ℕ → TranslationEntry
entry virtual physical = record {
  virtual_page = virtual;
  physical_page = physical;
  valid = true;
  read_only = false;
  used = false;
  dirty = false;
}

-- The loop that fills the page table, from page `i` on with `r` rounds left.
unfoldable pub allocate_pages : BitMap → ℕ → ℕ → Option (List TranslationEntry × BitMap)
allocate_pages m i zero = some ([], m)
allocate_pages m i (suc r) = do
  (frame, m') ← BitMap.find m
  (es, m'') ← allocate_pages m' (suc i) r
  some (entry i (page_number frame) ∷ es, m'')

-- The loop of `bzero`.
unfoldable pub zero_pages : List TranslationEntry → Bytes → Bytes
zero_pages [] mem = mem
zero_pages (e ∷ es) mem = zero_pages es (λ a.
    if leb (e.physical_page * page_size) a && ltb a (e.physical_page * page_size + page_size)
    then 0
    else mem a)

-- The rounds of the loops that load a segment: byte `i` of the program on, into page `j` on.
unfoldable pub load_pages :
    Bytes → Sectors → FileHeader → List TranslationEntry → ℕ → ℕ → ℕ → ℕ → Bytes → Option Bytes
load_pages g d h es start i j zero mem = some mem
load_pages g d h es start i j (suc r) mem = do
  e ← get_elem? es j
  (_, mem') ← read_at g d h mem (e.physical_page * page_size) (pos page_size) (start + i)
  load_pages g d h es start (i + page_size) (suc j) r mem'

-- `i` after the loop of the code segment, which makes a round for `i` equal to the size as well.
abbrev pub code_rounds : NoffHeader → ℕ
code_rounds n = if ltb 0 n.code.size then n.code.size / page_size + 1 else 0

abbrev pub data_rounds : NoffHeader → ℕ
data_rounds n =
    if ltb 0 n.init_data.size
    then div_round_up (n.code.size + n.init_data.size - code_rounds n * page_size) page_size
    else 0

unfoldable pub load :
    Bytes → Sectors → FileHeader → NoffHeader → List TranslationEntry → Bytes → Option Bytes
load g d h n es mem = do
  mem' ←
      load_pages g d h es n.code.in_file_addr 0 (div_round_up n.code.virtual_addr page_size)
        (code_rounds n) mem
  load_pages g d h es n.code.in_file_addr (code_rounds n * page_size)
      (div_round_up n.init_data.virtual_addr page_size) (data_rounds n) mem'

-- The constructor, once `noffH` is read.
unfoldable pub create_space :
    Bytes → Sectors → FileHeader → NoffHeader → BitMap → Bytes → Option (AddrSpace × BitMap × Bytes)
create_space g d h n my_bitmap mem = do
  assert (n.noff_magic == noffmagic)
  assert (leb (pages_of n) num_phys_pages)
  free ← BitMap.num_clear my_bitmap
  assert (leb (pages_of n) free)
  (es, my_bitmap') ← allocate_pages my_bitmap 0 (pages_of n)
  mem' ← load g d h n es (zero_pages es mem)
  some (record { page_table = es; num_pages = pages_of n }, my_bitmap', mem')

-- `AddrSpace::AddrSpace`: `g` is what the memory of the host holds.
unfoldable pub addr_space :
    Bytes → Sectors → FileHeader → BitMap → Bytes → Option (AddrSpace × BitMap × Bytes)
addr_space g d h my_bitmap mem = do
  (_, bytes) ← read_at g d h g 0 (pos 40) 0
  create_space g d h (noff_header bytes) my_bitmap mem

-- The loop of `CleanMyBitmap`, over the page table.
unfoldable pub clean_pages : List TranslationEntry → BitMap → Option BitMap
clean_pages [] m = some m
clean_pages (e ∷ es) m = do m' ← BitMap.clear m (pos e.physical_page); clean_pages es m'

unfoldable pub clean_my_bitmap : AddrSpace → BitMap → Option BitMap
clean_my_bitmap s m = clean_pages s.page_table m

-- `InitRegisters`.
abbrev pub zeroed : Machine → Machine
zeroed m = record m { registers = λ i. if ltb i 40 then 0 else m.registers i }

unfoldable pub init_registers : AddrSpace → Machine → Machine
init_registers s m =
    set_register (set_register (set_register (zeroed m) pc_reg 0) next_pc_reg 4) 29
      (s.num_pages * page_size - 16)

-- `RestoreState`.
unfoldable pub restore_state : AddrSpace → Machine → Machine
restore_state s m = record m { page_table = some s.page_table; page_table_size = s.num_pages }
