-- ===== src/Tests/Programs.antt =====
-- A program that is loaded, and its files.
use so.Prelude.{
  ℕ, zero, suc, ◌≤◌, ◌<◌, ◌==◌, if◌then◌else◌, List, [], ◌∷◌, Option, some, none, get_elem?, ◌≡◌,
  ◌≢◌, ◌⊎◌, refl, arith,
}
use so.Userprog.BitMap
use so.Userprog.BitMap.{BitMap}
use so.Machine.Memory.{Machine}
use so.Filesys.FileSystem.{OpenFile}
use so.Filesys.OpenFile.{seek}
use so.Userprog.AddrSpace.{AddrSpace, NoffHeader}
use so.Userprog.Exception.{Process, assign_id, file_of, sys_close, sys_read}
use so.Userprog.Exception.Descriptors.{closing, assign_id_lem}
use so.Userprog.Exception.Files.{sys_read_keeps_memory}
use so.Tests.Files.{two_sectors, two_sectors-IsStored, contents, zeros}

-- 128 frames, of which 0, 2 and 32 are taken.
abbrev pub frame_map : BitMap
frame_map = record { num_bits = 128; num_words = 4; map = 5 ∷ 1 ∷ 0 ∷ 0 ∷ [] }

pub frame_map_left : BitMap.num_clear frame_map ≡ some 125
unfolding BitMap.num_clear BitMap.num_clear_from BitMap.test
frame_map_left = refl

abbrev program : NoffHeader
program = record {
  noff_magic = 12246957;
  code = record { virtual_addr = 0; in_file_addr = 40; size = 100 };
  init_data = record { virtual_addr = 128; in_file_addr = 140; size = 50 };
  uninit_data = record { virtual_addr = 256; in_file_addr = 0; size = 0 };
}

abbrev at_middle : OpenFile
at_middle = record { hdr = two_sectors; seek_position = 100 }

abbrev closed : ℕ → List (Option OpenFile)
closed zero = []
closed (suc n) = none ∷ closed n

abbrev descriptors : List (Option OpenFile)
descriptors = none ∷ none ∷ none ∷ some at_middle ∷ closed 96

abbrev pub user_machine : Machine
user_machine = record {
  main_memory = λ a. 0;
  registers = λ r. if r == 6 then 3 else (if r == 5 then 60 else 0);
  tlb = none;
  page_table = none;
  page_table_size = 0;
}

-- The process reads 60 bytes of descriptor 3.
abbrev pub reader : Process
reader = record {
  machine = user_machine;
  descriptors = descriptors;
  file_system = record {
    free_map = frame_map;
    dir = record { table_size = 0; table = [] };
    header = λ s. two_sectors;
  };
  sectors = contents;
  input = [];
  output = [];
}

assign_id_lem_example :
    ((assign_id descriptors at_middle ≡ none)
      × ((j : ℕ) → 3 ≤ j → j < 100 → (g : OpenFile) × (get_elem? descriptors j ≡ some (some g))))
    ⊎ ((i : ℕ) × (ds' : List (Option OpenFile)) × (assign_id descriptors at_middle ≡ some (i, ds'))
        × (get_elem? descriptors i ≡ some none)
        × (file_of ds' i ≡ some at_middle)
        × ((j : ℕ) → i ≢ j → get_elem? ds' j ≡ get_elem? descriptors j)
        × (p' : Process) × (sys_close (closing reader ds' i) ≡ some p')
        × ((j : ℕ) → get_elem? p'.descriptors j ≡ get_elem? descriptors j))
assign_id_lem_example = assign_id_lem descriptors at_middle reader refl

third_is_open : file_of reader.descriptors 3 ≡ some at_middle
unfolding file_of
third_is_open = refl

sys_read_keeps_memory_example :
    (p' : Process) × (sys_read zeros reader ≡ some p')
    × (p'.machine.registers 2 ≡ 60)
    × (get_elem? p'.descriptors 3 ≡ some (some (seek at_middle 160)))
    × ((a : ℕ) → p'.machine.main_memory a ≡ 0)
sys_read_keeps_memory_example =
    sys_read_keeps_memory zeros reader at_middle third_is_open two_sectors-IsStored (omega arith)
