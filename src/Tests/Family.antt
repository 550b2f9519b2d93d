-- ===== src/Tests/Family.antt =====
-- Processes that are started, waited for, and ended.
use so.Prelude.{
  ℕ, zero, suc, ◌≤◌, ◌<◌, ◌==◌, if◌then◌else◌, Bool, true, false, List, [], ◌∷◌, pos, Option, none,
  some, get_elem?, ◌≡◌, ◌⊎◌, refl, arith,
}
use so.Filesys.FileHeader.{byte_to_sector, file_length}
use so.Filesys.OpenFile.{Bytes, Sectors, read_at, read_inside, read_sectors, read_sector}
use so.Threads.KeyedList
use so.Userprog.BitMap
use so.Userprog.AddrSpace.{NoffHeader, noff_header, pages_of, clean_my_bitmap, clean_pages}
use so.Userprog.AddrSpace.Loadable.{IsLoadable}
use so.Userprog.Processes.{
  Processes, Fresh, set_entry, exec_open, leave, leave_space, delete_space, finish_process,
  sys_join, sys_halt,
}
use so.Userprog.Processes.Exec.{entered, IsStarted, IsStill, exec_open_lem}
use so.Userprog.Processes.Exit.{join-leave, sys_halt-entry}
use so.Tests.Files.{two_sectors, two_sectors-IsStored, zeros}
use so.Tests.Programs.{frame_map, frame_map_left, user_machine, reader}
use so.Tests.Turns.{three, block}

-- The header of an executable with 100 bytes of code and 50 of data.
abbrev executable : Sectors
executable s o =
    if s == 5
    then (if o == 0
        then 173
        else (if o == 1
            then 223
            else (if o == 2
                then 186
                else (if o == 8
                    then 40
                    else (if o == 12
                        then 100
                        else (if o == 16
                            then 128
                            else (if o == 20
                                then 140
                                else (if o == 24 then 50 else (if o == 29 then 1 else 0)))))))))
    else 0

abbrev bytes_read : Option (ℕ × Bytes) → Bytes
bytes_read none = zeros
bytes_read (some r) = r.1

abbrev header_bytes : Bytes
header_bytes = bytes_read (read_at zeros executable two_sectors zeros 0 (pos 40) 0)

-- What the first 40 bytes say.
abbrev first_header : NoffHeader
first_header = record {
  noff_magic = 12246957;
  code = record { virtual_addr = 0; in_file_addr = 40; size = 100 };
  init_data = record { virtual_addr = 128; in_file_addr = 140; size = 50 };
  uninit_data = record { virtual_addr = 256; in_file_addr = 0; size = 0 };
}

header_read : read_at zeros executable two_sectors zeros 0 (pos 40) 0 ≡ some (40, header_bytes)
unfolding read_at read_inside read_sectors read_sector byte_to_sector file_length
header_read = refl

header_lem : noff_header header_bytes ≡ first_header
unfolding noff_header read_at read_inside read_sectors read_sector byte_to_sector file_length
header_lem = refl

pages : pages_of (noff_header header_bytes) ≡ 10
unfolding pages_of noff_header read_at read_inside read_sectors read_sector byte_to_sector
    file_length
pages = refl

executable-IsLoadable : IsLoadable zeros executable two_sectors frame_map
unfolding noff_header read_at read_inside read_sectors read_sector byte_to_sector file_length
executable-IsLoadable = record {
  count = 40;
  bytes = header_bytes;
  read = header_read;
  free = 125;
  valid = record { words = refl; stored = refl };
  left = frame_map_left;
  enough = omega (arith, pages);
  fits = omega (arith, pages);
  magic = refl;
  stored = two_sectors-IsStored;
  code_fits = omega (arith, pages);
  data_fits = omega (arith, pages);
  places = omega arith;
}

abbrev no_entries : ℕ → List (Option ℕ)
no_entries zero = []
no_entries (suc n) = none ∷ no_entries n

-- Thread 4 runs, and can be joined; no process is in the table.
abbrev parent : Processes
parent = record {
  machine = user_machine;
  file_system = reader.file_system;
  sectors = executable;
  my_bitmap = frame_map;
  cpu = record three { block = λ u. record block { join = true } };
  live = λ t. true;
  pid = λ t. 0;
  space = λ t. some (record { page_table = []; num_pages = 0 });
  port_join = λ t. record { access = true; buffer = 0 };
  table = no_entries 100;
  cant_processes = 1;
}

abbrev new_thread : Fresh
new_thread = record {
  address = 11;
  registers = λ i. 0;
  buffer = 0;
  bytes = zeros;
  one_tick = λ c. some c;
}

nothing_touched : IsStill (λ c. some c)
unfolding IsStill
nothing_touched c = refl

exec_open_lem_example :
    ((exec_open new_thread two_sectors parent ≡ none)
      × ((j : ℕ) → 1 ≤ j → j < 100 → (t : ℕ) × (get_elem? (entered parent) j ≡ some (some t))))
    ⊎ ((pid : ℕ) × (p' : Processes) × (1 ≤ pid)
        × (pid < 100)
        × (exec_open new_thread two_sectors parent ≡ some p')
        × IsStarted new_thread parent pid p')
exec_open_lem_example =
    exec_open_lem new_thread two_sectors parent refl (omega arith) nothing_touched refl
      executable-IsLoadable

abbrev result : Processes → Option Processes → Processes
result p none = p
result p (some q) = q

abbrev with_child : Processes
with_child = result parent (exec_open new_thread two_sectors parent)

-- The child has the CPU.
abbrev child : Processes
child = record with_child { cpu = record with_child.cpu { current = 11 }; cant_processes = 2 }

-- The parent leaves, and someone joins it.
abbrev after_parent : Processes
after_parent = result parent (leave parent)

parent_left : leave parent ≡ some after_parent
unfolding leave leave_space delete_space clean_my_bitmap clean_pages set_entry
parent_left = refl

join-leave_example :
    sys_join (record after_parent { machine = record after_parent.machine { registers = λ r. 0 } })
    ≡ none
join-leave_example =
    join-leave parent after_parent
      (record after_parent { machine = record after_parent.machine { registers = λ r. 0 } })
      (record { page_table = []; num_pages = 0 }) refl parent_left refl refl

abbrev with_entry : Processes
with_entry = record parent { table = none ∷ some 4 ∷ [] }

sys_halt-entry_example : sys_halt with_entry ≡ none
sys_halt-entry_example = sys_halt-entry with_entry 1 4 refl

abbrev finished : Option (Bool × Processes) → Bool × Processes
finished none = (false, parent)
finished (some r) = r

abbrev after_finish : Processes
after_finish = (finished (finish_process parent)).1

-- `Run` has not deleted the parent when someone joins it.
abbrev joining : Processes
joining = record parent { port_join = after_finish.port_join; live = after_finish.live }
