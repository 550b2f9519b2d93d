-- ===== src/Userprog/Exception.antt =====
-- userprog/exception.cc: the program counter and the system calls on files. A register is a number below 2 ^ 32. `none`
-- is an ASSERT that fails, a pointer or an index that leads nowhere, or a wait for input that does not come.
pub mod Descriptors
pub mod Files
use so.Prelude.{
  ℕ, zero, suc, ◌+◌, ◌-◌, ◌^◌, ltb, leb, ◌==◌, if◌then◌else◌, ◌&&◌, Bool, true, false, not, List,
  [], ◌∷◌, ◌++◌, ℤ, pos, negsuc, Option, none, some, ◌>>=◌, ◌>>◌, assert, get_elem?, set, length,
}
use so.Machine.Memory.{Machine, set_register, pc_reg, next_pc_reg, prev_pc_reg}
use so.Machine.Mips.Alu.{sum32}
use so.Filesys.FileHeader.{FileHeader}
use so.Filesys.FileSystem
use so.Filesys.FileSystem.{FileSystem, OpenFile}
use so.Filesys.OpenFile
use so.Filesys.OpenFile.{Bytes, Sectors}
use so.Userprog.User.{read_str_from_usr, read_buff_from_usr, write_buff_to_usr}

-- What the system calls on files work on: `descriptors` is `currentThread->descriptores`, `input` is what will be
-- typed at the console, and `output` what was shown.
pub record Process : Type 0 where
  pub machine : Machine
  pub descriptors : List (Option OpenFile)
  pub file_system : FileSystem
  pub sectors : Sectors
  pub input : List ℕ
  pub output : List ℕ

-- `MAX_OPEN_FILES` of threads/thread.h.
abbrev pub max_open_files : ℕ
max_open_files = 100

abbrev pub put_result : Process → ℕ → Process
put_result p v = record p { machine = set_register p.machine 2 v }

abbrev pub to_int : ℕ → ℤ
to_int w = if ltb w 2147483648 then pos w else negsuc (4294967295 - w)

-- How many rounds a loop `for (i = 0; i < n; i++)` makes.
abbrev pub rounds : ℕ → ℕ
rounds w = if ltb w 2147483648 then w else 0

unfoldable pub increase_program_counter : Machine → Machine
increase_program_counter m =
    let m₁ = set_register m prev_pc_reg (m.registers pc_reg) in
    let pc = m₁.registers next_pc_reg in
    set_register (set_register m₁ pc_reg pc) next_pc_reg (sum32 pc 4)

-- The loop of `AssignId`, and that of `SC_Exec` over the processes, from index `i` on. An index past the array is a
-- fault.
unfoldable pub free_id_from : {A : Type 0} → List (Option A) → ℕ → Option ℕ
free_id_from [] i = none
free_id_from (none ∷ ds) i = some i
free_id_from (some f ∷ ds) i = free_id_from ds (suc i)

abbrev pub drop_reserved : List (Option OpenFile) → List (Option OpenFile)
drop_reserved (a ∷ b ∷ c ∷ ds) = ds
drop_reserved ds = []

unfoldable pub assign_id : List (Option OpenFile) → OpenFile → Option (ℕ × List (Option OpenFile))
assign_id ds file = do i ← free_id_from (drop_reserved ds) 3; some (i, set ds i (some file))

-- `SC_Create`; `h` is what the memory of the new header holds.
unfoldable pub sys_create : FileHeader → Process → Option Process
sys_create h p = do
  (name, m) ← read_str_from_usr 64 p.machine (p.machine.registers 4)
  (made, fs) ← FileSystem.create h p.file_system name 1024
  some (put_result (record p { machine = m; file_system = fs }) 0)

-- `SC_Open`; `id` is what the memory holds where no file is found.
unfoldable pub sys_open : ℕ → Process → Option Process
sys_open id p = do
  (name, m) ← read_str_from_usr 64 p.machine (p.machine.registers 4)
  file ← FileSystem.open_file p.file_system name
  elim file [
    | none ↦ some (put_result (record p { machine = m }) id)
    | some f ↦ (do
      (i, ds) ← assign_id p.descriptors f
      some (put_result (record p { machine = m; descriptors = ds }) i))
  ]

-- `SC_Close`.
unfoldable pub sys_close : Process → Option Process
sys_close p =
    let id = p.machine.registers 4 in
    do
      file ← get_elem? p.descriptors id
      some (
          put_result
            (elim file [ none ↦ p | some f ↦ record p { descriptors = set p.descriptors id none } ])
            0)

-- The file of a descriptor, as `SC_Read` and `SC_Write` look it up.
unfoldable pub file_of : List (Option OpenFile) → ℕ → Option OpenFile
file_of ds id = do assert (leb 3 id && leb id max_open_files); file ← get_elem? ds id; file

-- The loop of `SC_Read` at the console: the bytes before a newline, at most `n`, and the input that is left.
unfoldable pub read_console : List ℕ → ℕ → Option (List ℕ × List ℕ)
read_console input zero = some ([], input)
read_console [] (suc n) = none
read_console (c ∷ input) (suc n) =
    let rest = (do (s, input') ← read_console input n; some (c ∷ s, input')) in
    if c == 10 then some ([], input) else rest

-- `SC_Read`: `g` is what the kernel's buffer and the buffer of `ReadAt` hold.
unfoldable pub sys_read : Bytes → Process → Option Process
sys_read g p =
    let id = p.machine.registers 6 in
    let lon = p.machine.registers 5 in
    let from_file = (do
      f ← file_of p.descriptors id
      (bytes, buffer, f') ← OpenFile.read g p.sectors f g (to_int lon)
      some (put_result (record p { descriptors = set p.descriptors id (some f') }) bytes)) in
    if id == 0
    then (do
      (s, input) ← read_console p.input (rounds lon)
      m ← write_buff_to_usr p.machine (p.machine.registers 4) s
      some (put_result (record p { machine = m; input = input }) (length s)))
    else from_file

abbrev pub bytes_of : Bytes → List ℕ → Bytes
bytes_of g [] j = g j
bytes_of g (c ∷ s) j = if j == 0 then c else bytes_of (λ i. g (i + 1)) s (j - 1)

-- `SC_Write`.
unfoldable pub sys_write : Bytes → Process → Option Process
sys_write g p =
    let id = p.machine.registers 6 in
    let lon = p.machine.registers 5 in
    do
      (s, m) ← read_buff_from_usr p.machine (p.machine.registers 4) (rounds lon)
      let p' = record p { machine = m }
      let to_file = (do
        f ← file_of p.descriptors id
        (bytes, d, f') ← OpenFile.write g p.sectors f (bytes_of g s) (to_int lon)
        some (
            put_result (record p' { sectors = d; descriptors = set p.descriptors id (some f') })
              bytes))
      if id == 1
          then some (put_result (record p' { output = p.output ++ s }) (length s))
          else to_file
