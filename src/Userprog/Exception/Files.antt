-- ===== src/Userprog/Exception/Files.antt =====
-- `SC_Read` and `SC_Write` of an open file in userprog/exception.cc.
use so.Prelude.{
  ℕ, zero, suc, ◌+◌, ◌≤◌, ◌<◌, ◌==◌, false, List, [], ◌∷◌, Option, some, get_elem?, set, length,
  get_elem?-set_self, pos, ◌≡◌, refl, arith,
}
use so.Machine.Memory.{set_register}
use so.Filesys.FileSystem.{OpenFile}
use so.Filesys.OpenFile
use so.Filesys.OpenFile.{Bytes, int_limit, seek}
use so.Filesys.OpenFile.Contents.{IsStored}
use so.Filesys.OpenFile.Reading.{moved, read_at_lem}
use so.Userprog.Exception.{Process, file_of, to_int, sys_read}

open_entry :
    (ds : List (Option OpenFile)) (id : ℕ) (f : OpenFile)
    → file_of ds id ≡ some f
    → (get_elem? ds id ≡ some (some f)) × (3 ≤ id)
unfolding file_of
open_entry ds id f e = (ground arith, ground arith)

in_table :
    (ds : List (Option OpenFile)) (id : ℕ) (f : OpenFile)
    → get_elem? ds id ≡ some (some f)
    → id < length ds
in_table [] id f e = cc
in_table (d ∷ ds) zero f e = omega arith
in_table (d ∷ ds) (suc id) f e = let lt = in_table ds id f e in omega arith

-- `SC_Read` of an open file whose sectors hold it, for a number of bytes that is not negative and has
-- an `int` as sum with the seek position: the program gets in
-- register 2 how many bytes of the file lie after the seek position, at most the number it asked for, and the
-- seek position of its file moves on by as many. But no byte of its memory changes: what was read stays in a
-- buffer of the kernel.
pub sys_read_keeps_memory :
    (g : Bytes) (p : Process) (f : OpenFile)
    → file_of p.descriptors (p.machine.registers 6) ≡ some f
    → IsStored f.hdr
    → f.seek_position + p.machine.registers 5 < int_limit
    → (p' : Process) × (sys_read g p ≡ some p')
      × (p'.machine.registers 2 ≡ moved f.hdr (p.machine.registers 5) f.seek_position)
      × (get_elem? p'.descriptors (p.machine.registers 6)
          ≡ some (
              some
                (seek f (f.seek_position + moved f.hdr (p.machine.registers 5) f.seek_position))))
      × ((a : ℕ) → p'.machine.main_memory a ≡ p.machine.main_memory a)
unfolding sys_read OpenFile.read
sys_read_keeps_memory g p f e st small =
    let (at, lo) = open_entry p.descriptors (p.machine.registers 6) f e in
    let (into, r, _) =
      read_at_lem g p.sectors f.hdr g 0 (p.machine.registers 5) f.seek_position st small in
    let file : (p.machine.registers 6 == 0) ≡ false = ground arith in
    let size : to_int (p.machine.registers 5) ≡ pos (p.machine.registers 5) = ground arith in
    let n = moved f.hdr (p.machine.registers 5) f.seek_position in
    (
      record p {
        machine = set_register p.machine 2 n;
        descriptors =
            set p.descriptors (p.machine.registers 6) (some (seek f (f.seek_position + n)));
      },
      rw (file, e, size, r) refl,
      refl,
      get_elem?-set_self p.descriptors (p.machine.registers 6) (some (seek f (f.seek_position + n)))
          (in_table p.descriptors (p.machine.registers 6) f at),
      λ a. refl,
    )
