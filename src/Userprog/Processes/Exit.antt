-- ===== src/Userprog/Processes/Exit.antt =====
-- SC_Exit, SC_Join and SC_Halt of userprog/exception.cc: what a process leaves in the table.
use so.Prelude.{
  ℕ, zero, suc, false, List, [], ◌∷◌, Option, none, some, get_elem?, set, get_elem?-set_self,
  get_elem?-lt, ◌≡◌, refl, arith, ◌∙◌, sym, ap, inl, inr, Option-cases,
}
use so.Filesys.FileHeader.{FileHeader}
use so.Threads.Thread.{delete_thread, put_block}
use so.Userprog.BitMap.{BitMap}
use so.Userprog.AddrSpace.{AddrSpace, clean_my_bitmap}
use so.Userprog.Processes.{
  Processes, at, set_entry, delete_space, leave, leave_space, sys_join, delete_live, delete_rounds,
  halt_entry, halt_table, sys_halt,
}

abbrev left : Processes → BitMap → Processes
left q m' = record q {
  my_bitmap = m';
  space = at q.space q.cpu.current none;
  cpu = put_block q.cpu q.cpu.current (record (q.cpu.block q.cpu.current) { has_space = false });
  table = set q.table (q.pid q.cpu.current) none;
}

entry_gone :
    (q q' : Processes) (s : AddrSpace)
    → q.space q.cpu.current ≡ some s
    → leave q ≡ some q'
    → get_elem? q'.table (q.pid q.cpu.current) ≡ some none
unfolding leave leave_space delete_space set_entry
entry_gone q q' s its e =
    let e' : leave_space (some s) q ≡ some q' = ap (λ o. leave_space o q) (sym its) ∙ e in
    elim (Option-cases (clean_my_bitmap s q.my_bitmap)) [
      | inl z ↦ absurd (let e₂ = rw z at e' in cc)
      | inr (m', z) ↦ elim (Option-cases (get_elem? q.table (q.pid q.cpu.current))) [
        | inl w ↦ absurd (let e₂ = rw (z, w) at e' in cc)
        | inr (x, w) ↦
            let e₂ = rw (z, w) at e' in
            let same : q' ≡ left q m' = cc in
            rw same (
              get_elem?-set_self q.table (q.pid q.cpu.current) none
                (get_elem?-lt q.table (q.pid q.cpu.current) x w))
      ]
    ]

-- `SC_Join` comes too late once a process with an address space has left by `SC_Exit`: its entry is NULL then, and as
-- long as the table stays so, `SC_Join` with its number reads a member of NULL.
pub join-leave :
    (q q' r : Processes) (s : AddrSpace)
    → q.space q.cpu.current ≡ some s
    → leave q ≡ some q'
    → r.table ≡ q'.table
    → r.machine.registers 4 ≡ q.pid q.cpu.current
    → sys_join r ≡ none
unfolding sys_join
join-leave q q' r s its e table number =
    let there = entry_gone q q' s its e in rw (number, table, there) refl

deleted : (t : ℕ) (p p' : Processes) → delete_live t p ≡ some p' → delete_live t p' ≡ none
unfolding delete_live delete_thread
deleted t p p' e = ground arith

delete_twice : (n t : ℕ) (p : Processes) → delete_rounds (suc (suc n)) (some t) p ≡ none
unfolding delete_rounds
delete_twice n t p = elim (Option-cases (delete_live t p)) [
  | inl e ↦ rw e refl
  | inr (p', e) ↦ rw (e, deleted t p p' e) refl
]

delete_nothing : (n : ℕ) (p : Processes) → delete_rounds n none p ≡ some p
unfolding delete_rounds
delete_nothing zero p = refl
delete_nothing (suc n) p = delete_nothing n p

halt_entry-none : (p : Processes) → halt_entry none p ≡ some p
unfolding halt_entry
halt_entry-none p = rw (delete_nothing 100 p) refl

halt_entry-some : (t : ℕ) (p : Processes) → halt_entry (some t) p ≡ none
unfolding halt_entry
halt_entry-some t p = rw (delete_twice 98 t p) refl

halt_table_lem :
    (es : List (Option ℕ)) (i t : ℕ) (p : Processes)
    → get_elem? es i ≡ some (some t)
    → halt_table es p ≡ none
unfolding halt_table
halt_table_lem [] i t p e = absurd (cc)
halt_table_lem (none ∷ es) zero t p e = absurd (cc)
halt_table_lem (none ∷ es) (suc i) t p e = rw (halt_entry-none p) (halt_table_lem es i t p e)
halt_table_lem (some u ∷ es) i t p e = rw (halt_entry-some u p) refl

-- `SC_Halt` does not halt while any process is in the table: it deletes the thread of an entry again and again.
pub sys_halt-entry :
    (p : Processes) (i t : ℕ) → get_elem? p.table i ≡ some (some t) → sys_halt p ≡ none
unfolding sys_halt
sys_halt-entry p i t e = rw (halt_table_lem p.table i t p e) refl
