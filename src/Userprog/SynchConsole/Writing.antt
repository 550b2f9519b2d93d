-- ===== src/Userprog/SynchConsole/Writing.antt =====
-- What `writeConsole` of userprog/SynchConsole.cc shows.
use so.Prelude.{
  ℕ, ◌+◌, ◌==◌, true, false, List, [], ◌∷◌, ◌++◌, Option, none, some, ◌≡◌, ◌⊎◌, refl, arith, ◌∙◌,
  sym, ap, inl, inr, subst,
}
use so.Machine.Interrupt.{Kernel, schedule, console_write_int}
use so.Threads.KeyedList.{sorted_insert}
use so.Machine.Console.{Console, console, put_char, write_done}
use so.Threads.Synch.{Store, semaphore, p_round, v_take}
use so.Threads.Synch.Exclusion.{inside}
use so.Threads.Monitor
use so.Threads.Monitor.{Monitor, open_with}
use so.Threads.Monitor.Guarded.{Keeps, Reach-IsOrderly, at_place}
use so.Userprog.SynchConsole.{
  SynchConsole, ConsoleSemaphores, synch_console, WriterPlace, shown, writer_step, show_char,
  WriterBody, WriterInterrupt, call_console, request_write,
}

abbrev Shows : SynchConsole → Type 0
Shows d = (d.consola.write_handler ≡ 1) × (d.consola.display ≡ d.given)

-- A character is under way, or its interrupt has posted the semaphore.
abbrev Pending : SynchConsole → Type 0
Pending d =
    ((d.consola.put_busy ≡ true) × (d.kernel.rest.cwrite.value ≡ 0))
    ⊎ ((d.consola.put_busy ≡ false) × (d.kernel.rest.cwrite.value ≡ 1))

abbrev AtPlace : Option WriterPlace → SynchConsole → Type 0
AtPlace none d = (d.consola.put_busy ≡ false) × (d.kernel.rest.cwrite.value ≡ 0) × Shows d
AtPlace (some shown) d = Pending d × Shows d

abbrev AtPlaceOr : Option WriterPlace → Option SynchConsole → Type 0
AtPlaceOr o none = Unit
AtPlaceOr o (some d) = AtPlace o d

-- A character is accepted by a thread that has got the lock.
show_char_lem :
    (done device ch : ℕ) (d : SynchConsole)
    → AtPlace none d
    → (d' : SynchConsole) × (show_char done device ch d ≡ some d') × AtPlace (some shown) d'
unfolding show_char put_char schedule
show_char_lem done device ch d (free, empty, (handler, order)) = (
  record d {
    consola = record d.consola { put_busy = true; display = d.consola.display ++ (ch ∷ []) };
    kernel = record d.kernel {
      pending =
          sorted_insert d.kernel.pending
            (record {
              handler = done;
              arg = device;
              when = d.kernel.stats.total_ticks + 100;
              kind = console_write_int;
            })
            (d.kernel.stats.total_ticks + 100);
    };
    given = d.given ++ (ch ∷ []);
  },
  rw free refl,
  (inl (refl, empty), (handler, ap (λ l. l ++ (ch ∷ [])) order)),
)

step-AtPlace :
    (t : ℕ) (d : SynchConsole)
    → AtPlace (some shown) d
    → AtPlace ((writer_step t d).0) ((writer_step t d).1)
unfolding writer_step p_round
step-AtPlace t d (inl (busy, z), h) =
    let test : (d.kernel.rest.cwrite.value == 0) ≡ true = ground arith in rw test (inl (busy, z), h)
step-AtPlace t d (inr (free, z), h) =
    let test : (d.kernel.rest.cwrite.value == 0) ≡ false = ground arith in
    rw test (free, omega arith, h)

interrupt_lem :
    (d : SynchConsole) (c : Console) (k : Kernel ConsoleSemaphores)
    → d.consola.write_handler ≡ 1
    → write_done call_console d.consola d.kernel ≡ some (c, k)
    → (c.put_busy ≡ false)
      × (c.write_handler ≡ 1)
      × (c.display ≡ d.consola.display)
      × (k.rest.cwrite.value ≡ d.kernel.rest.cwrite.value + 1)
unfolding write_done call_console request_write v_take
interrupt_lem d c k handler e = let e₂ = rw handler at e in (cc, cc, cc, ground arith)

interrupt-AtPlace :
    (o : Option WriterPlace) (d d' : SynchConsole)
    → WriterInterrupt d d'
    → AtPlace o d
    → AtPlace o d'
unfolding WriterInterrupt
interrupt-AtPlace none d d' (inl (busy, c, k, e, same)) (free, z, h) =
    absurd (let y = sym busy ∙ free in cc)
interrupt-AtPlace (some shown) d d' (inl (busy, c, k, e, same)) (inr (free, z), h) =
    absurd (let y = sym busy ∙ free in cc)
interrupt-AtPlace (some shown) d d' (inl (busy, c, k, e, same)) (inl (_, z), (handler, order)) =
    let (a, b, display, value) = interrupt_lem d c k handler e in
    rw same (inr (a, value ∙ rw z refl), (b, display ∙ order))
interrupt-AtPlace none d d' (inr l) (free, z, (handler, order)) = (
  l.same_busy ∙ free,
  ap (λ s. s.value) l.same_cwrite ∙ z,
  (l.same_handler ∙ handler, l.same_display ∙ order ∙ sym l.same_given),
)
interrupt-AtPlace (some shown) d d' (inr l) (p, (handler, order)) = (
  rw (l.same_busy, l.same_cwrite) p,
  (l.same_handler ∙ handler, l.same_display ∙ order ∙ sym l.same_given),
)

writer_keeps : (done device : ℕ) → Keeps (WriterBody done device) WriterInterrupt AtPlace
unfolding WriterBody
writer_keeps done device = record { by_body = kept_by; by_interrupt = interrupt-AtPlace }
  where
    kept_by :
        (t : ℕ) (o o' : Option WriterPlace) (d d' : SynchConsole)
        → WriterBody done device t o d o' d'
        → AtPlace o d
        → AtPlace o' d'
    kept_by t none o' d d' (ch, e, a) h =
        let (d₁, e₁, h₁) = show_char_lem done device ch d h in
        rw a (subst (AtPlaceOr (some shown)) (sym e₁ ∙ e) h₁)
    kept_by t (some shown) o' d d' (a, b) h = rw (a, b) (step-AtPlace t d h)

new-AtPlace :
    (poll device this : ℕ) (typed : List ℕ) (k : Kernel ConsoleSemaphores) (d : SynchConsole)
    → synch_console poll device this typed k ≡ some d
    → AtPlace none d
unfolding synch_console console schedule semaphore
new-AtPlace poll device this typed k d made = subst (AtPlaceOr none) made (refl, refl, (refl, refl))

shows_of : (o : Option WriterPlace) (d : SynchConsole) → AtPlace o d → d.consola.display ≡ d.given
shows_of none d h = h.2.1
shows_of (some shown) d h = h.1.1

-- Threads share a new console by `writeConsole`, in any order of their steps, of the interrupts, and of what leaves
-- the writers' part of the console alone. The display shows the characters that the calls were given, each once
-- and in the order in which they got the lock; and the ASSERT of `PutChar` never fails: whenever a thread has
-- got the lock, the console takes its character.
pub write_console_in_order :
    (fuel poll done device this : ℕ) (typed : List ℕ) (k : Kernel ConsoleSemaphores)
    (d : SynchConsole) (st : Store) (m : Monitor SynchConsole WriterPlace)
    → synch_console poll device this typed k ≡ some d
    → Monitor.Reach (WriterBody done device) WriterInterrupt fuel (open_with st d) m
    → (m.guarded.consola.display ≡ m.guarded.given)
      × ((t ch : ℕ)
          → m.system.phase t ≡ inside
          → m.place t ≡ none
          → (d' : SynchConsole) × (show_char done device ch m.guarded ≡ some d'))
write_console_in_order fuel poll done device this typed k d st m made r =
    let keeps = writer_keeps done device in
    let first = new-AtPlace poll device this typed k d made in
    let i =
      Reach-IsOrderly (WriterBody done device) WriterInterrupt fuel st d AtPlace m keeps first r in
    (
      shows_of i.place m.guarded i.kept,
      λ t ch at e.
          let h =
            at_place (WriterBody done device) WriterInterrupt fuel st d AtPlace m t keeps first r
              at in
          let (d', accepted, _) =
            show_char_lem done device ch m.guarded (subst (λ o. AtPlace o m.guarded) e h) in
          (d', accepted),
    )
