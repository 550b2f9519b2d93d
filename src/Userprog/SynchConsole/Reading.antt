-- ===== src/Userprog/SynchConsole/Reading.antt =====
-- What `readConsole` of userprog/SynchConsole.cc returns.
use so.Prelude.{
  ℕ, ◌+◌, ◌==◌, if◌then◌else◌, true, false, List, [], ◌∷◌, ◌++◌, Option, none, some, ◌≡◌, ◌≢◌, ◌⊎◌,
  refl, arith, ◌∙◌, sym, ap, inl, inr, subst, append_assoc, Bool-cases, List-cases,
}
use so.Machine.Interrupt.{Kernel, schedule}
use so.Machine.Console.{Console, console, get_char, check_char_avail, poll_file}
use so.Threads.Synch.{Store, semaphore, p_round, v_take}
use so.Threads.Monitor
use so.Threads.Monitor.{Monitor, open_with}
use so.Threads.Monitor.Guarded.{Keeps, Reach-IsOrderly}
use so.Userprog.SynchConsole.{
  SynchConsole, ConsoleSemaphores, ReaderPlace, waiting, getting, reader_step, ReaderBody,
  ReaderInterrupt, type_char, synch_console, call_console, request_read,
}

-- No byte is the one that EOF looks like.
abbrev pub NoEof : List ℕ → Type 0
NoEof [] = Unit
NoEof (ch ∷ l) = (ch ≢ 255) × NoEof l

NoEof-left : (l r : List ℕ) → NoEof (l ++ r) → NoEof l
NoEof-left [] r h = tt
NoEof-left (ch ∷ l) r h = (h.0, NoEof-left l r h.1)

NoEof-right : (l r : List ℕ) → NoEof (l ++ r) → NoEof r
NoEof-right [] r h = h
NoEof-right (ch ∷ l) r h = NoEof-right l r h.1

-- The character in the console, if there is one.
abbrev pub held : ℕ → List ℕ
held ch = if ch == 255 then [] else (ch ∷ [])

abbrev InOrder : SynchConsole → Type 0
InOrder d = d.all_typed ≡ d.returned ++ (held d.consola.incoming ++ d.consola.typed)

abbrev Posted : Option ReaderPlace → SynchConsole → Type 0
Posted (some getting) d = ((d.consola.incoming == 255) ≡ false) × (d.kernel.rest.cread.value ≡ 0)
Posted (some waiting) d = d.kernel.rest.cread.value ≡ (if d.consola.incoming == 255 then 0 else 1)
Posted none d = d.kernel.rest.cread.value ≡ (if d.consola.incoming == 255 then 0 else 1)

abbrev AtPlace : Option ReaderPlace → SynchConsole → Type 0
AtPlace o d = NoEof d.all_typed → (d.consola.read_handler ≡ 0) × InOrder d × Posted o d

held-some : (ch : ℕ) → (ch == 255) ≡ false → held ch ≡ ch ∷ []
held-some ch e = rw e refl

step-AtPlace :
    (t : ℕ) (l : ReaderPlace) (d : SynchConsole)
    → AtPlace (some l) d
    → AtPlace ((reader_step t l d).0) ((reader_step t l d).1)
unfolding reader_step p_round get_char
step-AtPlace t waiting d h clean =
    let (handler, order, posted) = h clean in
    elim (Bool-cases (d.kernel.rest.cread.value == 0)) [
      | inl e ↦ rw e (handler, order, posted)
      | inr e ↦ rw e (handler, order, (ground arith, ground arith))
    ]
step-AtPlace t getting d h clean =
    let (handler, order, (there, empty)) = h clean in
    (
      handler,
      order
          ∙ ap (λ l. d.returned ++ (l ++ d.consola.typed)) (held-some d.consola.incoming there)
          ∙ sym (append_assoc d.returned (d.consola.incoming ∷ []) d.consola.typed),
      empty,
    )

-- What a poll does: nothing that readers see, or it takes a character and posts the semaphore.
record Takes (d : SynchConsole) (c : Console) (k : Kernel ConsoleSemaphores) : Type 0 where
  ch : ℕ
  rest : List ℕ
  was_empty : (d.consola.incoming == 255) ≡ true
  first : d.consola.typed ≡ ch ∷ rest
  same_handler : c.read_handler ≡ d.consola.read_handler
  has : (c.incoming ≡ ch) × (c.typed ≡ rest)
  posts : k.rest.cread.value ≡ d.kernel.rest.cread.value + 1

polled :
    (poll device : ℕ) (d : SynchConsole) (c : Console) (k : Kernel ConsoleSemaphores)
    → d.consola.read_handler ≡ 0
    → check_char_avail call_console poll device d.consola d.kernel ≡ some (c, k)
    → ((c ≡ d.consola) × (k.rest ≡ d.kernel.rest)) ⊎ Takes d c k
unfolding check_char_avail schedule poll_file call_console request_read v_take
polled poll device d c k handler e = elim (Bool-cases (d.consola.incoming == 255)) [
  | inr busy ↦ let e₂ = rw busy at e in inl (cc, cc)
  | inl free ↦ elim (List-cases d.consola.typed) [
    | inl z ↦ let e₂ = rw (free, z) at e in inl (cc, cc)
    | inr (ch, rest, z) ↦
        let e₂ = rw (free, z, handler) at e in
        inr (record {
          ch = ch;
          rest = rest;
          was_empty = free;
          first = z;
          same_handler = cc;
          has = (cc, cc);
          posts = ground arith;
        })
  ]
]

clean_rest :
    (d : SynchConsole)
    → NoEof d.all_typed
    → InOrder d
    → (d.consola.incoming == 255) ≡ true
    → NoEof d.consola.typed
clean_rest d clean order empty =
    let order' : d.all_typed ≡ d.returned ++ ([] ++ d.consola.typed) =
      order
      ∙ ap (λ b. d.returned ++ ((if b then [] else (d.consola.incoming ∷ [])) ++ d.consola.typed))
          empty in
    NoEof-right d.returned d.consola.typed (subst NoEof order' clean)

posted_again :
    (o : Option ReaderPlace) (d : SynchConsole) (c : Console) (k : Kernel ConsoleSemaphores)
    → Posted o d
    → Takes d c k
    → (c.incoming == 255) ≡ false
    → Posted o (record d { consola = c; kernel = k })
posted_again none d c k posted t new =
    let was : d.kernel.rest.cread.value ≡ 0 = posted ∙ rw t.was_empty refl in
    t.posts ∙ rw (was, new) refl
posted_again (some waiting) d c k posted t new =
    let was : d.kernel.rest.cread.value ≡ 0 = posted ∙ rw t.was_empty refl in
    t.posts ∙ rw (was, new) refl
posted_again (some getting) d c k posted t new = absurd (let z = sym t.was_empty ∙ posted.0 in cc)

taken :
    (o : Option ReaderPlace) (d : SynchConsole) (c : Console) (k : Kernel ConsoleSemaphores)
    → NoEof d.all_typed
    → (d.consola.read_handler ≡ 0) × InOrder d × Posted o d
    → Takes d c k
    → (c.read_handler ≡ 0)
      × InOrder (record d { consola = c; kernel = k })
      × Posted o (record d { consola = c; kernel = k })
taken o d c k clean (handler, order, posted) t =
    let fresh : t.ch ≢ 255 = (subst NoEof t.first (clean_rest d clean order t.was_empty)).0 in
    let new : (t.ch == 255) ≡ false = ground arith in
    let before : held d.consola.incoming ++ d.consola.typed ≡ d.consola.typed =
      ap (λ b. (if b then [] else (d.consola.incoming ∷ [])) ++ d.consola.typed) t.was_empty in
    let now : held c.incoming ++ c.typed ≡ t.ch ∷ t.rest = rw (t.has.0, t.has.1, new) refl in
    (
      t.same_handler ∙ handler,
      order ∙ ap (λ l. d.returned ++ l) (before ∙ t.first ∙ sym now),
      posted_again o d c k posted t (rw t.has.0 new),
    )

posted_same :
    (o : Option ReaderPlace) (d d' : SynchConsole)
    → d'.consola.incoming ≡ d.consola.incoming
    → d'.kernel.rest.cread ≡ d.kernel.rest.cread
    → Posted o d
    → Posted o d'
posted_same none d d' a b h = rw (a, b) h
posted_same (some waiting) d d' a b h = rw (a, b) h
posted_same (some getting) d d' a b h = rw (a, b) h

interrupt-AtPlace :
    (poll device : ℕ) (o : Option ReaderPlace) (d d' : SynchConsole)
    → ReaderInterrupt poll device d d'
    → AtPlace o d
    → AtPlace o d'
unfolding ReaderInterrupt
interrupt-AtPlace poll device o d d' (inl (c, k, e, same)) h clean =
    let clean' : NoEof d.all_typed = subst NoEof (ap (λ x. x.all_typed) same) clean in
    let (handler, order, posted) = h clean' in
    elim (polled poll device d c k handler e) [
      | inl (a, b) ↦ rw same (
        ap (λ x. x.read_handler) a ∙ handler,
        rw a order,
        posted_same o d (record d { consola = c; kernel = k }) (ap (λ x. x.incoming) a)
            (ap (λ x. x.cread) b) posted,
      )
      | inr t ↦ rw same (taken o d c k clean' (handler, order, posted) t)
    ]
interrupt-AtPlace poll device o d d' (inr (inl (ch, same))) h clean =
    let clean' : NoEof d.all_typed =
      NoEof-left d.all_typed (ch ∷ []) (subst NoEof (ap (λ x. x.all_typed) same) clean) in
    let (handler, order, posted) = h clean' in
    rw same (
      handler,
      ap (λ l. l ++ (ch ∷ [])) order
          ∙ append_assoc d.returned (held d.consola.incoming ++ d.consola.typed) (ch ∷ [])
          ∙ ap (λ l. d.returned ++ l)
              (append_assoc (held d.consola.incoming) d.consola.typed (ch ∷ [])),
      posted_same o d (type_char ch d) refl refl posted,
    )
interrupt-AtPlace poll device o d d' (inr (inr l)) h clean =
    let (handler, order, posted) = h (subst NoEof l.same_all clean) in
    (
      l.same_handler ∙ handler,
      rw (l.same_all, l.same_returned, l.same_incoming, l.same_typed) order,
      posted_same o d d' l.same_incoming l.same_cread posted,
    )

abbrev AtStart : Option SynchConsole → Type 0
AtStart none = Unit
AtStart (some d) = AtPlace none d

new-AtPlace :
    (poll device this : ℕ) (typed : List ℕ) (k : Kernel ConsoleSemaphores) (d : SynchConsole)
    → synch_console poll device this typed k ≡ some d
    → AtPlace none d
unfolding synch_console console schedule semaphore
new-AtPlace poll device this typed k d made = subst AtStart made (λ clean. (refl, refl, refl))

in_order_of :
    (o : Option ReaderPlace) (d : SynchConsole) → AtPlace o d → NoEof d.all_typed → InOrder d
in_order_of o d h clean = (h clean).1

reader_keeps : (poll device : ℕ) → Keeps ReaderBody (ReaderInterrupt poll device) AtPlace
unfolding ReaderBody
reader_keeps poll device = record {
  by_body = kept_by;
  by_interrupt = interrupt-AtPlace poll device;
}
  where
    kept_by :
        (t : ℕ) (o o' : Option ReaderPlace) (d d' : SynchConsole)
        → ReaderBody t o d o' d'
        → AtPlace o d
        → AtPlace o' d'
    kept_by t none o' d d' (a, b) h = rw (a, b) h
    kept_by t (some l) o' d d' (a, b) h = rw (a, b) (step-AtPlace t l d h)

-- No character is lost or read twice, unless it is the byte that EOF looks like: whatever the order in which a new
-- console is polled, characters are typed, and threads call `readConsole` and lose the CPU in it, what
-- `readConsole` has returned, then the character that the console holds, then what the keyboard still has to
-- give, are all that was typed, in order.
pub read_console_in_order :
    (fuel poll device this : ℕ) (typed : List ℕ) (k : Kernel ConsoleSemaphores) (d : SynchConsole)
    (st : Store) (m : Monitor SynchConsole ReaderPlace)
    → synch_console poll device this typed k ≡ some d
    → Monitor.Reach ReaderBody (ReaderInterrupt poll device) fuel (open_with st d) m
    → NoEof m.guarded.all_typed
    → m.guarded.all_typed
      ≡ m.guarded.returned ++ (held m.guarded.consola.incoming ++ m.guarded.consola.typed)
read_console_in_order fuel poll device this typed k d st m made r clean =
    let i =
      Reach-IsOrderly ReaderBody (ReaderInterrupt poll device) fuel st d AtPlace m
        (reader_keeps poll device) (new-AtPlace poll device this typed k d made) r in
    in_order_of i.place m.guarded i.kept clean
