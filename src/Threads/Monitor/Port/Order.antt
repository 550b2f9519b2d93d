-- ===== src/Threads/Monitor/Port/Order.antt =====
-- That `Puerto` of threads/synch.cc hands messages over in order.
use so.Prelude.{
  ℕ, if◌then◌else◌, true, false, [], ◌∷◌, ◌++◌, Option, none, some, ◌≡◌, refl, arith, ◌∙◌, sym, ap,
  append-nil, subst, Bool-cases, inl, inr,
}
use so.Threads.Synch.{Store}
use so.Threads.Monitor
use so.Threads.Monitor.{Monitor, open_with}
use so.Threads.Monitor.Guarded.{Keeps, Reach-IsOrderly}
use so.Threads.Monitor.Port.{
  Port, PortCall, PortPlace, Traffic, PortBody, NoInterrupt, port, send, receive, storing,
  marking_full, taking, marking_empty, begin, port_step, sent_by, received_by, pending,
}

abbrev Follows : Traffic → Type 0
Follows d = d.sent ≡ d.received ++ pending d.port

abbrev AtPlace : Option PortPlace → Traffic → Type 0
AtPlace none d = Follows d
AtPlace (some (storing msg)) d = (d.port.access ≡ true) × Follows d
AtPlace (some (marking_full msg)) d = (d.port.access ≡ true) × (d.port.buffer ≡ msg) × Follows d
AtPlace (some taking) d = (d.port.access ≡ false) × Follows d
AtPlace (some (marking_empty buf)) d = (d.port.access ≡ false) × (d.port.buffer ≡ buf) × Follows d

pending-empty : (p : Port) → p.access ≡ true → pending p ≡ []
pending-empty p e = ground arith

pending-full : (p : Port) → p.access ≡ false → pending p ≡ p.buffer ∷ []
pending-full p e = ground arith

begin-AtPlace : (c : PortCall) (d : Traffic) → Follows d → AtPlace (begin c d.port) d
unfolding begin
begin-AtPlace (send msg) d h = elim (Bool-cases d.port.access) [
  | inl e ↦ subst (λ b. AtPlace (if b then some (storing msg) else none) d) (sym e) (e, h)
  | inr e ↦ subst (λ b. AtPlace (if b then some (storing msg) else none) d) (sym e) h
]
begin-AtPlace receive d h = elim (Bool-cases d.port.access) [
  | inl e ↦ subst (λ b. AtPlace (if b then none else some taking) d) (sym e) h
  | inr e ↦ subst (λ b. AtPlace (if b then none else some taking) d) (sym e) (e, h)
]

kept :
    (d : Traffic) (p : Port)
    → pending p ≡ pending d.port
    → Follows d
    → d.sent ++ [] ≡ (d.received ++ []) ++ pending p
kept d p e h = rw (append-nil, append-nil, e) h

step-AtPlace :
    (l : PortPlace) (d : Traffic)
    → AtPlace (some l) d
    → AtPlace ((port_step l d.port).0) (record {
      port = (port_step l d.port).1;
      sent = d.sent ++ sent_by l;
      received = d.received ++ received_by l;
    })
unfolding port_step
step-AtPlace (storing msg) d (e, h) =
    (e, refl, kept d (record d.port { buffer = msg }) (rw e refl) h)
step-AtPlace (marking_full msg) d (e, b, h) =
    ap (λ l. l ++ (msg ∷ [])) (h ∙ ap (λ l. d.received ++ l) (pending-empty d.port e))
    ∙ ap (λ x. (d.received ++ []) ++ (x ∷ [])) (sym b)
step-AtPlace taking d (e, h) = (e, refl, kept d d.port refl h)
step-AtPlace (marking_empty buf) d (e, b, h) =
    ap (λ l. l ++ []) (h ∙ ap (λ l. d.received ++ l) (pending-full d.port e))
    ∙ ap (λ x. (d.received ++ (x ∷ [])) ++ []) b

port_keeps : Keeps PortBody NoInterrupt AtPlace
unfolding PortBody
port_keeps = record { by_body = kept_by; by_interrupt = λ o d d' x h. absurd x }
  where
    kept_by :
        (t : ℕ) (o o' : Option PortPlace) (d d' : Traffic)
        → PortBody t o d o' d'
        → AtPlace o d
        → AtPlace o' d'
    kept_by t none o' d d' (c, e, e') h = rw (e, e') (begin-AtPlace c d h)
    kept_by t (some l) o' d d' (e, e') h = rw (e, e') (step-AtPlace l d h)

queue_at : (o : Option PortPlace) (d : Traffic) → AtPlace o d → Follows d
queue_at none d h = h
queue_at (some (storing msg)) d h = h.1
queue_at (some (marking_full msg)) d h = h.2
queue_at (some taking) d h = h.1
queue_at (some (marking_empty buf)) d h = h.2

-- A new port, with no message sent.
abbrev pub fresh : ℕ → Traffic
fresh garbage = record { port = port garbage; sent = []; received = [] }

-- Whatever the order in which threads call `Send` and `Receive` on a new port, and lose the CPU between their
-- statements: each message that was sent is received once, in the order of sending, but for the one that is
-- still in the buffer while `access` is false.
pub port_refines_queue :
    (fuel garbage : ℕ) (st : Store) (m : Monitor Traffic PortPlace)
    → Monitor.Reach PortBody NoInterrupt fuel (open_with st (fresh garbage)) m
    → m.guarded.sent ≡ m.guarded.received ++ pending m.guarded.port
unfolding port
port_refines_queue fuel garbage st m r =
    let i =
      Reach-IsOrderly PortBody NoInterrupt fuel st (fresh garbage) AtPlace m port_keeps refl r in
    queue_at i.place m.guarded i.kept
