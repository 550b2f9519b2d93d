-- ===== src/Threads/Monitor/Port.antt =====
-- `Puerto` of threads/synch.cc: a buffer for one message between threads, under a lock. `Wait` lets the lock go and
-- gets it again, and `Signal` posts a semaphore: both leave the fields of the port, and are steps at the lock
-- and elsewhere. `Receive` keeps the message to itself, so the model writes down what it took.
pub mod Order
use so.Prelude.{
  ℕ, if◌then◌else◌, Bool, true, false, List, [], ◌∷◌, ◌++◌, Option, none, some, ◌>>=◌, ◌≡◌, refl,
  arith, ◌∙◌, sym, ap, append-nil, subst, Bool-cases, inl, inr,
}
use so.Threads.Synch.{Store}
use so.Threads.Monitor
use so.Threads.Monitor.{Monitor, open_with}
use so.Threads.Monitor.Guarded.{Keeps, Reach-IsOrderly}

-- The fields of `Puerto` without its lock and its conditions.
pub record Port : Type 0 where
  pub access : Bool
  pub buffer : ℕ

-- `Puerto::Puerto`, where `garbage` is what the memory holds.
unfoldable pub port : ℕ → Port
port garbage = record { access = true; buffer = garbage }

-- What a thread calls when it has the lock, and the statements that are left of it after the loop: `buffer = msg` and
-- `access = false` in `Send`, `buf = buffer` and `access = true` in `Receive`.
pub data PortCall : Type 0 where
  send : ℕ → PortCall
  receive : PortCall

pub data PortPlace : Type 0 where
  storing : ℕ → PortPlace
  marking_full : ℕ → PortPlace
  taking : PortPlace
  marking_empty : ℕ → PortPlace

-- The test of the loop; `none` is `Wait`.
unfoldable pub begin : PortCall → Port → Option PortPlace
begin (send msg) p = if p.access then some (storing msg) else none
begin receive p = if p.access then none else some taking

-- The next statement; after the last one the thread signals and lets the lock go.
unfoldable pub port_step : PortPlace → Port → Option PortPlace × Port
port_step (storing msg) p = (some (marking_full msg), record p { buffer = msg })
port_step (marking_full msg) p = (none, record p { access = false })
port_step taking p = (some (marking_empty p.buffer), p)
port_step (marking_empty buf) p = (none, record p { access = true })

-- A call that no other thread interrupts, once it has the lock; `none` is `Wait`.
unfoldable pub call_now : PortCall → Port → Option Port
call_now c p = do l ← begin c p; let (l', p₁) = port_step l p; l'' ← l'; some ((port_step l'' p₁).1)

-- The port, with the messages of the calls of `Send` and `Receive` that are through, in order.
pub record Traffic : Type 0 where
  pub port : Port
  pub sent : List ℕ
  pub received : List ℕ

abbrev pub sent_by : PortPlace → List ℕ
sent_by (marking_full msg) = msg ∷ []
sent_by l = []

abbrev pub received_by : PortPlace → List ℕ
received_by (marking_empty buf) = buf ∷ []
received_by l = []

unfoldable pub PortBody : ℕ → Option PortPlace → Traffic → Option PortPlace → Traffic → Type 0
PortBody t none d o' d' = (c : PortCall) × (o' ≡ begin c d.port) × (d' ≡ d)
PortBody t (some l) d o' d' =
    (o' ≡ (port_step l d.port).0)
    × (d' ≡ record {
      port = (port_step l d.port).1;
      sent = d.sent ++ sent_by l;
      received = d.received ++ received_by l;
    })

abbrev pub NoInterrupt : {D : Type 0} → D → D → Type 0
NoInterrupt d d' = ⊥

abbrev pub pending : Port → List ℕ
pending p = if p.access then [] else (p.buffer ∷ [])
