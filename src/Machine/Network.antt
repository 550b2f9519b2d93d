-- ===== src/Machine/Network.antt =====
-- machine/network.h and machine/network.cc: a network device that sends packets, which may be lost, and buffers one
-- that has arrived. The socket is outside: `Send` returns what it hands over, and `CheckPktAvail` is given what
-- has come. An `int` is a number below 2 ^ 32. `none` is an ASSERT that fails.
use so.Prelude.{
  ℕ, ◌+◌, ltb, leb, ◌==◌, if◌then◌else◌, ◌&&◌, Bool, false, not, Option, none, some, ◌>>=◌, ◌>>◌,
  assert,
}
use so.Prelude.Words.{int_at, three_ints}
use so.Machine.Interrupt.{Kernel, schedule, network_send_int, network_recv_int}
use so.Filesys.OpenFile.{Bytes, copy}

pub record PacketHeader : Type 0 where
  pub to : ℕ
  pub from : ℕ
  pub length : ℕ

-- `MaxWireSize` less the twelve bytes of a `PacketHeader`.
abbrev pub max_packet_size : ℕ
max_packet_size = 52

-- `NetworkTime` of machine/stats.h.
abbrev pub network_time : ℕ
network_time = 100

-- `read_handler`, `write_handler` and `handler_arg` stand for the function pointers and their argument, the counters
-- are those of `stats`.
pub record Network : Type 0 where
  pub ident : ℕ
  pub send_busy : Bool
  pub in_hdr : PacketHeader
  pub inbox : Bytes
  pub read_handler : ℕ
  pub write_handler : ℕ
  pub handler_arg : ℕ
  pub num_packets_sent : ℕ
  pub num_packets_recvd : ℕ

abbrev pub header_bytes : PacketHeader → Bytes
header_bytes h = three_ints h.to h.from h.length

abbrev pub header_at : Bytes → PacketHeader
header_at b = record { to = int_at b 0; from = int_at b 4; length = int_at b 8 }

abbrev pub no_length : PacketHeader → PacketHeader
no_length h = record h { length = 0 }

module _ {ℓ} {W : Type ℓ} where
  -- `Network::Network`: `poll` and `this` are the addresses of `NetworkReadPoll` and of the device.
  unfoldable pub network :
      ℕ → ℕ → PacketHeader → Bytes → ℕ → ℕ → ℕ → ℕ → Kernel W → Option (Network × Kernel W)
  network poll this hdr inbox addr read_avail write_done call_arg k = do
    k' ← schedule k poll this network_time network_recv_int
    some (
      record {
        ident = addr;
        send_busy = false;
        in_hdr = no_length hdr;
        inbox = inbox;
        read_handler = read_avail;
        write_handler = write_done;
        handler_arg = call_arg;
        num_packets_sent = 0;
        num_packets_recvd = 0;
      },
      k',
    )

  -- `Send`, where `lost` is the test on `Random()`, `done` is the address of `NetworkSendDone`, and `g` is what the
  -- buffer holds. The result has the packet that goes to the socket.
  unfoldable pub send :
      ℕ
      → ℕ
      → Bytes
      → Bool
      → Network
      → Kernel W
      → PacketHeader
      → Bytes
      → Option (Option Bytes × Kernel W)
  send done this g lost n k hdr bytes = do
    assert (
        not n.send_busy
        && ltb 0 hdr.length
        && leb hdr.length max_packet_size
        && hdr.from == n.ident)
    k' ← schedule k done this network_time network_send_int
    let packet = copy bytes 0 (copy (header_bytes hdr) 0 g 0 12) 12 hdr.length
    some ((if lost then none else some packet), k')

  unfoldable pub send_done :
      (ℕ → ℕ → Kernel W → Option (Kernel W)) → Network → Kernel W → Option (Network × Kernel W)
  send_done call n k = do
    k' ← call n.write_handler n.handler_arg k
    some (record n { send_busy = false; num_packets_sent = n.num_packets_sent + 1 }, k')

-- The device with a packet in its buffer.
unfoldable pub buffered : Network → Bytes → Network
buffered n packet = record n {
  in_hdr = header_at packet;
  inbox = copy packet 12 n.inbox 0 (int_at packet 8);
  num_packets_recvd = n.num_packets_recvd + 1;
}

module _ {ℓ} {W : Type ℓ} (call : ℕ → ℕ → Kernel W → Option (Kernel W)) where
  -- `CheckPktAvail`: `arrived` is what `PollSocket` and `ReadFromSocket` give.
  unfoldable pub check_pkt_avail :
      ℕ → ℕ → Option Bytes → Network → Kernel W → Option (Network × Kernel W)
  check_pkt_avail poll this arrived n k = do
    k' ← schedule k poll this network_time network_recv_int
    if not (n.in_hdr.length == 0) then some (n, k') else elim arrived [
      | none ↦ some (n, k')
      | some packet ↦ (do
        assert (int_at packet 0 == n.ident && leb (int_at packet 8) max_packet_size)
        k'' ← call n.read_handler n.handler_arg k'
        some (buffered n packet, k''))
    ]

-- `Receive` into `into`.
unfoldable pub receive : Network → Bytes → PacketHeader × Bytes × Network
receive n into = (
  n.in_hdr,
  (if n.in_hdr.length == 0 then into else copy n.inbox 0 into 0 n.in_hdr.length),
  record n { in_hdr = no_length n.in_hdr },
)
