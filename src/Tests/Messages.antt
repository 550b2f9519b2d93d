-- ===== src/Tests/Messages.antt =====
-- A message from one machine to another.
use so.Prelude.{ℕ, ◌+◌, ◌<◌, false, [], Option, some, ◌≡◌, refl, arith}
use so.Machine.Interrupt.{Kernel, init}
use so.Filesys.OpenFile.{Bytes}
use so.Machine.Network.{Network, PacketHeader, check_pkt_avail}
use so.Network.Post
use so.Network.Post.{MailHeader, PostOffice, addressed, postal_delivery}
use so.Network.Post.Delivery.{receive-send}

abbrev device : ℕ → Network
device addr = record {
  ident = addr;
  send_busy = false;
  in_hdr = record { to = 0; from = 0; length = 0 };
  inbox = λ j. 0;
  read_handler = 1;
  write_handler = 2;
  handler_arg = 3;
  num_packets_sent = 0;
  num_packets_recvd = 0;
}

abbrev office : ℕ → PostOffice
office addr = record { net = device addr; net_addr = addr; boxes = λ b. []; num_boxes = 10 }

abbrev kernel : Kernel ℕ
kernel = init 0

abbrev call : ℕ → ℕ → Kernel ℕ → Option (Kernel ℕ)
call handler arg k = some k

abbrev text : Bytes
text j = j + 65

abbrev zeros : Bytes
zeros j = 0

abbrev to_one : PacketHeader
to_one = record { to = 1; from = 99; length = 0 }

abbrev five_bytes : MailHeader
five_bytes = record { to = 4; from = 7; length = 5 }

receive-send_example :
    (packet : Bytes) × (net : Network) × (k' k₃ : Kernel ℕ) × (q₁ q₂ : PostOffice) × (buffer
      out' : Bytes)
    × (Post.send 1 2 zeros zeros false (office 0) kernel to_one five_bytes text
        ≡ some (some packet, k'))
    × (check_pkt_avail call 5 6 (some packet) (device 1) kernel ≡ some (net, k₃))
    × (postal_delivery zeros (record (office 1) { net = net }) zeros ≡ some (q₁, buffer))
    × (Post.receive q₁ 4 zeros
        ≡ some (addressed (office 0) to_one five_bytes, five_bytes, out', q₂))
    × ((j : ℕ) → j < 5 → out' j ≡ text j)
receive-send_example =
    receive-send call 1 5 2 6 zeros zeros zeros zeros zeros text (office 0) (office 1) kernel kernel
      to_one five_bytes refl refl (omega arith) refl (omega arith) (omega arith) (omega arith) refl
      refl refl refl (λ k. (k, refl))
