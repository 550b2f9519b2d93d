-- ===== src/Network/Post.antt =====
-- network/post.h and network/post.cc: messages between mailboxes. The list of a mailbox is `SynchList`'s, seen while
-- its lock is held. `Send` runs while `sendLock` is held, up to its `P` of `messageSent`; a round of
-- `PostalDelivery` and `Get` begin where their `P` or `Wait` lets them pass. An `int` is a number below 2 ^ 32, and no
-- negative one below 2 ^ 31. `none` is an ASSERT that fails.
pub mod Delivery
use so.Prelude.{
  ℕ, ◌+◌, ◌-◌, ltb, leb, ◌==◌, if◌then◌else◌, ◌&&◌, Bool, true, false, List, [], ◌∷◌, ◌++◌, Option,
  none, some, ◌>>=◌, ◌>>◌, assert,
}
use so.Prelude.Words.{int_at, three_ints}
use so.Machine.Interrupt.{Kernel}
use so.Filesys.OpenFile.{Bytes, copy}
use so.Machine.Network
use so.Machine.Network.{PacketHeader, Network}

pub record MailHeader : Type 0 where
  pub to : ℕ
  pub from : ℕ
  pub length : ℕ

-- `MaxPacketSize` less the twelve bytes of a `MailHeader`.
abbrev pub max_mail_size : ℕ
max_mail_size = 40

pub record Mail : Type 0 where
  pub pkt_hdr : PacketHeader
  pub mail_hdr : MailHeader
  pub bytes : Bytes

pub record PostOffice : Type 0 where
  pub net : Network
  pub net_addr : ℕ
  pub boxes : ℕ → List Mail
  pub num_boxes : ℕ

abbrev pub mail_header_bytes : MailHeader → Bytes
mail_header_bytes h = three_ints h.to h.from h.length

abbrev pub mail_header_at : Bytes → MailHeader
mail_header_at b = record { to = int_at b 0; from = int_at b 4; length = int_at b 8 }

-- `0 <= to && to < numBoxes`.
abbrev pub is_box : PostOffice → ℕ → Bool
is_box p to = ltb to 2147483648 && ltb to p.num_boxes

-- `Mail::Mail`, over the bytes that the memory holds.
unfoldable pub mail : Bytes → PacketHeader → MailHeader → Bytes → Option Mail
mail g pkt_hdr mail_hdr msg_data = do
  assert (leb mail_hdr.length max_mail_size)
  some (record {
    pkt_hdr = pkt_hdr;
    mail_hdr = mail_hdr;
    bytes = copy msg_data 0 g 0 mail_hdr.length;
  })

-- `MailBox::Put`.
unfoldable pub put : Bytes → PostOffice → PacketHeader → MailHeader → Bytes → Option PostOffice
put g p pkt_hdr mail_hdr bytes = do
  m ← mail g pkt_hdr mail_hdr bytes
  some (record p { boxes = λ b. if mail_hdr.to == b then p.boxes b ++ (m ∷ []) else p.boxes b })

-- `MailBox::Get` of the first message.
unfoldable pub get :
    PostOffice → ℕ → Bytes → Option (PacketHeader × MailHeader × Bytes × PostOffice)
get p box into = elim (p.boxes box) [
  | [] ↦ none
  | m ∷ ms ↦ some (
    m.pkt_hdr,
    m.mail_hdr,
    copy m.bytes 0 into 0 m.mail_hdr.length,
    record p { boxes = λ b. if box == b then ms else p.boxes b },
  )
]

-- The message as `Send` puts it into its buffer.
abbrev pub message : Bytes → MailHeader → Bytes → Bytes
message g mail_hdr bytes =
    copy bytes 0 (copy (mail_header_bytes mail_hdr) 0 g 0 12) 12 mail_hdr.length

abbrev pub addressed : PostOffice → PacketHeader → MailHeader → PacketHeader
addressed p pkt_hdr mail_hdr = record pkt_hdr { from = p.net_addr; length = mail_hdr.length + 12 }

module _ {ℓ} {W : Type ℓ} where
  -- `Send`, up to the `P` of `messageSent`: the packet for the socket, if it is not lost.
  unfoldable pub send :
      ℕ
      → ℕ
      → Bytes
      → Bytes
      → Bool
      → PostOffice
      → Kernel W
      → PacketHeader
      → MailHeader
      → Bytes
      → Option (Option Bytes × Kernel W)
  send done this g g' lost p k pkt_hdr mail_hdr bytes = do
    assert (leb mail_hdr.length max_mail_size)
    assert (is_box p mail_hdr.to)
    Network.send done this g' lost p.net k (addressed p pkt_hdr mail_hdr) (message g mail_hdr bytes)

-- The checks of `PostalDelivery`, and its `Put`.
unfoldable pub deliver : Bytes → PostOffice → PacketHeader → MailHeader → Bytes → Option PostOffice
deliver g p pkt_hdr mail_hdr bytes = do
  assert (is_box p mail_hdr.to)
  assert (leb mail_hdr.length max_mail_size)
  put g p pkt_hdr mail_hdr bytes

-- A round of the loop of `PostalDelivery`, in the buffer that the rounds share.
unfoldable pub postal_delivery : Bytes → PostOffice → Bytes → Option (PostOffice × Bytes)
postal_delivery g p buffer =
    let (pkt_hdr, buffer', net) = Network.receive p.net buffer in
    do
      p' ←
          deliver g (record p { net = net }) pkt_hdr (mail_header_at buffer')
            (λ j. buffer' (12 + j))
      some (p', buffer')

unfoldable pub receive :
    PostOffice → ℕ → Bytes → Option (PacketHeader × MailHeader × Bytes × PostOffice)
receive p box into = do
  assert (ltb box p.num_boxes)
  (pkt_hdr, mail_hdr, into', p') ← get p box into
  assert (leb mail_hdr.length max_mail_size)
  some (pkt_hdr, mail_hdr, into', p')
