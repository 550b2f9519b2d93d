-- ===== src/Network/Post/Delivery.antt =====
-- From `Send` of one machine to `Receive` of another.
use so.Prelude.{
  ℕ, ◌+◌, ◌≤◌, ◌<◌, ltb, leb, ◌==◌, if◌then◌else◌, ◌&&◌, true, false, not, [], ◌∷◌, ◌++◌, Option,
  some, ◌>>=◌, ◌≡◌, refl, arith, ◌∙◌, ap, inl, inr, Option-cases,
}
use so.Prelude.Words.{int_at, int_bytes}
use so.Machine.Interrupt.{Kernel, schedule, network_send_int, network_recv_int, IntType}
use so.Filesys.OpenFile.{Bytes, copy}
use so.Machine.Network
use so.Machine.Network.{
  PacketHeader, Network, buffered, check_pkt_avail, header_bytes, header_at, network_time,
  no_length,
}
use so.Network.Post
use so.Network.Post.{
  deliver, MailHeader, PostOffice, Mail, mail, put, get, message, addressed, postal_delivery,
  is_box, mail_header_bytes, mail_header_at,
}

packet : Bytes → Bytes → PostOffice → PacketHeader → MailHeader → Bytes → Bytes
packet g g' p pkt_hdr mail_hdr bytes =
    let hdr = addressed p pkt_hdr mail_hdr in
    copy (message g mail_hdr bytes) 0 (copy (header_bytes hdr) 0 g' 0 12) 12 hdr.length

-- The header and the payload of a packet, as they come out of it.
packet_header :
    (g g' : Bytes) (p : PostOffice) (pkt_hdr : PacketHeader) (mail_hdr : MailHeader) (bytes : Bytes)
    → pkt_hdr.to < 4294967296
    → p.net_addr < 4294967296
    → mail_hdr.length ≤ 40
    → header_at (packet g g' p pkt_hdr mail_hdr bytes) ≡ addressed p pkt_hdr mail_hdr
unfolding packet
packet_header g g' p pkt_hdr mail_hdr bytes a b c =
    rw
      (
        int_bytes pkt_hdr.to a,
        int_bytes p.net_addr b,
        int_bytes (mail_hdr.length + 12) (omega arith),
      )
      refl

packet_payload :
    (g g' : Bytes) (p : PostOffice) (pkt_hdr : PacketHeader) (mail_hdr : MailHeader) (bytes : Bytes)
    (j : ℕ)
    → j < 12 + mail_hdr.length
    → packet g g' p pkt_hdr mail_hdr bytes (12 + j) ≡ message g mail_hdr bytes j
unfolding packet
packet_payload g g' p pkt_hdr mail_hdr bytes j lt = ground arith

mail_header :
    (g b : Bytes) (mail_hdr : MailHeader) (bytes : Bytes)
    → mail_hdr.to < 4294967296
    → mail_hdr.from < 4294967296
    → mail_hdr.length ≤ 40
    → ((j : ℕ) → j < 12 → b j ≡ message g mail_hdr bytes j)
    → mail_header_at b ≡ mail_hdr
mail_header g b mail_hdr bytes t f l same =
    rw
      (
        same 0 (omega arith),
        same 1 (omega arith),
        same 2 (omega arith),
        same 3 (omega arith),
        same 4 (omega arith),
        same 5 (omega arith),
        same 6 (omega arith),
        same 7 (omega arith),
        same 8 (omega arith),
        same 9 (omega arith),
        same 10 (omega arith),
        same 11 (omega arith),
        int_bytes mail_hdr.to t,
        int_bytes mail_hdr.from f,
        int_bytes mail_hdr.length (omega arith),
      )
      refl

-- The buffer of `PostalDelivery`, for a packet of this header.
received :
    (n : Network) (packet into : Bytes) (length j : ℕ)
    → int_at packet 8 ≡ length
    → 0 < length
    → j < length
    → (Network.receive (buffered n packet) into).1 j ≡ packet (12 + j)
unfolding Network.receive buffered
received n packet into length j e some_bytes lt = rw e ground arith

-- A round of `PostalDelivery` that gets the message of `Send`, and `Receive` from the mailbox, which was empty.
delivered :
    (g into out : Bytes) (p : PostOffice) (hdr : PacketHeader) (mail_hdr : MailHeader)
    (buffer : Bytes) (net : Network)
    → Network.receive p.net into ≡ (hdr, buffer, net)
    → mail_header_at buffer ≡ mail_hdr
    → is_box p mail_hdr.to ≡ true
    → mail_hdr.length ≤ 40
    → p.boxes mail_hdr.to ≡ []
    → (p₁ p₂ : PostOffice) × (out' : Bytes) × (postal_delivery g p into ≡ some (p₁, buffer))
      × (Post.receive p₁ mail_hdr.to out ≡ some (hdr, mail_hdr, out', p₂))
      × ((j : ℕ) → j < mail_hdr.length → out' j ≡ buffer (12 + j))
unfolding postal_delivery deliver put mail get Post.receive
delivered g into out p hdr mail_hdr buffer net e m box len empty =
    let short : leb mail_hdr.length 40 ≡ true = ground arith in
    let self : (mail_hdr.to == mail_hdr.to) ≡ true = ground arith in
    let in_office : ltb mail_hdr.to p.num_boxes ≡ true = ground arith in
    let kept : Mail = record {
      pkt_hdr = hdr;
      mail_hdr = mail_hdr;
      bytes = copy (λ j. buffer (12 + j)) 0 g 0 mail_hdr.length;
    } in
    let p₁ : PostOffice = record p {
      net = net;
      boxes = λ b. if mail_hdr.to == b then p.boxes b ++ (kept ∷ []) else p.boxes b;
    } in
    let p₂ : PostOffice = record p₁ { boxes = λ b. if mail_hdr.to == b then [] else p₁.boxes b } in
    (
      p₁,
      p₂,
      copy kept.bytes 0 out 0 mail_hdr.length,
      ap
            (λ r. (do
              p' ←
                  deliver g (record p { net = r.2 }) (r.0) (mail_header_at (r.1))
                    (λ j. (r.1) (12 + j))
              some (p', r.1)))
            e
          ∙ ap
              (λ h. (do
                p' ← deliver g (record p { net = net }) hdr h (λ j. buffer (12 + j))
                some (p', buffer)))
              m
          ∙ rw (box, short) refl,
      rw in_office (rw (get, self, empty) (rw short refl)),
      λ j lt. ground arith,
    )

first :
    (n : Network) (into : Bytes) (hdr : PacketHeader)
    → n.in_hdr ≡ hdr
    → Network.receive n into ≡ (hdr, (Network.receive n into).1, (Network.receive n into).2)
unfolding Network.receive
first n into hdr e = ap (λ h. (h, (Network.receive n into).1, (Network.receive n into).2)) e

taken : (n : Network) (packet : Bytes) → (buffered n packet).in_hdr ≡ header_at packet
unfolding buffered
taken n packet = refl

module _ {ℓ} {W : Type ℓ} where
  schedule-some :
      (k : Kernel W) (handler arg : ℕ) (kind : IntType)
      → (k' : Kernel W) × (schedule k handler arg network_time kind ≡ some k')
  unfolding schedule
  schedule-some k handler arg kind =
      elim (Option-cases (schedule k handler arg network_time kind)) [
        | inl e ↦ absurd (let z = e in cc)
        | inr r ↦ r
      ]

  -- A message that the network does not lose arrives as it was sent. The sender's device carries the address of its
  -- office; the receiver's has the address that the packet is sent to, an empty buffer, and a handler that does
  -- not fail; the mailbox exists on both machines and is empty, and the length is at most `MaxMailSize`. Then
  -- `Send`, `CheckPktAvail`, a round of `PostalDelivery` and `Receive` run through, and `Receive` gives the
  -- mail header, the address of the sender, and the bytes of the message.
  pub receive-send :
      (call : ℕ → ℕ → Kernel W → Option (Kernel W)) (done poll this this₂ : ℕ)
      (g g' g₂ into out bytes : Bytes) (p q : PostOffice) (k k₂ : Kernel W) (pkt_hdr : PacketHeader)
      (mail_hdr : MailHeader)
      → p.net.send_busy ≡ false
      → p.net.ident ≡ p.net_addr
      → p.net_addr < 4294967296
      → pkt_hdr.to ≡ q.net.ident
      → pkt_hdr.to < 4294967296
      → mail_hdr.from < 4294967296
      → mail_hdr.length ≤ 40
      → is_box p mail_hdr.to ≡ true
      → is_box q mail_hdr.to ≡ true
      → q.net.in_hdr.length ≡ 0
      → q.boxes mail_hdr.to ≡ []
      → ((k' : Kernel W)
          → (k'' : Kernel W) × (call q.net.read_handler q.net.handler_arg k' ≡ some k''))
      → (packet : Bytes) × (net : Network) × (k' k₃ : Kernel W) × (q₁ q₂ : PostOffice) × (buffer
          out' : Bytes)
        × (Post.send done this g g' false p k pkt_hdr mail_hdr bytes ≡ some (some packet, k'))
        × (check_pkt_avail call poll this₂ (some packet) q.net k₂ ≡ some (net, k₃))
        × (postal_delivery g₂ (record q { net = net }) into ≡ some (q₁, buffer))
        × (Post.receive q₁ mail_hdr.to out
            ≡ some (addressed p pkt_hdr mail_hdr, mail_hdr, out', q₂))
        × ((j : ℕ) → j < mail_hdr.length → out' j ≡ bytes j)
  unfolding check_pkt_avail Post.send Network.send packet
  receive-send call done poll this this₂ g g' g₂ into out bytes p q k k₂ pkt_hdr mail_hdr idle own a
        to t f len box box₂ free empty handler =
      let w = packet g g' p pkt_hdr mail_hdr bytes in
      let decoded = packet_header g g' p pkt_hdr mail_hdr bytes t a len in
      let net = buffered q.net w in
      let (k', e) = schedule-some k done this network_send_int in
      let (k₃, e₃) = schedule-some k₂ poll this₂ network_recv_int in
      let (k₄, e₄) = handler k₃ in
      let buffer = (Network.receive net into).1 in
      let payload : (j : ℕ) → j < 12 + mail_hdr.length → buffer j ≡ message g mail_hdr bytes j =
        λ j lt.
          received q.net w into (mail_hdr.length + 12) j (ap (λ h. h.length) decoded) (omega arith)
            (omega arith)
          ∙ packet_payload g g' p pkt_hdr mail_hdr bytes j lt in
      let (q₁, q₂, out', e₅, e₆, same) =
        delivered g₂ into out (record q { net = net }) (addressed p pkt_hdr mail_hdr) mail_hdr
          buffer (Network.receive net into).2
          (first net into (addressed p pkt_hdr mail_hdr) (taken q.net w ∙ decoded))
          (mail_header g buffer mail_hdr bytes (ground arith) f len
            (λ j lt. payload j (omega arith)))
          box₂ len empty in
      (
        w,
        net,
        k',
        k₄,
        q₁,
        q₂,
        buffer,
        out',
        sent k' e,
        arrived k₃ k₄ (ap (λ h. h.to) decoded ∙ to) (ap (λ h. h.length) decoded) e₃ e₄,
        e₅,
        e₆,
        λ j lt. same j lt ∙ payload (12 + j) (omega arith) ∙ ground arith,
      )
    where
      sent :
          (k' : Kernel W)
          → schedule k done this network_time network_send_int ≡ some k'
          → Post.send done this g g' false p k pkt_hdr mail_hdr bytes
            ≡ some (some (packet g g' p pkt_hdr mail_hdr bytes), k')
      sent k' e =
          let short : leb mail_hdr.length 40 ≡ true = ground arith in
          let ready : (not p.net.send_busy
                && ltb 0 (mail_hdr.length + 12)
                && leb (mail_hdr.length + 12) 52
                && p.net_addr == p.net.ident)
              ≡ true =
            rw (idle, own) ground arith in
          rw (short, box, ready, e) refl

      arrived :
          (k₃ k₄ : Kernel W)
          → int_at (packet g g' p pkt_hdr mail_hdr bytes) 0 ≡ q.net.ident
          → int_at (packet g g' p pkt_hdr mail_hdr bytes) 8 ≡ mail_hdr.length + 12
          → schedule k₂ poll this₂ network_time network_recv_int ≡ some k₃
          → call q.net.read_handler q.net.handler_arg k₃ ≡ some k₄
          → check_pkt_avail call poll this₂ (some (packet g g' p pkt_hdr mail_hdr bytes)) q.net k₂
            ≡ some (buffered q.net (packet g g' p pkt_hdr mail_hdr bytes), k₄)
      arrived k₃ k₄ x y e e' =
          let mine : (int_at (packet g g' p pkt_hdr mail_hdr bytes) 0 == q.net.ident) ≡ true =
            rw x ground arith in
          let fits : leb (int_at (packet g g' p pkt_hdr mail_hdr bytes) 8) 52 ≡ true =
            rw y ground arith in
          rw (e, free, mine, fits, e') refl
