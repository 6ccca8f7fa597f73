-- ===== src/Messages/Safety.antt =====
-- What a receiver of messages.rs makes of any stream and any cipher: it does not panic.
use snowpack.Prelude.{
  ℕ, zero, suc, ◌≡◌, refl, ap, subst, ◌⊎◌, inl, inr, [], ◌∷◌, Bytes, true, false, Result, ok, err,
  map_err, take, arith,
}
use snowpack.External.Net.{Net}
use snowpack.PacketState.Header.{
  PacketKind, PacketHeader, PacketReadError, from_u8, from_be_bytes, header_kind, header_type,
}
use snowpack.PacketState.Reader.{PacketReader, read, read_kind}
use snowpack.Packets.Error.{Error}
use snowpack.Packets.Error
use snowpack.Packets.Rx.{PacketRx, read_packet, decrypt, decode}
use snowpack.Messages.{
  MessageRx, Message, Outcome, returned, panicked, unfinished, read_message, read_bytes, collect,
  on_packet, by_kind, opened,
}

-- A header that a reader accepts between messages, and one that it accepts inside a message.
abbrev Opens : PacketHeader → PacketReader → Type 0
Opens h r' =
    ((h.kind ≡ PacketKind.sole) × (r'.in_progress ≡ false))
    ⊎ ((h.kind ≡ PacketKind.first) × (r'.in_progress ≡ true))

abbrev GoesOn : PacketHeader → PacketReader → Type 0
GoesOn h r' =
    ((h.kind ≡ PacketKind.mid) × (r'.in_progress ≡ true))
    ⊎ ((h.kind ≡ PacketKind.last) × (r'.in_progress ≡ false))
    ⊎ ((h.kind ≡ PacketKind.abort) × (r'.in_progress ≡ false))

read_kind-Opens :
    (r r' : PacketReader) (k : Result PacketKind PacketReadError) (t : ℕ) (h : PacketHeader)
    → r.in_progress ≡ false
    → read_kind r k t ≡ (ok h, r')
    → Opens h r'
unfolding read_kind
read_kind-Opens r r' (err e) t h i q = cc
read_kind-Opens r r' (ok PacketKind.sole) t h i q = ground arith
read_kind-Opens r r' (ok PacketKind.first) t h i q = ground arith
read_kind-Opens r r' (ok PacketKind.mid) t h i q = ground arith
read_kind-Opens r r' (ok PacketKind.last) t h i q = ground arith
read_kind-Opens r r' (ok PacketKind.abort) t h i q = ground arith

read_kind-GoesOn :
    (r r' : PacketReader) (k : Result PacketKind PacketReadError) (t : ℕ) (h : PacketHeader)
    → r.in_progress ≡ true
    → read_kind r k t ≡ (ok h, r')
    → GoesOn h r'
unfolding read_kind
read_kind-GoesOn r r' (err e) t h i q = cc
read_kind-GoesOn r r' (ok PacketKind.sole) t h i q = ground arith
read_kind-GoesOn r r' (ok PacketKind.first) t h i q = ground arith
read_kind-GoesOn r r' (ok PacketKind.mid) t h i q = ground arith
read_kind-GoesOn r r' (ok PacketKind.last) t h i q = ground arith
read_kind-GoesOn r r' (ok PacketKind.abort) t h i q = ground arith

read-Opens :
    (r r' : PacketReader) (raw : Bytes) (h : PacketHeader)
    → r.in_progress ≡ false
    → read r raw ≡ (ok h, r')
    → Opens h r'
unfolding read
read-Opens r r' [] h i q = cc
read-Opens r r' (b0 ∷ []) h i q = cc
read-Opens r r' (b0 ∷ b1 ∷ payload) h i q =
    let header = from_be_bytes b0 b1 in
    read_kind-Opens r r' (from_u8 (header_kind header)) (header_type header) h i q

read-GoesOn :
    (r r' : PacketReader) (raw : Bytes) (h : PacketHeader)
    → r.in_progress ≡ true
    → read r raw ≡ (ok h, r')
    → GoesOn h r'
unfolding read
read-GoesOn r r' [] h i q = cc
read-GoesOn r r' (b0 ∷ []) h i q = cc
read-GoesOn r r' (b0 ∷ b1 ∷ payload) h i q =
    let header = from_be_bytes b0 b1 in
    read_kind-GoesOn r r' (from_u8 (header_kind header)) (header_type header) h i q

module _ (x : Net) where
  -- What a call of the packet half that accepts a packet did to its reader.
  abbrev Accepted : PacketReader → Result PacketHeader (Error x) → PacketRx x → Type 0
  Accepted r (err e) p = Unit
  Accepted r (ok h) p = (raw : Bytes) × (read r raw ≡ (ok h, p.packet_reader))

  Accepted-map_err :
      (r : PacketReader) (raw : Bytes) (said : Result PacketHeader PacketReadError) (p : PacketRx x)
      → read r raw ≡ (said, p.packet_reader)
      → Accepted r (map_err Error.packet said) p
  Accepted-map_err r raw (err e) p q = tt
  Accepted-map_err r raw (ok h) p q = (raw, q)

  decode-Accepted :
      (n : Result ℕ x.SnowError) (rx : PacketRx x)
      → Accepted rx.packet_reader (decode x n rx).0 (decode x n rx).1
  unfolding decode
  decode-Accepted (err e) rx = tt
  decode-Accepted (ok n) rx =
      let raw = take n rx.plaintext_buf in
      Accepted-map_err rx.packet_reader raw (read rx.packet_reader raw).0 (decode x (ok n) rx).1
        refl

  decrypt-Accepted :
      (r : Result (Unit {0}) (Error x)) (rx : PacketRx x)
      → Accepted rx.packet_reader (decrypt x r rx).0 (decrypt x r rx).1
  unfolding decrypt
  decrypt-Accepted (err e) rx = tt
  decrypt-Accepted (ok done) rx = decode-Accepted _ _

  read_packet-Accepted :
      (rx : PacketRx x) → Accepted rx.packet_reader (read_packet x rx).0 (read_packet x rx).1
  unfolding read_packet
  read_packet-Accepted rx = decrypt-Accepted _ _

  -- The receiver is between messages again when the payload has been returned.
  abbrev pub Safe : {A : Type 0} → Outcome x A (MessageRx x) → Type 0
  Safe (returned (ok a) rx) = rx.packets.packet_reader.in_progress ≡ false
  Safe (returned (err e) rx) = Unit
  Safe panicked = ⊥
  Safe unfinished = Unit

  by_kind-Safe :
      (again : MessageRx x → Outcome x Bytes (MessageRx x)) (h : PacketHeader) (rx : MessageRx x)
      → ((rx' : MessageRx x) → rx'.packets.packet_reader.in_progress ≡ true → Safe (again rx'))
      → GoesOn h rx.packets.packet_reader
      → Safe (by_kind x again h.kind rx)
  unfolding by_kind
  by_kind-Safe again h rx safe (inl g) = rw g.0 (safe _ g.1)
  by_kind-Safe again h rx safe (inr (inl g)) = rw g.0 g.1
  by_kind-Safe again h rx safe (inr (inr g)) = rw g.0 tt

  on_packet-Safe :
      (again : MessageRx x → Outcome x Bytes (MessageRx x)) (r : PacketReader)
      (said : Result PacketHeader (Error x)) (rx : MessageRx x)
      → ((rx' : MessageRx x) → rx'.packets.packet_reader.in_progress ≡ true → Safe (again rx'))
      → r.in_progress ≡ true
      → Accepted r said rx.packets
      → Safe (on_packet x again said rx)
  unfolding on_packet
  on_packet-Safe again r (err e) rx safe i a = tt
  on_packet-Safe again r (ok h) rx safe i (raw, q) =
      by_kind-Safe again h rx safe (read-GoesOn r rx.packets.packet_reader raw h i q)

  collect-Safe :
      (fuel : ℕ) (rx : MessageRx x)
      → rx.packets.packet_reader.in_progress ≡ true
      → Safe (collect x fuel rx)
  unfolding collect
  collect-Safe zero rx i = tt
  collect-Safe (suc fuel) rx i =
      on_packet-Safe (collect x fuel) rx.packets.packet_reader _ _ (collect-Safe fuel) i
        (read_packet-Accepted rx.packets)

  opened-Safe :
      (fuel : ℕ) (h : PacketHeader) (rx : MessageRx x)
      → Opens h rx.packets.packet_reader
      → Safe (read_bytes x fuel (record { first_header = h }) rx)
  unfolding read_bytes
  opened-Safe fuel h rx (inl g) = rw g.0 g.1
  opened-Safe fuel h rx (inr g) = rw g.0 (collect-Safe fuel _ g.1)

  message-Safe :
      (fuel : ℕ) (r : PacketReader) (said : Result PacketHeader (Error x)) (rx rx' : MessageRx x)
      (m : Message x)
      → r.in_progress ≡ false
      → Accepted r said rx.packets
      → opened x said ≡ ok m
      → rx ≡ rx'
      → Safe (read_bytes x fuel m rx')
  unfolding opened
  message-Safe fuel r (err e) rx rx' m i a o same = cc
  message-Safe fuel r (ok h) rx rx' m i (raw, q) o same =
      let g = opened-Safe fuel h rx (read-Opens r rx.packets.packet_reader raw h i q) in
      let handle : record { first_header = h } ≡ m = cc in
      subst (λ n. Safe (read_bytes x fuel n rx')) handle
        (subst (λ z. Safe (read_bytes x fuel (record { first_header = h }) z)) same g)

  -- Whatever the cipher and the stream give, when read_message on a receiver between messages
  -- returns a message, read_bytes on it does not panic, and when it returns the payload the
  -- receiver is between messages again.
  pub read_bytes-Safe :
      (fuel : ℕ) (rx rx' : MessageRx x) (m : Message x)
      → rx.packets.packet_reader.in_progress ≡ false
      → read_message x rx ≡ (ok m, rx')
      → Safe (read_bytes x fuel m rx')
  unfolding read_message
  read_bytes-Safe fuel rx rx' m i e =
      message-Safe fuel rx.packets.packet_reader (read_packet x rx.packets).0 _ rx' m i
        (read_packet-Accepted rx.packets) (ap (λ z. z.0) e) (ap (λ z. z.1) e)
