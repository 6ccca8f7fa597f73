-- ===== src/Messages/Ends.antt =====
-- `read_bytes` of messages.rs over a stream that ends: it ends too, whatever the bytes and the cipher.
use snowpack.Prelude.{
  ℕ, zero, suc, ◌<◌, ◌≡◌, ◌≢◌, refl, ap, ◌∙◌, [], Bytes, false, Result, ok, err, map_err, resize,
  arith,
}
use snowpack.External.Net.{Net, IsFinite}
use snowpack.PacketState.Header.{PacketKind, PacketHeader}
use snowpack.Packets.Error.{Error}
use snowpack.Packets.Frame.{read_frame, read_body}
use snowpack.Packets.Rx.{PacketRx, read_packet, decrypt, decode}
use snowpack.Messages.{
  MessageRx, Message, Outcome, returned, panicked, unfinished, into_packets, read_message,
  read_bytes, collect, on_packet, by_kind, is_sole,
}
use snowpack.Messages.Packetwise.{drain, packets_of, drain-read_bytes}
use snowpack.Messages.Safety.{Safe, read_bytes-Safe}

module _ (x : Net) (fin : IsFinite x) where
  open fin use {remaining}

  -- What a call that has read a packet has taken from the stream.
  abbrev Shorter : {A : Type 0} → Result A (Error x) → x.Input → x.Input → Type 0
  Shorter (err e) i i' = Unit
  Shorter (ok a) i i' = remaining i' < remaining i

  Shorter-map_err :
      {A E : Type 0} (f : E → Error x) (r : Result A E) (i i' : x.Input)
      → remaining i' < remaining i
      → Shorter (map_err f r) i i'
  Shorter-map_err f (ok a) i i' h = h
  Shorter-map_err f (err e) i i' h = tt

  Shorter-read_body :
      (len : Result ℕ x.IoError) (i i' : x.Input) (buffer : Bytes)
      → x.read_u16 i ≡ (len, i')
      → Shorter (read_body x len i' buffer).0 i (read_body x len i' buffer).2
  unfolding read_body
  Shorter-read_body (err e) i i' buffer h = tt
  Shorter-read_body (ok n) i i' buffer h =
      Shorter-map_err _ _ i _
        (omega (arith, fin.read_u16-less i n i' h, fin.read_exact-le i' (resize n buffer)))

  Shorter-decode :
      (n : Result ℕ x.SnowError) (rx : PacketRx x) (i : x.Input)
      → remaining rx.input < remaining i
      → Shorter (decode x n rx).0 i (decode x n rx).1.input
  unfolding decode
  Shorter-decode (err e) rx i h = tt
  Shorter-decode (ok n) rx i h = Shorter-map_err _ _ i rx.input h

  Shorter-decrypt :
      (r : Result (Unit {0}) (Error x)) (rx : PacketRx x) (i : x.Input)
      → Shorter r i rx.input
      → Shorter (decrypt x r rx).0 i (decrypt x r rx).1.input
  unfolding decrypt
  Shorter-decrypt (err e) rx i h = tt
  Shorter-decrypt (ok done) rx i h = Shorter-decode _ _ i h

  Shorter-read_packet :
      (rx : PacketRx x) → Shorter (read_packet x rx).0 rx.input (read_packet x rx).1.input
  unfolding read_packet read_frame
  Shorter-read_packet rx =
      Shorter-decrypt _ _ rx.input (Shorter-read_body _ rx.input _ rx.ciphertext_buf refl)

  by_kind-ends :
      (again : MessageRx x → Outcome x Bytes (MessageRx x)) (k : PacketKind) (rx : MessageRx x)
      → ((r : MessageRx x) → r.packets ≡ rx.packets → again r ≢ unfinished)
      → by_kind x again k rx ≢ unfinished
  unfolding by_kind
  by_kind-ends again PacketKind.abort rx h e = absurd cc
  by_kind-ends again PacketKind.last rx h e = absurd cc
  by_kind-ends again PacketKind.mid rx h e = h _ refl e
  by_kind-ends again PacketKind.sole rx h e = absurd cc
  by_kind-ends again PacketKind.first rx h e = absurd cc

  on_packet-ends :
      (fuel : ℕ) (said : Result PacketHeader (Error x)) (rx : MessageRx x) (i : x.Input)
      → Shorter said i rx.packets.input
      → remaining i < suc fuel
      → ((r : MessageRx x) → remaining r.packets.input < fuel → collect x fuel r ≢ unfinished)
      → on_packet x (collect x fuel) said rx ≢ unfinished
  unfolding on_packet
  on_packet-ends fuel (err q) rx i less enough again e = absurd cc
  on_packet-ends fuel (ok h) rx i less enough again e =
      by_kind-ends (collect x fuel) h.kind rx
        (λ r same. again r (omega (arith, ap (λ p. remaining p.input) same))) e

  collect-ends :
      (fuel : ℕ) (rx : MessageRx x)
      → remaining rx.packets.input < fuel
      → collect x fuel rx ≢ unfinished
  unfolding collect
  collect-ends zero rx h = absurd (omega arith)
  collect-ends (suc fuel) rx h =
      on_packet-ends fuel _ _ rx.packets.input (Shorter-read_packet rx.packets) h
        (λ r. collect-ends fuel r)

  opening-ends :
      (fuel : ℕ) (k : PacketKind) (t : ℕ) (rx : MessageRx x)
      → remaining rx.packets.input < fuel
      → read_bytes x fuel (record { first_header = record { kind = k; msg_type = t } }) rx
        ≢ unfinished
  unfolding read_bytes is_sole
  opening-ends fuel PacketKind.sole t rx h e = absurd cc
  opening-ends fuel PacketKind.first t rx h e = collect-ends fuel _ h e
  opening-ends fuel PacketKind.mid t rx h e = collect-ends fuel _ h e
  opening-ends fuel PacketKind.last t rx h e = collect-ends fuel _ h e
  opening-ends fuel PacketKind.abort t rx h e = collect-ends fuel _ h e

  pub read_bytes-ends :
      (fuel : ℕ) (m : Message x) (rx : MessageRx x)
      → remaining rx.packets.input < fuel
      → read_bytes x fuel m rx ≢ unfinished
  read_bytes-ends fuel m rx h = opening-ends fuel m.first_header.kind m.first_header.msg_type rx h

  has_returned :
      (o : Outcome x Bytes (MessageRx x))
      → o ≢ unfinished
      → Safe x o
      → (r : Result Bytes (Error x)) × (rx : MessageRx x) × (o ≡ returned r rx)
  has_returned (returned r rx) h s = (r, rx, refl)
  has_returned panicked h s = absurd s
  has_returned unfinished h s = absurd (h refl)

  read_bytes-returned :
      (fuel : ℕ) (rx rx' : MessageRx x) (m : Message x)
      → rx.packets.packet_reader.in_progress ≡ false
      → read_message x rx ≡ (ok m, rx')
      → remaining rx'.packets.input < fuel
      → (r : Result Bytes (Error x)) × (rx'' : MessageRx x) × (read_bytes x fuel m rx'
          ≡ returned r rx'')
  read_bytes-returned fuel rx rx' m i e h =
      has_returned (read_bytes x fuel m rx') (read_bytes-ends fuel m rx' h)
        (read_bytes-Safe x fuel rx rx' m i e)

  -- Over any stream that ends and any cipher, for a message that read_message on a receiver
  -- between messages returned, read_bytes with more rounds than the stream has bytes left returns,
  -- and a caller that calls next until there is no more, and puts the payloads together, comes to
  -- the same result, error or payload, and the same packet half.
  pub drain-returned :
      (fuel : ℕ) (rx rx' : MessageRx x) (m : Message x)
      → rx.packets.packet_reader.in_progress ≡ false
      → read_message x rx ≡ (ok m, rx')
      → remaining rx'.packets.input < fuel
      → (r : Result Bytes (Error x)) × (rx'' : MessageRx x) × (read_bytes x fuel m rx'
          ≡ returned r rx'')
        × (drain x (suc (suc fuel)) [] (into_packets x m rx') ≡ returned r rx''.packets)
  unfolding packets_of
  drain-returned fuel rx rx' m i e h =
      let (r, rx'', done) = read_bytes-returned fuel rx rx' m i e h in
      (
        r,
        rx'',
        done,
        drain-read_bytes x fuel m rx' (read_bytes-ends fuel m rx' h) ∙ ap (packets_of x) done,
      )
