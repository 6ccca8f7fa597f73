-- ===== src/Messages/Packetwise.antt =====
-- `MessagePackets::next` of messages.rs against `read_bytes`, over any cipher and any stream.
use snowpack.Prelude.{
  ℕ, zero, suc, ◌≡◌, ◌≢◌, refl, ◌++◌, [], Bytes, false, none, some, Result, ok, err,
}
use snowpack.External.Net.{Net}
use snowpack.PacketState.Header.{PacketKind, PacketHeader}
use snowpack.Packets.Error.{Error}
use snowpack.Packets.Rx.{PacketRx}
use snowpack.Messages.{
  MessageRx, Message, MessagePackets, Outcome, Next, Received, returned, panicked, unfinished,
  read_bytes, collect, on_packet, by_kind, is_sole, into_packets, next, next_first,
  next_continuation, next_packet, next_kind,
}

module _ (x : Net) where
  -- A caller that calls `next` until it is told that there is no more, and puts the payloads
  -- together. A round for each call.
  unfoldable pub drained :
      (Bytes → MessagePackets x → Outcome x Bytes (PacketRx x))
      → Bytes
      → Next x
      → Outcome x Bytes (PacketRx x)
  drained again acc (returned (ok (some bytes)) p) = again (acc ++ bytes) p
  drained again acc (returned (ok none) p) = returned (ok acc) p.rx.packets
  drained again acc (returned (err e) p) = returned (err e) p.rx.packets
  drained again acc panicked = panicked
  drained again acc unfinished = unfinished

  unfoldable pub drain : ℕ → Bytes → MessagePackets x → Outcome x Bytes (PacketRx x)
  unfolding drained
  drain zero acc p = unfinished
  drain (suc fuel) acc p = drained (drain fuel) acc (next x p)

  -- The result of `read_bytes`, without its own buffer.
  unfoldable pub packets_of : Received x → Outcome x Bytes (PacketRx x)
  packets_of (returned r rx) = returned r rx.packets
  packets_of panicked = panicked
  packets_of unfinished = unfinished

  -- After the opening packet.
  abbrev rest_of : MessageRx x → MessageRx x → MessagePackets x
  rest_of rx held = record {
    done = false;
    first_kind = none;
    rx = record held { packets = rx.packets };
  }

  on_kind :
      (fuel : ℕ) (k : PacketKind) (rx held : MessageRx x)
      → by_kind x (collect x fuel) k rx ≢ unfinished
      → ((r : MessageRx x)
          → collect x fuel r ≢ unfinished
          → drain (suc fuel) r.read_buf (rest_of r held) ≡ packets_of (collect x fuel r))
      → drained (drain (suc fuel)) rx.read_buf (next_kind x k (rest_of rx held))
        ≡ packets_of (by_kind x (collect x fuel) k rx)
  unfolding by_kind drained packets_of next_kind drain next
  on_kind fuel PacketKind.abort rx held h again = refl
  on_kind fuel PacketKind.last rx held h again = refl
  on_kind fuel PacketKind.mid rx held h again = again _ h
  on_kind fuel PacketKind.sole rx held h again = refl
  on_kind fuel PacketKind.first rx held h again = refl

  on_read :
      (fuel : ℕ) (said : Result PacketHeader (Error x)) (rx held : MessageRx x)
      → on_packet x (collect x fuel) said rx ≢ unfinished
      → ((r : MessageRx x)
          → collect x fuel r ≢ unfinished
          → drain (suc fuel) r.read_buf (rest_of r held) ≡ packets_of (collect x fuel r))
      → drained (drain (suc fuel)) rx.read_buf (next_packet x said (rest_of rx held))
        ≡ packets_of (on_packet x (collect x fuel) said rx)
  unfolding on_packet next_packet drained packets_of
  on_read fuel (err e) rx held h again = refl
  on_read fuel (ok header) rx held h again = on_kind fuel header.kind rx held h again

  drain-collect :
      (fuel : ℕ) (rx held : MessageRx x)
      → collect x fuel rx ≢ unfinished
      → drain (suc fuel) rx.read_buf (rest_of rx held) ≡ packets_of (collect x fuel rx)
  unfolding drain collect next next_first next_continuation
  drain-collect zero rx held h = absurd (h refl)
  drain-collect (suc fuel) rx held h = on_read fuel _ _ held h (λ r. drain-collect fuel r held)

  drain-opening :
      (fuel : ℕ) (k : PacketKind) (t : ℕ) (rx : MessageRx x)
      → let m : Message x = record { first_header = record { kind = k; msg_type = t } } in
        read_bytes x fuel m rx ≢ unfinished
        → drain (suc (suc fuel)) [] (into_packets x m rx) ≡ packets_of (read_bytes x fuel m rx)
  unfolding read_bytes into_packets drain drained next next_first is_sole packets_of
  drain-opening fuel PacketKind.sole t rx h = refl
  drain-opening fuel PacketKind.first t rx h = drain-collect fuel _ rx h
  drain-opening fuel PacketKind.mid t rx h = drain-collect fuel _ rx h
  drain-opening fuel PacketKind.last t rx h = drain-collect fuel _ rx h
  drain-opening fuel PacketKind.abort t rx h = drain-collect fuel _ rx h

  -- Draining the packets of a message comes to what `read_bytes` comes to, when that has enough rounds.
  pub drain-read_bytes :
      (fuel : ℕ) (m : Message x) (rx : MessageRx x)
      → read_bytes x fuel m rx ≢ unfinished
      → drain (suc (suc fuel)) [] (into_packets x m rx) ≡ packets_of (read_bytes x fuel m rx)
  drain-read_bytes fuel m rx h = drain-opening fuel m.first_header.kind m.first_header.msg_type rx h
