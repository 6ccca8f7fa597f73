-- ===== src/Messages/Checked/Slices.antt =====
-- No slice of the receiving methods of messages.rs is out of range: they take a payload only behind a
-- read that went well.
use snowpack.Prelude.{
  ℕ, zero, suc, ◌≤◌, ◌≡◌, refl, sym, ap, ◌∙◌, subst, List, Bool, true, false, Option, none, some,
  Result, ok, err, length,
}
use snowpack.External.Net.{Net}
use snowpack.External.InBounds.{InBounds}
use snowpack.PacketState.Header.{PacketKind, PacketHeader}
use snowpack.Packets.Error.{Error}
use snowpack.Packets.Rx.{PacketRx, read_packet}
use snowpack.Packets.Checked.Run.{Readable, read_packet-checked, payload-checked}
use snowpack.Messages.{
  Message, MessageRx, MessagePackets, Received, Next, returned, panicked, unfinished, read_message,
  opened, is_sole, by_kind, on_packet, collect, read_bytes, into_packets, next_kind, next_packet,
  next_continuation, next_first, next,
}
use snowpack.Messages.Checked.{
  checked_read_message, checked_extended, checked_by_kind, checked_on_packet, checked_collect,
  checked_read_bytes, checked_next_kind, checked_next_packet, checked_next_continuation,
  checked_next_first, checked_next, go_on, nexts, checked_go_on, checked_nexts,
}

module _ (x : Net) (b : InBounds x) where
  abbrev Fits : PacketRx x → Type 0
  Fits rx = rx.payload_end ≤ length rx.plaintext_buf

  read_message-checked : (rx : MessageRx x) → checked_read_message x rx ≡ some (read_message x rx)
  unfolding checked_read_message read_message
  read_message-checked rx = rw (read_packet-checked x b rx.packets).0 refl

  module _ (again : MessageRx x → Option (Received x)) (plain : MessageRx x → Received x)
      (same : (rx : MessageRx x) → again rx ≡ some (plain rx)) where
    by_kind-checked :
        (k : PacketKind) (rx : MessageRx x)
        → Fits rx.packets
        → checked_by_kind x again k rx ≡ some (by_kind x plain k rx)
    unfolding checked_by_kind checked_extended by_kind
    by_kind-checked PacketKind.abort rx fits = refl
    by_kind-checked PacketKind.last rx fits = rw (payload-checked x b rx.packets fits) refl
    by_kind-checked PacketKind.mid rx fits = rw (payload-checked x b rx.packets fits) (same _)
    by_kind-checked PacketKind.sole rx fits = refl
    by_kind-checked PacketKind.first rx fits = refl

    on_packet-checked :
        (r : Result PacketHeader (Error x)) (rx : MessageRx x)
        → Readable x b (r, rx.packets)
        → checked_on_packet x again r rx ≡ some (on_packet x plain r rx)
    unfolding checked_on_packet on_packet
    on_packet-checked (err e) rx fits = refl
    on_packet-checked (ok header) rx fits = by_kind-checked header.kind rx fits

  collect-checked :
      (fuel : ℕ) (rx : MessageRx x) → checked_collect x fuel rx ≡ some (collect x fuel rx)
  unfolding checked_collect collect
  collect-checked zero rx = refl
  collect-checked (suc fuel) rx =
      let (same, fits) = read_packet-checked x b rx.packets in
      let (r, packets') = read_packet x rx.packets in
      rw same (
        on_packet-checked (checked_collect x fuel) (collect x fuel) (collect-checked fuel) r
          (record rx { packets = packets' }) fits)

  sole_or_more :
      (sole : Bool) (fuel : ℕ) (rx : MessageRx x)
      → elim sole [ true ↦ some (returned (ok rx.read_buf) rx) | false ↦ checked_collect x fuel rx ]
        ≡ some (elim sole [ true ↦ returned (ok rx.read_buf) rx | false ↦ collect x fuel rx ])
  sole_or_more true fuel rx = refl
  sole_or_more false fuel rx = collect-checked fuel rx

  read_bytes-checked :
      (fuel : ℕ) (m : Message x) (rx : MessageRx x)
      → Fits rx.packets
      → checked_read_bytes x fuel m rx ≡ some (read_bytes x fuel m rx)
  unfolding checked_read_bytes read_bytes
  read_bytes-checked fuel m rx fits =
      rw (payload-checked x b rx.packets fits) (sole_or_more (is_sole x m.first_header.kind) fuel _)

  -- What the next call of `next` needs.
  abbrev Ready : Option PacketKind → PacketRx x → Type 0
  Ready none rx = Unit {0}
  Ready (some k) rx = Fits rx

  abbrev StaysReady : Next x → Type 0
  StaysReady (returned r p) = Ready p.first_kind p.rx.packets
  StaysReady panicked = Unit {0}
  StaysReady unfinished = Unit {0}

  still : (p : MessagePackets x) → p.first_kind ≡ none → Ready p.first_kind p.rx.packets
  still p e = subst (λ k. Ready k p.rx.packets) (sym e) tt

  next_kind-checked :
      (k : PacketKind) (p : MessagePackets x)
      → Fits p.rx.packets
      → p.first_kind ≡ none
      → (checked_next_kind x k p ≡ some (next_kind x k p)) × StaysReady (next_kind x k p)
  unfolding checked_next_kind next_kind
  next_kind-checked PacketKind.abort p fits e = (refl, still p e)
  next_kind-checked PacketKind.last p fits e =
      (rw (payload-checked x b p.rx.packets fits) refl, still p e)
  next_kind-checked PacketKind.mid p fits e =
      (rw (payload-checked x b p.rx.packets fits) refl, still p e)
  next_kind-checked PacketKind.sole p fits e = (refl, tt)
  next_kind-checked PacketKind.first p fits e = (refl, tt)

  next_packet-checked :
      (r : Result PacketHeader (Error x)) (p : MessagePackets x)
      → Readable x b (r, p.rx.packets)
      → p.first_kind ≡ none
      → (checked_next_packet x r p ≡ some (next_packet x r p)) × StaysReady (next_packet x r p)
  unfolding checked_next_packet next_packet
  next_packet-checked (err q) p fits e = (refl, still p e)
  next_packet-checked (ok header) p fits e = next_kind-checked header.kind p fits e

  next_continuation-checked :
      (p : MessagePackets x)
      → p.first_kind ≡ none
      → (checked_next_continuation x p ≡ some (next_continuation x p))
        × StaysReady (next_continuation x p)
  unfolding checked_next_continuation next_continuation
  next_continuation-checked p e =
      let (same, fits) = read_packet-checked x b p.rx.packets in
      let (r, packets') = read_packet x p.rx.packets in
      let (done, ready) =
        next_packet-checked r (record p { rx = record p.rx { packets = packets' } }) fits e in
      (rw same done, ready)

  next_first-checked :
      (k : Option PacketKind) (p : MessagePackets x)
      → Ready k p.rx.packets
      → p.first_kind ≡ k
      → (checked_next_first x k p ≡ some (next_first x k p)) × StaysReady (next_first x k p)
  unfolding checked_next_first next_first
  next_first-checked none p ready e = next_continuation-checked p e
  next_first-checked (some kind) p ready e = (rw (payload-checked x b p.rx.packets ready) refl, tt)

  next_at :
      (done : Bool) (p : MessagePackets x)
      → Ready p.first_kind p.rx.packets
      → (elim done [
        | true ↦ some (returned (ok none) p)
        | false ↦ checked_next_first x p.first_kind p
      ]
          ≡ some (elim done [ true ↦ returned (ok none) p | false ↦ next_first x p.first_kind p ]))
        × StaysReady
            (elim done [ true ↦ returned (ok none) p | false ↦ next_first x p.first_kind p ])
  next_at true p ready = (refl, ready)
  next_at false p ready = next_first-checked p.first_kind p ready refl

  next-checked :
      (p : MessagePackets x)
      → Ready p.first_kind p.rx.packets
      → (checked_next x p ≡ some (next x p)) × StaysReady (next x p)
  unfolding checked_next next
  next-checked p ready = next_at p.done p ready

  go_on-checked :
      (again : MessagePackets x → Option (List (Next x))) (plain : MessagePackets x → List (Next x))
      (o : Next x)
      → ((p : MessagePackets x) → Ready p.first_kind p.rx.packets → again p ≡ some (plain p))
      → StaysReady o
      → checked_go_on x again o ≡ some (go_on x plain o)
  unfolding checked_go_on go_on
  go_on-checked again plain (returned r p) same ready = same p ready
  go_on-checked again plain panicked same ready = refl
  go_on-checked again plain unfinished same ready = refl

  nexts-checked :
      (calls : ℕ) (p : MessagePackets x)
      → Ready p.first_kind p.rx.packets
      → checked_nexts x calls p ≡ some (nexts x calls p)
  unfolding checked_nexts nexts
  nexts-checked zero p ready = refl
  nexts-checked (suc calls) p ready =
      let (same, later) = next-checked p ready in
      rw
        (
          same,
          go_on-checked (checked_nexts x calls) (nexts x calls) (next x p) (nexts-checked calls)
              later,
        )
        refl

  opened-Fits :
      (r : Result PacketHeader (Error x)) (rx : PacketRx x) (m : Message x)
      → opened x r ≡ ok m
      → Readable x b (r, rx)
      → Fits rx
  unfolding opened
  opened-Fits (ok h) rx m e fits = fits
  opened-Fits (err q) rx m e fits = absurd cc

  read_message-Fits :
      (rx rx' : MessageRx x) (m : Message x) → read_message x rx ≡ (ok m, rx') → Fits rx'.packets
  unfolding read_message
  read_message-Fits rx rx' m e =
      let (r, packets') = read_packet x rx.packets in
      subst (λ q. Fits q.packets) (ap (λ q. q.1) e)
        (opened-Fits r packets' m (ap (λ q. q.0) e) (read_packet-checked x b rx.packets).1)

  -- Over any stream and any cipher that keeps to its buffers, as snow documents, for a message
  -- that read_message returned, from any state of the receiver, neither read_message, nor
  -- read_bytes with any number of rounds, nor any number of calls of next, errors and panics of
  -- other kinds included, takes a payload out of range: with every slice checked they come to the
  -- same results.
  pub read_bytes-next_checked :
      (rx rx' : MessageRx x) (m : Message x) (fuel calls : ℕ)
      → read_message x rx ≡ (ok m, rx')
      → (checked_read_message x rx ≡ some (ok m, rx'))
        × (checked_read_bytes x fuel m rx' ≡ some (read_bytes x fuel m rx'))
        × (checked_nexts x calls (into_packets x m rx')
            ≡ some (nexts x calls (into_packets x m rx')))
  unfolding into_packets
  read_bytes-next_checked rx rx' m fuel calls e =
      let fits = read_message-Fits rx rx' m e in
      (
        read_message-checked rx ∙ ap some e,
        read_bytes-checked fuel m rx' fits,
        nexts-checked calls (into_packets x m rx') fits,
      )
