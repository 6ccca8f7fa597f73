-- ===== src/Messages/Sending.antt =====
-- What the sending methods of messages.rs put on a healthy connection.
use snowpack.Prelude.{
  ℕ, ◌<◌, ◌≤◌, ◌≡◌, refl, ◌⊎◌, subst, sym, [], ◌∷◌, List, Bytes, Bool, true, false, not, ok, err,
  length, ltb, arith, if◌then◌else◌,
}
use snowpack.External.Net.{Net, IsHealthy}
use snowpack.PacketState.Header.{type_mask, max_packet_size}
use snowpack.PacketState.Builder.{
  PacketBuilder, prepare, message_type_too_large, message_already_in_progress,
}
use snowpack.Packets.Error.{packet_builder}
use snowpack.Packets.Tx.{PacketTx, chunks, prepare_message, send_slice, send_slice_chunks, prepared}
use snowpack.Packets.Chunks.{payloads, or_empty, AllSmall-payloads}
use snowpack.Packets.Sending.{
  BuilderAt, Sent, AllSmall, message_packets, send_packet-ok, send_chunks-ok,
}
use snowpack.Messages.{send_message}

-- A half between messages, and one whose first packet is still to come.
abbrev pub Idle : {x : Net} → PacketTx x → Type 0
Idle tx = tx.builder.in_progress ≡ false

prepare-at :
    (b : PacketBuilder) (t : ℕ)
    → t < 4096
    → b.in_progress ≡ false
    → ((prepare b t).0 ≡ ok tt) × BuilderAt (prepare b t).1 true true t
unfolding prepare
prepare-at b t h i = ground arith

pub prepare_message-ok :
    (x : Net) (tx : PacketTx x) (t : ℕ)
    → t < 4096
    → tx.builder.in_progress ≡ false
    → (tx' : PacketTx x) × (prepare_message x t tx ≡ (ok tt, tx'))
      × BuilderAt tx'.builder true true t
      × (tx'.writer ≡ tx.writer)
unfolding prepare_message prepared
prepare_message-ok x tx t h i =
    let (done, at) = prepare-at tx.builder t h i in
    (record tx { builder = (prepare tx.builder t).1 }, rw done, at, refl)

module _ (x : Net) (e : IsHealthy x) where
  open e use {left}

  send_slice_chunks-ok :
      (tx : PacketTx x) (f l : Bool) (t : ℕ) (cs : List Bytes)
      → BuilderAt tx.builder true f t
      → length (or_empty cs) ≤ left tx.writer.cipher
      → AllSmall (or_empty cs)
      → (tx' : PacketTx x) × (send_slice_chunks x cs l tx ≡ (ok tt, tx'))
        × BuilderAt tx'.builder (not l) false t
        × Sent x e (message_packets f l t (or_empty cs)) tx.writer tx'.writer
  unfolding send_slice_chunks message_packets
  send_slice_chunks-ok tx f l t [] s room small =
      send_packet-ok x e tx f l t [] s (omega arith) (omega arith)
  send_slice_chunks-ok tx f l t (c ∷ cs) s room small =
      send_chunks-ok x e tx f l t c cs s room small

  -- A slice goes out as its packets.
  pub send_slice-ok :
      (tx : PacketTx x) (f l : Bool) (t : ℕ) (slice : Bytes)
      → BuilderAt tx.builder true f t
      → length (payloads slice) ≤ left tx.writer.cipher
      → (tx' : PacketTx x) × (send_slice x slice l tx ≡ (ok tt, tx'))
        × BuilderAt tx'.builder (not l) false t
        × Sent x e (message_packets f l t (payloads slice)) tx.writer tx'.writer
  unfolding send_slice payloads
  send_slice-ok tx f l t slice s room =
      send_slice_chunks-ok tx f l t (chunks max_packet_size slice) s room (AllSmall-payloads slice)

  -- A message of an idle half goes out as its packets, and the half is idle again.
  pub send_message-ok :
      (tx : PacketTx x) (t : ℕ) (slice : Bytes)
      → t < 4096
      → tx.builder.in_progress ≡ false
      → length (payloads slice) ≤ left tx.writer.cipher
      → (tx' : PacketTx x) × (send_message x t slice tx ≡ (ok tt, tx'))
        × BuilderAt tx'.builder false false t
        × Sent x e (message_packets true true t (payloads slice)) tx.writer tx'.writer
  unfolding send_message
  send_message-ok tx t slice h i room =
      let (tx₁, ready, at, same) = prepare_message-ok x tx t h i in
      let (tx₂, done, at₂, sent) =
        send_slice-ok tx₁ true true t slice at
          (subst (λ w. length (payloads slice) ≤ left w.cipher) (sym same) room) in
      (
        tx₂,
        rw (ready, done),
        at₂,
        subst (λ w. Sent x e (message_packets true true t (payloads slice)) w tx₂.writer) same sent,
      )

-- A message of a type above 12 bits, or inside another message, is refused with the error that
-- says which, and neither writes nor changes anything.
pub send_message_refused :
    (x : Net) (tx : PacketTx x) (t : ℕ) (slice : Bytes)
    → (tx.builder.in_progress ≡ true) ⊎ (type_mask < t)
    → send_message x t slice tx ≡ (
      err (
          packet_builder
            (if ltb type_mask t then message_type_too_large t else message_already_in_progress)),
      tx,
    )
unfolding send_message prepare_message prepared prepare
send_message_refused x tx t slice h = ground arith
