-- ===== src/Messages/Abandoning.antt =====
-- The sender of a message that is abandoned half-way (messages.rs).
use snowpack.Prelude.{
  ℕ, ◌+◌, ◌<◌, ◌≤◌, ◌≡◌, refl, sym, subst, ap, ◌∙◌, [], ◌∷◌, ◌++◌, Bytes, Bool, true, false, some,
  ok, length, arith,
}
use snowpack.External.Net.{Net, IsHealthy}
use snowpack.PacketState.Header.{PacketKind, to_be_bytes}
use snowpack.PacketState.Builder.{PacketBuilder, abort}
use snowpack.PacketState.Protocol.{packet}
use snowpack.Packets.Exec.{◌>>◌}
use snowpack.Packets.Tx.{PacketTx, prepare_message, send_slice, chunks, abort_packet}
use snowpack.Packets.Tx
use snowpack.Packets.Chunks.{payloads}
use snowpack.Packets.Sending.{
  BuilderAt, Sent, Sent-append, message_packets, length-message_packets, write_out-ok,
  left-cipher_after,
}
use snowpack.Messages.{abort_message}
use snowpack.Messages.Sending.{prepare_message-ok, send_slice-ok}

-- The packet of an abort.
abbrev pub abort_of : ℕ → Bytes
abort_of t = packet PacketKind.abort t []

abort-at :
    (b : PacketBuilder) (f : Bool) (t : ℕ)
    → BuilderAt b true f t
    → ((abort b).0 ≡ some (abort_of t)) × ((abort b).1.in_progress ≡ false)
unfolding abort to_be_bytes
abort-at b f t s = rw (s.progress, s.type) (refl, refl)

module _ (x : Net) (e : IsHealthy x) where
  open e use {left}

  -- The sender inside a message.
  abort_message-ok :
      (tx : PacketTx x) (f : Bool) (t : ℕ)
      → BuilderAt tx.builder true f t
      → 0 < left tx.writer.cipher
      → (tx' : PacketTx x) × (abort_message x tx ≡ (ok tt, tx'))
        × (tx'.builder.in_progress ≡ false)
        × Sent x e (abort_of t ∷ []) tx.writer tx'.writer
  unfolding abort_message Tx.abort_message abort_packet to_be_bytes
  abort_message-ok tx f t at room =
      let (packed, shut) = abort-at tx.builder f t at in
      let tx₁ : PacketTx x = record tx { builder = (abort tx.builder).1 } in
      let (tx', done, same, sent) = write_out-ok x e tx₁ (abort_of t) room (omega arith) in
      (tx', rw (packed, done), ap (λ b. b.in_progress) same ∙ shut, sent)

  -- The sender: a message is prepared, a part of it goes out, and it is abandoned.
  pub abandons :
      (tx : PacketTx x) (ty : ℕ) (part : Bytes)
      → ty < 4096
      → tx.builder.in_progress ≡ false
      → length (payloads part) + 1 ≤ left tx.writer.cipher
      → (tx' : PacketTx x) × ((do prepare_message x ty; send_slice x part false; abort_message x) tx
          ≡ (ok tt, tx'))
        × (tx'.builder.in_progress ≡ false)
        × Sent x e
            (message_packets true false ty (payloads part) ++ abort_of ty ∷ [])
            tx.writer
            tx'.writer
  abandons tx ty part h idle room =
      let ps = message_packets true false ty (payloads part) in
      let count = length-message_packets true false ty (payloads part) in
      let (tx₁, ready, at₁, same) = prepare_message-ok x tx ty h idle in
      let room₁ = subst (λ w. length (payloads part) + 1 ≤ left w.cipher) (sym same) room in
      let (tx₂, part_done, at₂, sent₂) =
        send_slice-ok x e tx₁ true false ty part at₁ (omega arith) in
      let room₂ : 0 < left tx₂.writer.cipher = omega (
        arith,
        ap left sent₂.cipher,
        count,
        left-cipher_after x e tx₁.writer.cipher ps (omega (arith, count)),
      ) in
      let (tx₃, done, idle₃, sent₃) = abort_message-ok tx₂ false ty at₂ room₂ in
      (
        tx₃,
        rw (ready, part_done, done),
        idle₃,
        subst (λ w. Sent x e (ps ++ abort_of ty ∷ []) w tx₃.writer) same
            (Sent-append x e sent₂ sent₃),
      )
