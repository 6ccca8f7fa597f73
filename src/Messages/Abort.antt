-- ===== src/Messages/Abort.antt =====
-- A message that is abandoned half-way (messages.rs): `abort_message`, and what its reader sees.
use snowpack.Prelude.{
  ℕ, ◌+◌, ◌<◌, ◌≤◌, ◌≡◌, sym, subst, ap, [], ◌∷◌, List, ◌++◌, Bytes, true, false, ok, err, length,
  arith,
}
use snowpack.External.Net.{Net, IsHealthy}
use snowpack.PacketState.Header.{max_packet_size}
use snowpack.Packets.Error.{message_aborted}
use snowpack.Packets.Exec.{◌>>◌}
use snowpack.Packets.Tx.{PacketTx, prepare_message, send_slice, chunks}
use snowpack.Packets.Chunks.{payloads, or_empty, AllSmall-payloads}
use snowpack.Packets.Sending.{AllSmall, message_packets, frames, cipher_after}
use snowpack.Packets.Receiving.{Facing, closed}
use snowpack.Messages.{Message, MessageRx, returned, abort_message, read_message, read_bytes}
use snowpack.Messages.Delivery.{At}
use snowpack.Messages.Conversation.{Connected}
use snowpack.Messages.Abandoning.{abort_of, abandons}
use snowpack.Messages.Aborted.{abort_seen}

module _ (x : Net) (e : IsHealthy x) where
  open e use {left, written}

  still_facing :
      (tx' : PacketTx x) (t : x.Cipher) (rest : Bytes) (rx' : MessageRx x)
      → tx'.builder.in_progress ≡ false
      → tx'.writer.cipher ≡ t
      → At x e t rest closed rx'
      → Connected x e tx' rest rx'
  still_facing tx' t rest rx' idle same at = record {
    sender_idle = idle;
    receiver_idle = ap (λ r. r.in_progress) at.reader;
    facing = subst (λ c. Facing x e c rest rx'.packets) (sym same) at.facing;
  }

  -- What the receiver of an abandoned message sees.
  pub record SeesAbort (fuel : ℕ) (rx rx' : MessageRx x) : Type 0 where
    pub handle : Message x
    pub opened : MessageRx x
    pub reads : read_message x rx ≡ (ok handle, opened)
    pub fails : read_bytes x fuel handle opened ≡ returned (err message_aborted) rx'

  seen_by_chunks :
      (fuel : ℕ) (tx tx' : PacketTx x) (ty : ℕ) (cs : List Bytes) (rest : Bytes) (rx : MessageRx x)
      → ty < 4096
      → Connected x e tx
          (frames x e tx.writer.cipher
              (message_packets true false ty (or_empty cs) ++ abort_of ty ∷ [])
            ++ rest)
          rx
      → length (or_empty cs) + 1 ≤ left tx.writer.cipher
      → AllSmall (or_empty cs)
      → length (or_empty cs) ≤ fuel
      → tx'.builder.in_progress ≡ false
      → tx'.writer.cipher
        ≡ cipher_after x e tx.writer.cipher
            (message_packets true false ty (or_empty cs) ++ abort_of ty ∷ [])
      → (rx' : MessageRx x) × SeesAbort fuel rx rx' × Connected x e tx' rest rx'
  seen_by_chunks fuel tx tx' ty [] rest rx h con room small f idle same =
      let (m, rx₁, rx', took, failed, at) =
        abort_seen x e fuel tx.writer.cipher ty [] [] rest rx h con.receiver_idle con.facing room
          small (omega arith) in
      (
        rx',
        record { handle = m; opened = rx₁; reads = took; fails = failed },
        still_facing tx' _ rest rx' idle same at,
      )
  seen_by_chunks fuel tx tx' ty (c ∷ cs) rest rx h con room small f idle same =
      let (m, rx₁, rx', took, failed, at) =
        abort_seen x e fuel tx.writer.cipher ty c cs rest rx h con.receiver_idle con.facing room
          small (omega arith) in
      (
        rx',
        record { handle = m; opened = rx₁; reads = took; fails = failed },
        still_facing tx' _ rest rx' idle same at,
      )

  -- Over a healthy connection, an idle sender with enough nonces that prepares a message, sends a
  -- part of it and abandons it, under a 12-bit type, does so without an error; a connected idle
  -- receiver with as many rounds as the part has packets gets a handle for the message and then
  -- MessageAborted, and both ends are connected and idle again.
  pub SeesAbort-abort_message :
      (fuel : ℕ) (tx : PacketTx x) (ty : ℕ) (part : Bytes)
      → ty < 4096
      → tx.builder.in_progress ≡ false
      → length (payloads part) + 1 ≤ left tx.writer.cipher
      → length (payloads part) ≤ fuel
      → (tx' : PacketTx x) × (wire : Bytes) × ((do
        prepare_message x ty
        send_slice x part false
        abort_message x)
            tx
          ≡ (ok tt, tx'))
        × (written tx'.writer.write ≡ written tx.writer.write ++ wire)
        × ((rx : MessageRx x) (rest : Bytes)
            → Connected x e tx (wire ++ rest) rx
            → (rx' : MessageRx x) × SeesAbort fuel rx rx' × Connected x e tx' rest rx')
  unfolding payloads
  SeesAbort-abort_message fuel tx ty part h idle room f =
      let (tx', done, idle', sent) = abandons x e tx ty part h idle room in
      (
        tx',
        frames x e tx.writer.cipher
            (message_packets true false ty (payloads part) ++ abort_of ty ∷ []),
        done,
        sent.output,
        λ rx rest con.
            seen_by_chunks fuel tx tx' ty (chunks max_packet_size part) rest rx h con room
              (AllSmall-payloads part) f idle' sent.cipher,
      )
