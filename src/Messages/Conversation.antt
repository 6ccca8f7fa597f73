-- ===== src/Messages/Conversation.antt =====
-- A run of messages from one end of a healthy connection to the other (messages.rs).
use snowpack.Prelude.{
  ℕ, ◌+◌, ◌<◌, ◌≤◌, ◌≡◌, refl, sym, ap, subst, ◌∙◌, ◌++◌, [], ◌∷◌, List, append-nil, append_assoc,
  Bytes, true, false, ok, length, arith,
}
use snowpack.External.Net.{Net, IsHealthy}
use snowpack.Packets.Exec.{◌>>◌, pure}
use snowpack.PacketState.Header.{max_packet_size}
use snowpack.Packets.Tx.{PacketTx, Send, chunks}
use snowpack.Packets.Chunks.{payloads, concat, concat-payloads, AllSmall-payloads, or_empty}
use snowpack.Packets.Sending.{
  message_packets, frames, cipher_after, Sent, AllSmall, left-cipher_after, length-message_packets,
}
use snowpack.Packets.Receiving.{Facing}
use snowpack.Messages.{MessageRx, send_message}
use snowpack.Messages.Sending.{send_message-ok}
use snowpack.Messages.Delivery.{Delivers, read-message_packets}

-- A message: its type and its body.
abbrev pub Letter : Type 0
Letter = ℕ × Bytes

-- The packets that messages take.
abbrev pub total_packets : List Letter → ℕ
total_packets [] = 0
total_packets ((t, body) ∷ ms) = length (payloads body) + total_packets ms

-- Message types of 12 bits, and a reading loop with a round for every packet of a message.
abbrev pub AllReadable : ℕ → List Letter → Type 0
AllReadable fuel [] = Unit {0}
AllReadable fuel ((t, body) ∷ ms) =
    (t < 4096) × (length (payloads body) ≤ fuel) × AllReadable fuel ms

module _ (x : Net) where
  -- One call of `send_message` after the other.
  unfoldable pub send_all : List Letter → Send x
  send_all [] = pure tt
  send_all ((t, body) ∷ ms) = do send_message x t body; send_all ms

module _ (x : Net) (e : IsHealthy x) where
  open e use {left, written}

  -- Both ends are between messages, and the receiver has a stream to read from here on.
  pub record Connected (tx : PacketTx x) (stream : Bytes) (rx : MessageRx x) : Type 0 where
    pub sender_idle : tx.builder.in_progress ≡ false
    pub receiver_idle : rx.packets.packet_reader.in_progress ≡ false
    pub facing : Facing x e tx.writer.cipher stream rx.packets

  -- The receiver reads these messages one after the other, with `read_message` and `read_bytes`.
  pub data ReadsAll (fuel : ℕ) : List Letter → MessageRx x → MessageRx x → Type 0 where
    finish : (rx : MessageRx x) → ReadsAll fuel [] rx rx
    deliver :
        {t : ℕ} {body : Bytes} {ms : List Letter} {rx rx₁ rx₂ : MessageRx x}
        → Delivers x e fuel t body rx rx₁
        → ReadsAll fuel ms rx₁ rx₂
        → ReadsAll fuel ((t, body) ∷ ms) rx rx₂

  -- One message.
  delivery :
      (fuel : ℕ) (tx : PacketTx x) (t : ℕ) (rest : Bytes) (rx : MessageRx x) (c : Bytes)
      (cs : List Bytes)
      → t < 4096
      → Connected tx (frames x e tx.writer.cipher (message_packets true true t (c ∷ cs)) ++ rest) rx
      → length (c ∷ cs) ≤ left tx.writer.cipher
      → AllSmall (c ∷ cs)
      → length (c ∷ cs) ≤ fuel
      → (rx' : MessageRx x) × Delivers x e fuel t (concat (c ∷ cs)) rx rx'
        × (rx'.packets.packet_reader.in_progress ≡ false)
        × Facing x e
            (cipher_after x e tx.writer.cipher (message_packets true true t (c ∷ cs)))
            rest
            rx'.packets
  delivery fuel tx t rest rx c cs h con room small f =
      let (rx', r', got, idle, at) =
        read-message_packets x e fuel tx.writer.cipher t c cs rest rx.packets.packet_reader rx h
          con.receiver_idle (record { facing = con.facing; reader = refl }) room small
          (omega arith) in
      (rx', got, ap (λ r. r.in_progress) at.reader ∙ idle, at.facing)

  delivery_of :
      (fuel : ℕ) (tx : PacketTx x) (t : ℕ) (rest : Bytes) (rx : MessageRx x) (cs : List Bytes)
      → t < 4096
      → Connected tx
          (frames x e tx.writer.cipher (message_packets true true t (or_empty cs)) ++ rest)
          rx
      → length (or_empty cs) ≤ left tx.writer.cipher
      → AllSmall (or_empty cs)
      → length (or_empty cs) ≤ fuel
      → (rx' : MessageRx x) × Delivers x e fuel t (concat (or_empty cs)) rx rx'
        × (rx'.packets.packet_reader.in_progress ≡ false)
        × Facing x e
            (cipher_after x e tx.writer.cipher (message_packets true true t (or_empty cs)))
            rest
            rx'.packets
  delivery_of fuel tx t rest rx [] = delivery fuel tx t rest rx [] []
  delivery_of fuel tx t rest rx (c ∷ cs) = delivery fuel tx t rest rx c cs

  -- A message from a connected sender arrives, and the two ends are connected again.
  pub deliver-send_message :
      (fuel : ℕ) (tx tx' : PacketTx x) (t : ℕ) (body rest : Bytes) (rx : MessageRx x)
      → t < 4096
      → length (payloads body) ≤ fuel
      → length (payloads body) ≤ left tx.writer.cipher
      → Sent x e (message_packets true true t (payloads body)) tx.writer tx'.writer
      → tx'.builder.in_progress ≡ false
      → Connected tx
          (frames x e tx.writer.cipher (message_packets true true t (payloads body)) ++ rest)
          rx
      → (rx' : MessageRx x) × Delivers x e fuel t body rx rx' × Connected tx' rest rx'
  unfolding payloads
  deliver-send_message fuel tx tx' t body rest rx h f room sent done con =
      let (rx', got, idle, face) =
        delivery_of fuel tx t rest rx (chunks max_packet_size body) h con room
          (AllSmall-payloads body) f in
      (
        rx',
        subst (λ b. Delivers x e fuel t b rx rx') (concat-payloads body) got,
        record {
          sender_idle = done;
          receiver_idle = idle;
          facing = subst (λ c. Facing x e c rest rx'.packets) (sym sent.cipher) face;
        },
      )

  left_over :
      (tx tx' : PacketTx x) (t n : ℕ) (body : Bytes)
      → length (payloads body) + n ≤ left tx.writer.cipher
      → Sent x e (message_packets true true t (payloads body)) tx.writer tx'.writer
      → n ≤ left tx'.writer.cipher
  left_over tx tx' t n body room sent =
      let ps = message_packets true true t (payloads body) in
      let count = length-message_packets true true t (payloads body) in
      omega (
        arith,
        count,
        ap left sent.cipher,
        left-cipher_after x e tx.writer.cipher ps (omega (arith, count)),
      )

  -- Over a healthy connection, a list of messages with 12-bit types, sent by an idle half whose
  -- cipher has enough nonces left, is sent whole without an error, and a connected idle receiver
  -- of what was written reads exactly these messages, types and bodies, in order, with at most as
  -- many rounds for each as it has packets; both ends are then connected and idle again.
  pub ReadsAll-send_all :
      (fuel : ℕ) (ms : List Letter) (tx : PacketTx x)
      → AllReadable fuel ms
      → total_packets ms ≤ left tx.writer.cipher
      → tx.builder.in_progress ≡ false
      → (tx' : PacketTx x) × (wire : Bytes) × (send_all x ms tx ≡ (ok tt, tx'))
        × (written tx'.writer.write ≡ written tx.writer.write ++ wire)
        × ((rx : MessageRx x) (rest : Bytes)
            → Connected tx (wire ++ rest) rx
            → (rx' : MessageRx x) × ReadsAll fuel ms rx rx' × Connected tx' rest rx')
  unfolding send_all
  ReadsAll-send_all fuel [] tx readable room idle =
      (tx, [], refl, sym (append-nil (written tx.writer.write)), λ rx rest c. (rx, finish rx, c))
  ReadsAll-send_all fuel ((t, body) ∷ ms) tx readable room idle =
      let (tx₁, done₁, at₁, sent₁) = send_message-ok x e tx t body readable.0 idle (omega arith) in
      let room₁ = left_over tx tx₁ t (total_packets ms) body room sent₁ in
      let (tx₂, wire₂, done₂, out₂, reads₂) =
        ReadsAll-send_all fuel ms tx₁ readable.2 room₁ at₁.progress in
      let wire₁ = frames x e tx.writer.cipher (message_packets true true t (payloads body)) in
      (
        tx₂,
        wire₁ ++ wire₂,
        rw (done₁, done₂),
        out₂
            ∙ ap (λ z. z ++ wire₂) sent₁.output
            ∙ append_assoc (written tx.writer.write) wire₁ wire₂,
        λ rx rest c.
            let c₁ = subst (λ s. Connected tx s rx) (append_assoc wire₁ wire₂ rest) c in
            let (rx₁, got₁, con₁) =
              deliver-send_message fuel tx tx₁ t body (wire₂ ++ rest) rx readable.0 readable.1
                (omega arith) sent₁ at₁.progress c₁ in
            let (rx₂, got₂, con₂) = reads₂ rx₁ rest con₁ in (rx₂, deliver got₁ got₂, con₂),
      )
