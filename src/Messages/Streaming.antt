-- ===== src/Messages/Streaming.antt =====
-- `MessageTx::send_reader` of messages.rs over a healthy connection.
use snowpack.Prelude.{
  ℕ, ◌%◌, ◌<◌, ◌≤◌, ◌≡◌, sym, subst, ap, ◌∙◌, inl, ◌++◌, Bytes, true, false, not, some, ok, err,
  length, ltb, if◌then◌else◌, arith,
}
use snowpack.External.Net.{Net, IsHealthy}
use snowpack.PacketState.Header.{type_mask, max_packet_size}
use snowpack.PacketState.Builder.{message_already_in_progress, message_type_too_large}
use snowpack.Packets.Error.{packet_builder}
use snowpack.Packets.Tx.{PacketTx}
use snowpack.Packets.Chunks.{payloads}
use snowpack.Packets.Rounds.{closes}
use snowpack.Packets.Streaming.{send_reader-ok}
use snowpack.Packets.Sending.{Sent, message_packets, frames}
use snowpack.Messages.{MessageRx, send_reader, then_reader, send_message}
use snowpack.Messages.Sending.{prepare_message-ok, send_message_refused}
use snowpack.Messages.Delivery.{Delivers}
use snowpack.Messages.Conversation.{Connected, deliver-send_message}

module _ (x : Net) (e : IsHealthy x) where
  open e use {left, content, written}

  -- A message from a source, of an idle half.
  streams :
      (rounds : ℕ) (t : ℕ) (source : x.Source) (tx : PacketTx x)
      → t < 4096
      → tx.builder.in_progress ≡ false
      → length (payloads (content source)) ≤ left tx.writer.cipher
      → length (content source) < rounds
      → (tx' : PacketTx x) × (send_reader x rounds t source tx ≡ some (ok tt, tx'))
        × Sent x e
            (message_packets true (closes (content source)) t (payloads (content source)))
            tx.writer
            tx'.writer
        × (tx'.builder.in_progress ≡ not (closes (content source)))
  unfolding send_reader then_reader
  streams rounds t source tx h idle room enough =
      let (tx₁, ready, at, same) = prepare_message-ok x tx t h idle in
      let (tx₂, done, sent, progress) =
        send_reader-ok x e rounds source t tx₁ at
          (subst (λ w. length (payloads (content source)) ≤ left w.cipher) (sym same) room)
          enough in
      let packets = message_packets true (closes (content source)) t (payloads (content source)) in
      (tx₂, rw (ready, done), subst (λ w. Sent x e packets w tx₂.writer) same sent, progress)

  -- Over a healthy connection, a source whose data are empty or do not fill every packet, sent by
  -- an idle half with a 12-bit type, enough nonces and a round more than there are bytes, is sent
  -- without an error, and a connected idle receiver of what was written with as many rounds as
  -- there are packets reads the data whole; both ends are connected and idle again.
  pub Delivers-send_reader :
      (rounds fuel : ℕ) (t : ℕ) (source : x.Source) (tx : PacketTx x)
      → t < 4096
      → tx.builder.in_progress ≡ false
      → length (payloads (content source)) ≤ left tx.writer.cipher
      → length (content source) < rounds
      → length (payloads (content source)) ≤ fuel
      → closes (content source) ≡ true
      → (tx' : PacketTx x) × (wire : Bytes) × (send_reader x rounds t source tx ≡ some (ok tt, tx'))
        × (written tx'.writer.write ≡ written tx.writer.write ++ wire)
        × ((rx : MessageRx x) (rest : Bytes)
            → Connected x e tx (wire ++ rest) rx
            → (rx' : MessageRx x) × Delivers x e fuel t (content source) rx rx'
              × Connected x e tx' rest rx')
  Delivers-send_reader rounds fuel t source tx h idle room enough f whole =
      let (tx', done, sent₁, progress) = streams rounds t source tx h idle room enough in
      let body = content source in
      let sent =
        subst (λ z. Sent x e (message_packets true z t (payloads body)) tx.writer tx'.writer) whole
          sent₁ in
      (
        tx',
        frames x e tx.writer.cipher (message_packets true true t (payloads body)),
        done,
        sent.output,
        λ rx rest con.
            deliver-send_message x e fuel tx tx' t body rest rx h f room sent
              (progress ∙ ap not whole) con,
      )

  -- Over a healthy connection, a source whose data are not empty and fill every packet, sent by an
  -- idle half with 12-bit types, enough nonces and a round more than there are bytes, is sent
  -- without an error too, but no packet of it closes the message, and the half refuses the next
  -- message.
  pub send_reader_unfinished :
      (rounds : ℕ) (t t' : ℕ) (slice : Bytes) (source : x.Source) (tx : PacketTx x)
      → t < 4096
      → t' < 4096
      → tx.builder.in_progress ≡ false
      → length (payloads (content source)) ≤ left tx.writer.cipher
      → length (content source) < rounds
      → 0 < length (content source)
      → length (content source) % max_packet_size ≡ 0
      → (tx' : PacketTx x) × (send_reader x rounds t source tx ≡ some (ok tt, tx'))
        × Sent x e (message_packets true false t (payloads (content source))) tx.writer tx'.writer
        × (send_message x t' slice tx' ≡ (err (packet_builder message_already_in_progress), tx'))
  unfolding closes
  send_reader_unfinished rounds t t' slice source tx h h' idle room enough some_data full =
      let (tx', done, sent, progress) = streams rounds t source tx h idle room enough in
      let open_end : closes (content source) ≡ false = ground arith in
      let refused = send_message_refused x tx' t' slice (inl (progress ∙ ap not open_end)) in
      let small : ltb type_mask t' ≡ false = ground arith in
      (
        tx',
        done,
        subst
            (λ z.
              Sent x e (message_packets true z t (payloads (content source))) tx.writer tx'.writer)
            open_end sent,
        refused
            ∙ ap
                (λ z. (
                  err (
                      packet_builder
                        (if z then message_type_too_large t' else message_already_in_progress)),
                  tx',
                ))
                small,
      )
