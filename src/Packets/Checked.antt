-- ===== src/Packets/Checked.antt =====
-- The packet halves of packets.rs with every slice and every cast checked: `none` is a panic of
-- `&buf[..n]` or `&buf[n..]`, or a `n as u16` that loses bits.
pub mod Sending
pub mod Run
use snowpack.Prelude.{
  ℕ, ◌+◌, ◌^◌, ◌++◌, List, [], ◌∷◌, Bytes, Bool, Option, none, some, Result, ok, err, length, take,
  drop, resize, ltb, if◌then◌else◌, map_err,
}
use snowpack.External.Net.{Net}
use snowpack.PacketState.Header.{PacketHeader, frame_header_size, cipher_overhead_size, to_be_bytes}
use snowpack.PacketState.Reader.{read}
use snowpack.PacketState.Builder.{PacketBuildError, pack, abort}
use snowpack.Packets.Error.{Error, noise, packet, packet_builder}
use snowpack.Packets.Frame.{Writer, flush_frame, reserve, read_frame}
use snowpack.Packets.Tx.{PacketTx, prepare_message}
use snowpack.Packets.Rx.{PacketRx, empty_payload}
use snowpack.Packets.Shared.{
  Endpoint, Event, Answer, prepares, sends, aborts, reads, sent, got, with_tx, with_rx,
}

infixl 5 ◌>>=◌
abbrev pub ◌>>=◌ {ℓ} : {A B : Type ℓ} → Option A → (A → Option B) → Option B
none >>= f = none
some a >>= f = f a

-- `&buf[..n]` and `&buf[n..]`.
unfoldable pub slice_to : ℕ → Bytes → Option Bytes
slice_to n buf = if ltb (length buf) n then none else some (take n buf)

unfoldable pub slice_from : ℕ → Bytes → Option Bytes
slice_from n buf = if ltb (length buf) n then none else some (drop n buf)

-- `n as u16`.
unfoldable pub as_u16 : ℕ → Option ℕ
as_u16 n = if ltb n (2 ^ 16) then some n else none

-- The length in front of the `n` bytes, and both of them.
unfoldable pub checked_prefix : ℕ → Bytes → Option (Bytes × Bytes)
unfolding slice_to as_u16
checked_prefix n buf = do
  front ← slice_to frame_header_size buf
  len ← as_u16 n
  let buf' = to_be_bytes len ++ drop frame_header_size buf
  out ← slice_to (frame_header_size + n) buf'
  some (buf', out)

module _ (x : Net) where
  abbrev pub Wrote : Type 0
  Wrote = Result (Unit {0}) (Error x) × Writer x

  unfoldable pub checked_send_frame : Result ℕ x.SnowError → Writer x → Option Wrote
  unfolding checked_prefix
  checked_send_frame (err e) w = some (err (noise e), w)
  checked_send_frame (ok n) w = do
    q ← checked_prefix n w.write_buf
    let (wrote, write') = x.write_all w.write q.1
    let (r, write'') = flush_frame x wrote write'
    some (r, record w { write = write''; write_buf = q.0 })

  unfoldable pub checked_write_packet : Bytes → Writer x → Option Wrote
  unfolding slice_from checked_send_frame
  checked_write_packet plaintext w = do
    let frame_len = frame_header_size + (length plaintext + cipher_overhead_size)
    let buf = reserve x frame_len w.write_buf
    room ← slice_from frame_header_size buf
    let (n, body, cipher') = x.write_message w.cipher plaintext room
    checked_send_frame n
        (record w { cipher = cipher'; write_buf = take frame_header_size buf ++ body })

  abbrev pub Sent : Type 0
  Sent = Result (Unit {0}) (Error x) × PacketTx x

  unfoldable pub checked_write_out : Bytes → PacketTx x → Option Sent
  unfolding checked_write_packet
  checked_write_out plaintext tx = do
    q ← checked_write_packet plaintext tx.writer
    some (q.0, record tx { writer = q.1 })

  unfoldable pub checked_packed : Result Bytes PacketBuildError → PacketTx x → Option Sent
  checked_packed (ok plaintext) tx = checked_write_out plaintext tx
  checked_packed (err e) tx = some (err (packet_builder e), tx)

  unfoldable pub checked_send_packet : Bytes → Bool → PacketTx x → Option Sent
  unfolding checked_packed
  checked_send_packet payload is_last tx =
      let (r, builder') = pack tx.builder payload is_last in
      checked_packed r (record tx { builder = builder' })

  unfoldable pub checked_abort_packet : Option Bytes → PacketTx x → Option Sent
  checked_abort_packet none tx = some (ok tt, tx)
  checked_abort_packet (some plaintext) tx = checked_write_out plaintext tx

  unfoldable pub checked_abort_message : PacketTx x → Option Sent
  unfolding checked_abort_packet
  checked_abort_message tx =
      let (r, builder') = abort tx.builder in
      checked_abort_packet r (record tx { builder = builder' })

  abbrev pub Got : Type 0
  Got = Result PacketHeader (Error x) × PacketRx x

  unfoldable pub checked_decode : Result ℕ x.SnowError → PacketRx x → Option Got
  unfolding slice_to
  checked_decode (err e) rx = some (err (noise e), rx)
  checked_decode (ok n) rx = do
    plaintext ← slice_to n rx.plaintext_buf
    let (header, reader') = read rx.packet_reader plaintext
    some (map_err packet header, record rx { packet_reader = reader'; payload_end = n })

  unfoldable pub checked_decrypt : Result (Unit {0}) (Error x) → PacketRx x → Option Got
  unfolding checked_decode
  checked_decrypt (err e) rx = some (err e, rx)
  checked_decrypt (ok read) rx =
      let buffer = resize (length rx.ciphertext_buf) rx.plaintext_buf in
      let (n, plaintext', cipher') = x.read_message rx.cipher rx.ciphertext_buf buffer in
      checked_decode n (record rx { cipher = cipher'; plaintext_buf = plaintext' })

  unfoldable pub checked_read_packet : PacketRx x → Option Got
  unfolding checked_decrypt
  checked_read_packet rx =
      let (r, buffer', input') = read_frame x rx.input rx.ciphertext_buf in
      checked_decrypt r (record rx { input = input'; ciphertext_buf = buffer' })

  -- `&self.plaintext_buf[2..self.payload_end]`.
  unfoldable pub checked_payload : PacketRx x → Option Bytes
  unfolding slice_to
  checked_payload rx =
      if ltb 2 rx.payload_end
      then (do front ← slice_to rx.payload_end rx.plaintext_buf; some (drop 2 front))
      else some empty_payload

  unfoldable pub checked_with_payload :
      Result PacketHeader (Error x) → PacketRx x → Option (Result (PacketHeader × Bytes) (Error x))
  unfolding checked_payload
  checked_with_payload (err e) rx = some (err e)
  checked_with_payload (ok header) rx = do bytes ← checked_payload rx; some (ok (header, bytes))

  abbrev pub Next : Type 0
  Next = Option (Answer x × Endpoint x)

  unfoldable pub checked_tx : Endpoint x → Option Sent → Next
  checked_tx ep called = do
    q ← called
    some (sent q.0, record { tx = q.1; rx = with_rx x q.1.writer.cipher ep.rx })

  unfoldable pub checked_rx : Endpoint x → Next
  unfolding checked_read_packet checked_with_payload
  checked_rx ep = do
    q ← checked_read_packet ep.rx
    r ← checked_with_payload q.0 q.1
    some (got r, record { tx = with_tx x q.1.cipher ep.tx; rx = q.1 })

  -- A call on an endpoint.
  unfoldable pub checked : Event x → Endpoint x → Next
  unfolding checked_tx checked_rx checked_send_packet checked_abort_message
  checked (prepares t) ep = checked_tx ep (some (prepare_message x t ep.tx))
  checked (sends payload last) ep = checked_tx ep (checked_send_packet payload last ep.tx)
  checked aborts ep = checked_tx ep (checked_abort_message ep.tx)
  checked reads ep = checked_rx ep

  unfoldable pub checked_run : List (Event x) → Endpoint x → Option (List (Answer x) × Endpoint x)
  unfolding checked
  checked_run [] ep = some ([], ep)
  checked_run (event ∷ events) ep = do
    q ← checked event ep
    rest ← checked_run events q.1
    some (q.0 ∷ rest.0, rest.1)
