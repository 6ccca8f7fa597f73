-- ===== src/Packets/Checked/Run.antt =====
-- No slice of the packet halves of packets.rs is out of range, in any order of calls.
use snowpack.Prelude.{
  ℕ, ◌≤◌, ◌≡◌, refl, List, [], ◌∷◌, some, Result, ok, err, length, resize, arith, map_err,
}
use snowpack.External.Net.{Net}
use snowpack.External.InBounds.{InBounds}
use snowpack.PacketState.Header.{PacketReadError, PacketHeader}
use snowpack.Packets.Error.{Error, packet}
use snowpack.Packets.Frame.{read_frame}
use snowpack.Packets.Rx.{PacketRx, read_packet, decrypt, decode, payload}
use snowpack.Packets.Checked.{checked_decode, checked_decrypt, checked_read_packet, checked_payload}
use snowpack.Packets.Checked.Sending.{slice_to-ok, send_packet-checked, abort_message-checked}
use snowpack.Packets.Checked.{checked, checked_run, checked_tx, checked_rx, checked_with_payload}
use snowpack.Packets.Shared.{
  Endpoint, Event, prepares, sends, aborts, reads, shared, shared_tx, shared_rx, with_payload,
  run_all,
}

module _ (x : Net) (b : InBounds x) where
  -- A payload is cut out of the buffer only after a read that went well.
  abbrev pub Readable : Result PacketHeader (Error x) × PacketRx x → Type 0
  Readable (err e, rx) = Unit
  Readable (ok header, rx) = rx.payload_end ≤ length rx.plaintext_buf

  Readable-packet :
      (header : Result PacketHeader PacketReadError) (rx : PacketRx x)
      → rx.payload_end ≤ length rx.plaintext_buf
      → Readable (map_err packet header, rx)
  Readable-packet (ok h) rx fits = fits
  Readable-packet (err e) rx fits = tt

  decode-checked :
      (r : Result ℕ x.SnowError) (rx : PacketRx x)
      → ((n : ℕ) → r ≡ ok n → n ≤ length rx.plaintext_buf)
      → (checked_decode x r rx ≡ some (decode x r rx)) × Readable (decode x r rx)
  unfolding checked_decode decode
  decode-checked (err e) rx fits = (refl, tt)
  decode-checked (ok n) rx fits =
      (rw (slice_to-ok n rx.plaintext_buf (fits n refl)) refl, Readable-packet _ _ (fits n refl))

  decrypt-checked :
      (r : Result (Unit {0}) (Error x)) (rx : PacketRx x)
      → (checked_decrypt x r rx ≡ some (decrypt x r rx)) × Readable (decrypt x r rx)
  unfolding checked_decrypt decrypt
  decrypt-checked (err e) rx = (refl, tt)
  decrypt-checked (ok done) rx =
      let buffer = resize (length rx.ciphertext_buf) rx.plaintext_buf in
      decode-checked _ _ (λ n e. omega (
        arith,
        b.read_message-le rx.cipher rx.ciphertext_buf buffer n e,
        b.read_message-length rx.cipher rx.ciphertext_buf buffer,
      ))

  pub read_packet-checked :
      (rx : PacketRx x)
      → (checked_read_packet x rx ≡ some (read_packet x rx)) × Readable (read_packet x rx)
  unfolding checked_read_packet read_packet
  read_packet-checked rx = decrypt-checked (read_frame x rx.input rx.ciphertext_buf).0 _

  pub payload-checked :
      (rx : PacketRx x)
      → rx.payload_end ≤ length rx.plaintext_buf
      → checked_payload x rx ≡ some (payload x rx)
  unfolding checked_payload payload
  payload-checked rx fits = ground (arith, slice_to-ok rx.payload_end rx.plaintext_buf fits)

  with_payload-checked :
      (r : Result PacketHeader (Error x)) (rx : PacketRx x)
      → Readable (r, rx)
      → checked_with_payload x r rx ≡ some (with_payload x r rx)
  unfolding checked_with_payload with_payload
  with_payload-checked (err e) rx fits = refl
  with_payload-checked (ok header) rx fits = rw (payload-checked rx fits) refl

  event-checked :
      (event : Event x) (ep : Endpoint x) → checked x event ep ≡ some (shared x event ep)
  unfolding checked shared checked_tx checked_rx shared_tx shared_rx
  event-checked (prepares t) ep = refl
  event-checked (sends payload last) ep = rw (send_packet-checked x b payload last ep.tx) refl
  event-checked aborts ep = rw (abort_message-checked x b ep.tx) refl
  event-checked reads ep =
      let (same, fits) = read_packet-checked ep.rx in
      let (r, rx') = read_packet x ep.rx in rw (same, with_payload-checked r rx' fits) refl

  -- Over any stream and any cipher that keeps to its buffers, and refuses a message above 65,535
  -- bytes, as snow documents, in any order of calls of prepare_message, send_packet, abort_message
  -- and read_packet on the two halves, where payload is taken behind each read_packet that
  -- succeeded, and behind no other, no slice of a buffer is out of range, and no length of a frame
  -- loses bits as a u16: the calls with every slice and cast checked give the answers and the
  -- halves of the calls themselves.
  pub run_all-checked :
      (events : List (Event x)) (ep : Endpoint x)
      → checked_run x events ep ≡ some (run_all x (shared x) events ep)
  unfolding checked_run run_all
  run_all-checked [] ep = refl
  run_all-checked (event ∷ events) ep =
      rw (event-checked event ep, run_all-checked events (shared x event ep).1) refl
