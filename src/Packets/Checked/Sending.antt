-- ===== src/Packets/Checked/Sending.antt =====
-- No slice of the sending half of packets.rs is out of range, and no length is cut off.
use snowpack.Prelude.{
  ℕ, ◌+◌, ◌%◌, ◌^◌, ◌≤◌, ◌≡◌, refl, ◌++◌, Bytes, Bool, Option, none, some, Result, ok, err, length,
  length-append, length-take, length-drop, take, drop, length-resize, arith,
}
use snowpack.External.Net.{Net}
use snowpack.External.InBounds.{InBounds}
use snowpack.PacketState.Header.{frame_header_size, cipher_overhead_size, to_be_bytes}
use snowpack.PacketState.Builder.{PacketBuildError, pack, abort}
use snowpack.Packets.Frame.{Writer, send_frame, encrypt_frame, write_packet, reserve}
use snowpack.Packets.Tx.{PacketTx, send_packet, packed, write_out, abort_packet, abort_message}
use snowpack.Packets.Rx.{payload}
use snowpack.Packets.Checked.{
  slice_to, slice_from, as_u16, checked_prefix, checked_send_frame, checked_write_packet,
  checked_write_out, checked_packed, checked_send_packet, checked_abort_packet,
  checked_abort_message,
}

pub slice_to-ok : (n : ℕ) (buf : Bytes) → n ≤ length buf → slice_to n buf ≡ some (take n buf)
unfolding slice_to
slice_to-ok n buf h = ground arith

pub slice_from-ok : (n : ℕ) (buf : Bytes) → n ≤ length buf → slice_from n buf ≡ some (drop n buf)
unfolding slice_from
slice_from-ok n buf h = ground arith

as_u16-ok : (n : ℕ) → n ≤ 65535 → as_u16 n ≡ some (n % 2 ^ 16)
unfolding as_u16
as_u16-ok n h = let same : n % 2 ^ 16 ≡ n = omega arith in rw same (ground arith)

pub length-put_prefix :
    (k : ℕ) (buf : Bytes)
    → frame_header_size ≤ length buf
    → length (to_be_bytes k ++ drop frame_header_size buf) ≡ length buf
unfolding to_be_bytes
length-put_prefix k buf h = omega (arith, length-drop frame_header_size buf)

pub checked_prefix-ok :
    (n : ℕ) (buf : Bytes)
    → frame_header_size + n ≤ length buf
    → n ≤ 65535
    → checked_prefix n buf
      ≡ some (
        to_be_bytes (n % 2 ^ 16) ++ drop frame_header_size buf,
        take (frame_header_size + n) (to_be_bytes (n % 2 ^ 16) ++ drop frame_header_size buf),
      )
unfolding checked_prefix
checked_prefix-ok n buf h small =
    let front = to_be_bytes (n % 2 ^ 16) ++ drop frame_header_size buf in
    rw
      (
        slice_to-ok frame_header_size buf (omega arith),
        as_u16-ok n small,
        slice_to-ok (frame_header_size + n) front
            (omega (arith, length-put_prefix (n % 2 ^ 16) buf (omega arith))),
      )
      refl

module _ (x : Net) (b : InBounds x) where
  send_frame-checked :
      (r : Result ℕ x.SnowError) (w : Writer x)
      → ((n : ℕ) → r ≡ ok n → (frame_header_size + n ≤ length w.write_buf) × (n ≤ 65535))
      → checked_send_frame x r w ≡ some (send_frame x r w)
  unfolding checked_send_frame send_frame
  send_frame-checked (err e) w fits = refl
  send_frame-checked (ok n) w fits =
      rw (checked_prefix-ok n w.write_buf (fits n refl).0 (fits n refl).1) refl

  length-reserve : (n : ℕ) (buf : Bytes) → n ≤ length (reserve x n buf)
  unfolding reserve
  length-reserve n buf = ground (arith, length-resize n buf)

  write_packet-checked :
      (p : Bytes) (w : Writer x) → checked_write_packet x p w ≡ some (write_packet x p w)
  unfolding checked_write_packet write_packet encrypt_frame
  write_packet-checked p w =
      let frame_len = frame_header_size + (length p + cipher_overhead_size) in
      let buf = reserve x frame_len w.write_buf in
      let room = length-reserve frame_len w.write_buf in
      let body = (x.write_message w.cipher p (drop frame_header_size buf)).1 in
      rw (slice_from-ok frame_header_size buf (omega (arith, room))) (
        send_frame-checked _ _ (λ n e.
          let (inside, small) = b.write_message-le w.cipher p (drop frame_header_size buf) n e in
          (
            omega (
              arith,
              inside,
              room,
              b.write_message-length w.cipher p (drop frame_header_size buf),
              length-drop frame_header_size buf,
              length-take frame_header_size buf,
              length-append (take frame_header_size buf) body,
            ),
            small,
          )))

  write_out-checked :
      (p : Bytes) (tx : PacketTx x) → checked_write_out x p tx ≡ some (write_out x p tx)
  unfolding checked_write_out write_out
  write_out-checked p tx = rw (write_packet-checked p tx.writer) refl

  packed-checked :
      (r : Result Bytes PacketBuildError) (tx : PacketTx x)
      → checked_packed x r tx ≡ some (packed x r tx)
  unfolding checked_packed packed
  packed-checked (ok p) tx = write_out-checked p tx
  packed-checked (err e) tx = refl

  pub send_packet-checked :
      (payload : Bytes) (last : Bool) (tx : PacketTx x)
      → checked_send_packet x payload last tx ≡ some (send_packet x payload last tx)
  unfolding checked_send_packet send_packet
  send_packet-checked payload last tx = packed-checked (pack tx.builder payload last).0 _

  abort_packet-checked :
      (p : Option Bytes) (tx : PacketTx x)
      → checked_abort_packet x p tx ≡ some (abort_packet x p tx)
  unfolding checked_abort_packet abort_packet
  abort_packet-checked none tx = refl
  abort_packet-checked (some p) tx = write_out-checked p tx

  pub abort_message-checked :
      (tx : PacketTx x) → checked_abort_message x tx ≡ some (abort_message x tx)
  unfolding checked_abort_message abort_message
  abort_message-checked tx = abort_packet-checked (abort tx.builder).0 _
