-- ===== src/Handshake/Checked/Slices.antt =====
-- `send` and `recv` of the handshake: no slice is out of range.
use snowpack.Prelude.{
  ℕ, ◌%◌, ◌^◌, ◌≤◌, ◌≡◌, refl, ◌∙◌, ◌++◌, Bytes, some, Result, ok, err, length, length-append,
  length-take, length-drop, take, drop, arith,
}
use snowpack.External.Net.{Net}
use snowpack.External.Noise.{Noise}
use snowpack.External.InBounds.{HandshakeInBounds}
use snowpack.PacketState.Header.{frame_header_size}
use snowpack.Packets.Error.{Error}
use snowpack.Packets.Frame.{read_frame}
use snowpack.Packets.Exec.Checked.{Keeps}
use snowpack.Packets.Checked.Sending.{
  slice_to-ok, slice_from-ok, checked_prefix-ok, length-put_prefix,
}
use snowpack.Handshake.{HandshakeContext, recv, received, opened, send, sealed}
use snowpack.Handshake.Checked.{
  checked_recv, checked_received, checked_opened, checked_send, checked_sealed,
}

module _ (x : Net) (y : Noise x) (b : HandshakeInBounds x y) where
  -- The buffer has its length from `vec!` still.
  abbrev pub Roomy : HandshakeContext x y → Type 0
  Roomy hs = length hs.noise_buf ≡ 65537

  opened-checked :
      (r : Result ℕ x.SnowError) (hs : HandshakeContext x y)
      → Roomy hs
      → ((n : ℕ) → r ≡ ok n → n ≤ length hs.noise_buf)
      → (checked_opened x y r hs ≡ some (opened x y r hs)) × Roomy (opened x y r hs).1
  unfolding checked_opened opened
  opened-checked (err e) hs h fits = (refl, h)
  opened-checked (ok n) hs h fits = (rw (slice_to-ok n hs.noise_buf (fits n refl)) refl, h)

  received-checked :
      (r : Result (Unit {0}) (Error x)) (hs : HandshakeContext x y)
      → Roomy hs
      → (checked_received x y r hs ≡ some (received x y r hs)) × Roomy (received x y r hs).1
  unfolding checked_received received
  received-checked (err e) hs h = (refl, h)
  received-checked (ok done) hs h =
      let same = b.read_message-length hs.handshake hs.frame hs.noise_buf in
      opened-checked _ _ (same ∙ h)
        (λ n e. omega (arith, b.read_message-le hs.handshake hs.frame hs.noise_buf n e, same))

  pub Keeps-recv : Keeps Roomy (checked_recv x y) (recv x y)
  unfolding checked_recv recv
  Keeps-recv hs h = received-checked (read_frame x hs.read hs.frame).0 _ h

  sealed-checked :
      (r : Result ℕ x.SnowError) (hs : HandshakeContext x y)
      → Roomy hs
      → ((n : ℕ) → r ≡ ok n → n ≤ 65535)
      → (checked_sealed x y r hs ≡ some (sealed x y r hs)) × Roomy (sealed x y r hs).1
  unfolding checked_sealed sealed
  sealed-checked (err e) hs h fits = (refl, h)
  sealed-checked (ok n) hs h fits = (
    rw (checked_prefix-ok n hs.noise_buf (omega (arith, fits n refl)) (fits n refl)) refl,
    length-put_prefix (n % 2 ^ 16) hs.noise_buf (omega arith) ∙ h,
  )

  pub Keeps-send : (payload : Bytes) → Keeps Roomy (checked_send x y payload) (send x y payload)
  unfolding checked_send send
  Keeps-send payload hs h =
      let room = drop frame_header_size hs.noise_buf in
      let body = (y.write_message hs.handshake payload room).1 in
      let whole : length (take frame_header_size hs.noise_buf ++ body) ≡ 65537 = omega (
        arith,
        b.write_message-length hs.handshake payload room,
        length-drop frame_header_size hs.noise_buf,
        length-take frame_header_size hs.noise_buf,
        length-append (take frame_header_size hs.noise_buf) body,
      ) in
      rw (slice_from-ok frame_header_size hs.noise_buf (omega arith))
        (sealed-checked _ _ whole (λ n e. (b.write_message-le hs.handshake payload room n e).1))
