-- ===== src/Handshake/Checked.antt =====
-- The handshake of packets.rs with every slice and every cast checked: `none` is a panic, or a length
-- that is cut off.
pub mod Slices
pub mod Chain
use snowpack.Prelude.{ℕ, ◌++◌, Bytes, Option, some, Result, ok, err, take}
use snowpack.External.Net.{Net}
use snowpack.External.Noise.{Noise}
use snowpack.PacketState.Header.{frame_header_size}
use snowpack.Packets.Error.{Error, noise}
use snowpack.Packets.Frame.{read_frame, flush_frame}
use snowpack.Packets.Checked.{◌>>=◌, slice_to, slice_from, checked_prefix}
use snowpack.Handshake.{HandshakeContext}

module _ (x : Net) (y : Noise x) where
  abbrev pub Called : Type 0 → Type 0
  Called A = Option (Result A (Error x) × HandshakeContext x y)

  unfoldable pub checked_opened : Result ℕ x.SnowError → HandshakeContext x y → Called Bytes
  unfolding slice_to
  checked_opened (err e) hs = some (err (noise e), hs)
  checked_opened (ok n) hs = do payload ← slice_to n hs.noise_buf; some (ok payload, hs)

  unfoldable pub checked_received :
      Result (Unit {0}) (Error x) → HandshakeContext x y → Called Bytes
  unfolding checked_opened
  checked_received (err e) hs = some (err e, hs)
  checked_received (ok done) hs =
      let (n, noise_buf', handshake') = y.read_message hs.handshake hs.frame hs.noise_buf in
      checked_opened n (record hs { handshake = handshake'; noise_buf = noise_buf' })

  unfoldable pub checked_recv : HandshakeContext x y → Called Bytes
  unfolding checked_received
  checked_recv hs =
      let (r, frame', read') = read_frame x hs.read hs.frame in
      checked_received r (record hs { frame = frame'; read = read' })

  unfoldable pub checked_sealed : Result ℕ x.SnowError → HandshakeContext x y → Called (Unit {0})
  unfolding checked_prefix
  checked_sealed (err e) hs = some (err (noise e), hs)
  checked_sealed (ok n) hs = do
    q ← checked_prefix n hs.noise_buf
    let (sent, write') = x.write_all hs.write q.1
    let (r, write'') = flush_frame x sent write'
    some (r, record hs { noise_buf = q.0; write = write'' })

  unfoldable pub checked_send : Bytes → HandshakeContext x y → Called (Unit {0})
  unfolding slice_from checked_sealed
  checked_send payload hs = do
    room ← slice_from frame_header_size hs.noise_buf
    let (n, body, handshake') = y.write_message hs.handshake payload room
    checked_sealed n (record hs {
      handshake = handshake';
      noise_buf = take frame_header_size hs.noise_buf ++ body;
    })
