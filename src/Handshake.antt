-- ===== src/Handshake.antt =====
-- The handshake of packets.rs. A stream is its read half and
-- its write half, which is what `split` makes of it. `HandshakeContext` and its methods.
pub mod Entry
pub mod Peer
pub mod Sound
pub mod Disclosure
pub mod Complete
pub mod Checked
use snowpack.Prelude.{
  ℕ, ◌+◌, ◌%◌, ◌^◌, ◌++◌, [], Bytes, Result, ok, err, ◌>>=◌, map_err, take, drop, replicate,
}
use snowpack.External.Net.{Net}
use snowpack.External.Noise.{Noise}
use snowpack.Keys.{ok_or, try_into}
use snowpack.Noise.{TransportPublicKey, TransportPrivateKey}
use snowpack.PacketState.Header.{frame_header_size, max_ciphertext_size, to_be_bytes}
use snowpack.PacketState.Builder
use snowpack.PacketState.Reader
use snowpack.Packets.Error.{Error, noise, missing_remote_static, remote_static_key_length}
use snowpack.Packets.Exec.{Exec}
use snowpack.Packets.Frame.{Writer, read_frame, flush_frame}
use snowpack.Packets.Tx.{PacketTx}
use snowpack.Packets.Rx.{PacketRx}

unfoldable pub new_noise_buf : Bytes
new_noise_buf = replicate (frame_header_size + max_ciphertext_size) 0

module _ (x : Net) (y : Noise x) where
  pub record HandshakeContext : Type 0 where
    pub handshake : y.Handshake
    pub frame : Bytes
    pub noise_buf : Bytes
    pub read : x.Input
    pub write : x.Output

  unfoldable pub new_context :
      x.Input → x.Output → Result y.Handshake x.SnowError → Result HandshakeContext (Error x)
  new_context read write (err e) = err (noise e)
  new_context read write (ok handshake) = ok (record {
    handshake = handshake;
    frame = [];
    noise_buf = new_noise_buf;
    read = read;
    write = write;
  })

  unfoldable pub new_initiator :
      x.Input → x.Output → TransportPrivateKey → Result HandshakeContext (Error x)
  unfolding new_context
  new_initiator read write local_private =
      new_context read write (y.build_initiator local_private.bytes)

  unfoldable pub new_responder :
      x.Input → x.Output → TransportPrivateKey → Result HandshakeContext (Error x)
  unfolding new_context
  new_responder read write local_private =
      new_context read write (y.build_responder local_private.bytes)

  abbrev pub Hs : Type 0 → Type 0
  Hs A = Exec HandshakeContext (Error x) A

  -- The payload is the first `n` bytes of the buffer.
  unfoldable pub opened : Result ℕ x.SnowError → Hs Bytes
  opened (err e) hs = (err (noise e), hs)
  opened (ok n) hs = (ok (take n hs.noise_buf), hs)

  unfoldable pub received : Result (Unit {0}) (Error x) → Hs Bytes
  unfolding opened
  received (err e) hs = (err e, hs)
  received (ok done) hs =
      let (n, noise_buf', handshake') = y.read_message hs.handshake hs.frame hs.noise_buf in
      opened n (record hs { handshake = handshake'; noise_buf = noise_buf' })

  unfoldable pub recv : Hs Bytes
  unfolding received
  recv hs =
      let (r, frame', read') = read_frame x hs.read hs.frame in
      received r (record hs { frame = frame'; read = read' })

  unfoldable pub sealed : Result ℕ x.SnowError → Hs (Unit {0})
  sealed (err e) hs = (err (noise e), hs)
  sealed (ok n) hs =
      let buf = to_be_bytes (n % 2 ^ 16) ++ drop frame_header_size hs.noise_buf in
      let (sent, write') = x.write_all hs.write (take (frame_header_size + n) buf) in
      let (r, write'') = flush_frame x sent write' in
      (r, record hs { noise_buf = buf; write = write'' })

  unfoldable pub send : Bytes → Hs (Unit {0})
  unfolding sealed
  send payload hs =
      let (n, body, handshake') =
        y.write_message hs.handshake payload (drop frame_header_size hs.noise_buf) in
      sealed n (record hs {
        handshake = handshake';
        noise_buf = take frame_header_size hs.noise_buf ++ body;
      })

  unfoldable pub remote_static : HandshakeContext → Result TransportPublicKey (Error x)
  unfolding try_into
  remote_static hs = do
    raw ← ok_or (y.get_remote_static hs.handshake) missing_remote_static
    arr ← ok_or (try_into 32 raw) remote_static_key_length
    ok (record { bytes = arr })

  abbrev pub Halves : Type 0
  Halves = PacketTx x × PacketRx x

  unfoldable pub into_split : HandshakeContext → Result Halves (Error x)
  into_split hs = do
    cipher ← map_err noise (y.into_transport_mode hs.handshake)
    ok (
      record {
        builder = Builder.new;
        writer = record { cipher = cipher; write = hs.write; write_buf = [] };
      },
      record {
        cipher = cipher;
        packet_reader = Reader.new;
        input = hs.read;
        ciphertext_buf = hs.frame;
        plaintext_buf = hs.noise_buf;
        payload_end = 0;
      },
    )
