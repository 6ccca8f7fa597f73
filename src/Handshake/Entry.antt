-- ===== src/Handshake/Entry.antt =====
-- `accept` and `connect` of packets.rs, and the functions of the same names of lib.rs.
use snowpack.Prelude.{[], Bytes, Bool, Result, ok, err, map_err, if◌then◌else◌}
use snowpack.External.Net.{Net}
use snowpack.External.Noise.{Noise}
use snowpack.External.Ed25519.{Ed25519}
use snowpack.External.Yatlv.{Yatlv}
use snowpack.Noise.{TransportPrivateKey}
use snowpack.Sign.{SignatureVerificationKey}
use snowpack.Auth.{
  SignedAuthHeader, AuthHeader, AuthDetails, verify_raw, validate_public_key, into_details,
}
use snowpack.Packets.Error.{Error, bad_auth, handshake_timeout}
use snowpack.Packets.Exec.{◌>>=◌, ◌>>◌, pure, ask}
use snowpack.Packets.Tx.{PacketTx}
use snowpack.Messages.{MessageRx}
use snowpack.Handshake.{
  HandshakeContext, Hs, Halves, new_initiator, new_responder, recv, send, remote_static, into_split,
}

module _ (x : Net) (y : Noise x) where
  -- `timeout(HANDSHAKE_TIMEOUT, ...)`: `late` says that the time was up before the result was there.
  unfoldable pub within : {A : Type 0} → Bool → Result A (Error x) → Result A (Error x)
  within late r = if late then err handshake_timeout else r

  unfoldable pub run :
      {A : Type 0} → Result (HandshakeContext x y) (Error x) → Hs x y A → Result A (Error x)
  run (err e) steps = err e
  run (ok hs) steps = (steps hs).0

  abbrev pub Peer : Type 0
  Peer = Halves x y × AuthDetails

module _ (x : Net) (y : Noise x) (c : Ed25519) (z : Yatlv) where
  -- The peer's header verifies, and its key is the static key of the handshake.
  unfoldable pub validated : AuthHeader → Hs x y AuthHeader
  validated h = do
    static ← ask (remote_static x y)
    ask λ hs. map_err bad_auth (validate_public_key h static)
    pure h

  unfoldable pub check_peer : SignatureVerificationKey c → Bytes → Hs x y AuthHeader
  unfolding validated
  check_peer verification_key payload = do
    h ← ask λ hs. map_err bad_auth (verify_raw c z verification_key payload)
    validated h

  unfoldable pub hand_over : AuthHeader → Hs x y (Peer x y)
  hand_over h = do halves ← ask (into_split x y); pure (halves, into_details h)

  unfoldable pub accept_steps : SignedAuthHeader → SignatureVerificationKey c → Hs x y (Peer x y)
  unfolding check_peer hand_over
  accept_steps local_auth_header verification_key = do
    hello ← recv x y
    send x y local_auth_header.bytes
    payload ← recv x y
    h ← check_peer verification_key payload
    hand_over h

  unfoldable pub connect_steps : SignedAuthHeader → SignatureVerificationKey c → Hs x y (Peer x y)
  unfolding check_peer hand_over
  connect_steps local_auth_header verification_key = do
    send x y []
    payload ← recv x y
    h ← check_peer verification_key payload
    send x y local_auth_header.bytes
    hand_over h

  unfoldable pub accept_packets :
      Bool
      → x.Input
      → x.Output
      → TransportPrivateKey
      → SignedAuthHeader
      → SignatureVerificationKey c
      → Result (Peer x y) (Error x)
  unfolding within run accept_steps
  accept_packets late read write local_private local_auth_header verification_key =
      within x y late (
        run x y (new_responder x y read write local_private)
          (accept_steps local_auth_header verification_key))

  unfoldable pub connect_packets :
      Bool
      → x.Input
      → x.Output
      → TransportPrivateKey
      → SignedAuthHeader
      → SignatureVerificationKey c
      → Result (Peer x y) (Error x)
  unfolding within run connect_steps
  connect_packets late read write local_private local_auth_header verification_key =
      within x y late (
        run x y (new_initiator x y read write local_private)
          (connect_steps local_auth_header verification_key))

  -- `MessageTx::new(tx)`, `MessageRx::new(rx)`.
  unfoldable pub with_messages :
      Result (Peer x y) (Error x) → Result ((PacketTx x × MessageRx x) × AuthDetails) (Error x)
  with_messages (err e) = err e
  with_messages (ok ((tx, rx), details)) =
      ok ((tx, record { packets = rx; read_buf = [] }), details)

  unfoldable pub accept :
      Bool
      → x.Input
      → x.Output
      → TransportPrivateKey
      → SignedAuthHeader
      → SignatureVerificationKey c
      → Result ((PacketTx x × MessageRx x) × AuthDetails) (Error x)
  unfolding accept_packets with_messages
  accept late read write local_private local_auth_header verification_key =
      with_messages
        (accept_packets late read write local_private local_auth_header verification_key)

  unfoldable pub connect :
      Bool
      → x.Input
      → x.Output
      → TransportPrivateKey
      → SignedAuthHeader
      → SignatureVerificationKey c
      → Result ((PacketTx x × MessageRx x) × AuthDetails) (Error x)
  unfolding connect_packets with_messages
  connect late read write local_private local_auth_header verification_key =
      with_messages
        (connect_packets late read write local_private local_auth_header verification_key)
