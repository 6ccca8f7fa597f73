-- ===== src/External/Noise.antt =====
-- The handshake state of the crate `snow`.
use snowpack.Prelude.{
  ℕ, suc, ◌+◌, ◌<◌, ◌≤◌, ◌≡◌, ◌++◌, Bytes, Option, some, Result, ok, length, drop,
}
use snowpack.External.Net.{Net, IsHealthy}

-- `Builder::local_private_key(key).build_initiator()` and its twin, the calls of `HandshakeState`
-- that encrypt and decrypt a handshake message, and the static key of the peer once it is known.
pub record Noise (x : Net) : Type 1 where
  pub Handshake : Type 0
  pub build_initiator : (local_private : Bytes) → Result Handshake x.SnowError
  pub build_responder : (local_private : Bytes) → Result Handshake x.SnowError
  pub write_message :
      Handshake → (payload buffer : Bytes) → Result ℕ x.SnowError × Bytes × Handshake
  pub read_message : Handshake → (message buffer : Bytes) → Result ℕ x.SnowError × Bytes × Handshake
  pub get_remote_static : Handshake → Option Bytes
  pub into_transport_mode : Handshake → Result x.Cipher x.SnowError

-- Two honest peers and the pattern XX: three messages, of which the initiator writes the first and
-- the last. The first one has the payload in the clear; the others carry the static key of their
-- writer, and tags.
pub record IsHonest (x : Net) (e : IsHealthy x) (y : Noise x) : Type 1 where
  pub public_key : Bytes → Bytes
  pub length-public_key : (key : Bytes) → length key ≡ 32 → length (public_key key) ≡ 32
  pub initiator : Bytes → y.Handshake
  pub responder : Bytes → y.Handshake
  pub build_initiator-ok :
      (key : Bytes) → length key ≡ 32 → y.build_initiator key ≡ ok (initiator key)
  pub build_responder-ok :
      (key : Bytes) → length key ≡ 32 → y.build_responder key ≡ ok (responder key)
  -- After this many messages between the initiator and the responder with these private keys: the
  -- peer that writes next, and the one that reads next.
  pub Stage : ℕ → (a b : Bytes) → y.Handshake → y.Handshake → Type 0
  pub Stage-built :
      (a b : Bytes) → length a ≡ 32 → length b ≡ 32 → Stage 0 a b (initiator a) (responder b)
  -- What a message is longer than its payload.
  pub overhead : ℕ → ℕ
  pub message : y.Handshake → Bytes → Bytes
  pub wrote : y.Handshake → Bytes → y.Handshake
  pub took : y.Handshake → Bytes → y.Handshake
  pub length-message :
      (n : ℕ) (a b : Bytes) (w r : y.Handshake) (p : Bytes)
      → Stage n a b w r
      → length (message w p) ≡ overhead n + length p
  -- The buffer has room for a tag in any case.
  pub write_message-ok :
      (n : ℕ) (a b : Bytes) (w r : y.Handshake) (p buffer : Bytes)
      → n < 3
      → Stage n a b w r
      → overhead n + length p + 16 ≤ 65535
      → overhead n + length p + 16 ≤ length buffer
      → y.write_message w p buffer
        ≡ (ok (length (message w p)), message w p ++ drop (length (message w p)) buffer, wrote w p)
  pub read_message-ok :
      (n : ℕ) (a b : Bytes) (w r : y.Handshake) (p buffer : Bytes)
      → n < 3
      → Stage n a b w r
      → overhead n + length p + 16 ≤ 65535
      → length p ≤ length buffer
      → y.read_message r (message w p) buffer
        ≡ (ok (length p), p ++ drop (length p) buffer, took r (message w p))
  pub Stage-took :
      (n : ℕ) (a b : Bytes) (w r : y.Handshake) (p : Bytes)
      → n < 3
      → Stage n a b w r
      → Stage (suc n) a b (took r (message w p)) (wrote w p)
  pub static_of_responder :
      (a b : Bytes) (w r : y.Handshake)
      → Stage 2 a b w r
      → y.get_remote_static w ≡ some (public_key b)
  pub static_of_initiator :
      (a b : Bytes) (w r : y.Handshake)
      → Stage 3 a b w r
      → y.get_remote_static w ≡ some (public_key a)
  pub transport : y.Handshake → x.Cipher
  pub into_transport_mode-ok :
      (a b : Bytes) (w r : y.Handshake)
      → Stage 3 a b w r
      → (y.into_transport_mode w ≡ ok (transport w))
        × (y.into_transport_mode r ≡ ok (transport r))
        × e.Paired (transport w) (transport r)
        × e.Paired (transport r) (transport w)
