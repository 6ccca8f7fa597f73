-- ===== src/External/InBounds.antt =====
-- The buffers of the crate `snow`, of `tokio` and of Rust.
use snowpack.Prelude.{ℕ, ◌≤◌, ◌≡◌, Bytes, ok, length}
use snowpack.External.Net.{Net}
use snowpack.External.Noise.{Noise}

-- A call fills a part of the slice that it is given, which has the same length after it. snow refuses
-- a message above its maximum of 65,535 bytes.
pub record InBounds (x : Net) : Type 0 where
  pub write_message-length :
      (t : x.Cipher) (p buffer : Bytes) → length (x.write_message t p buffer).1 ≡ length buffer
  pub write_message-le :
      (t : x.Cipher) (p buffer : Bytes) (n : ℕ)
      → (x.write_message t p buffer).0 ≡ ok n
      → (n ≤ length buffer) × (n ≤ 65535)
  pub read_message-length :
      (t : x.Cipher) (m buffer : Bytes) → length (x.read_message t m buffer).1 ≡ length buffer
  pub read_message-le :
      (t : x.Cipher) (m buffer : Bytes) (n : ℕ)
      → (x.read_message t m buffer).0 ≡ ok n
      → n ≤ length buffer

-- The same of the handshake.
pub record HandshakeInBounds (x : Net) (y : Noise x) : Type 0 where
  pub write_message-length :
      (h : y.Handshake) (p buffer : Bytes) → length (y.write_message h p buffer).1 ≡ length buffer
  pub write_message-le :
      (h : y.Handshake) (p buffer : Bytes) (n : ℕ)
      → (y.write_message h p buffer).0 ≡ ok n
      → (n ≤ length buffer) × (n ≤ 65535)
  pub read_message-length :
      (h : y.Handshake) (m buffer : Bytes) → length (y.read_message h m buffer).1 ≡ length buffer
  pub read_message-le :
      (h : y.Handshake) (m buffer : Bytes) (n : ℕ)
      → (y.read_message h m buffer).0 ≡ ok n
      → n ≤ length buffer
