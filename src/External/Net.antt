-- ===== src/External/Net.antt =====
-- The transport state of the crate `snow`, and the stream halves of `tokio`.
use snowpack.Prelude.{
  ℕ, ◌+◌, ◌*◌, ◌<◌, ◌≤◌, ◌≡◌, ◌++◌, [], ◌∷◌, Bytes, Result, ok, length, take, drop,
}

-- A call takes the state that it changes and the buffer that it writes into, and returns both.
pub record Net : Type 1 where
  pub IoError : Type 0
  pub SnowError : Type 0
  -- `snow::TransportState`: `write_message` encrypts a payload and `read_message` decrypts a message
  -- into a buffer, and both return the length of what they put there.
  pub Cipher : Type 0
  pub write_message : Cipher → (payload buffer : Bytes) → Result ℕ SnowError × Bytes × Cipher
  pub read_message : Cipher → (message buffer : Bytes) → Result ℕ SnowError × Bytes × Cipher
  -- An `AsyncRead` half with `read_u16` and `read_exact`.
  pub Input : Type 0
  pub read_u16 : Input → Result ℕ IoError × Input
  pub read_exact : Input → Bytes → Result (Unit {0}) IoError × Bytes × Input
  -- An `AsyncWrite` half with `write_all` and `flush`.
  pub Output : Type 0
  pub write_all : Output → Bytes → Result (Unit {0}) IoError × Output
  pub flush : Output → Result (Unit {0}) IoError × Output
  -- The `AsyncRead` that `send_reader` drains: `read` with the room in the buffer. The bytes that it
  -- put there are returned, none at the end.
  pub Source : Type 0
  pub read : Source → ℕ → Result Bytes IoError × Source

-- A connection without faults: ciphers in step, streams that do not fail, a source that ends.
pub record IsHealthy (x : Net) : Type 1 where
  -- The messages that a cipher may still write before its nonces run out.
  pub left : x.Cipher → ℕ
  -- What the one writes next, the other reads next.
  pub Paired : x.Cipher → x.Cipher → Type 0
  pub sealed : x.Cipher → Bytes → Bytes
  pub wrote : x.Cipher → x.Cipher
  pub opened : x.Cipher → x.Cipher
  pub length-sealed : (t : x.Cipher) (p : Bytes) → length (sealed t p) ≡ length p + 16
  pub left-wrote : (t : x.Cipher) → 0 < left t → left t ≡ left (wrote t) + 1
  pub write_message-ok :
      (t : x.Cipher) (p buffer : Bytes)
      → 0 < left t
      → length p + 16 ≤ 65535
      → length p + 16 ≤ length buffer
      → x.write_message t p buffer
        ≡ (ok (length p + 16), sealed t p ++ drop (length p + 16) buffer, wrote t)
  pub read_message-ok :
      (t u : x.Cipher) (p buffer : Bytes)
      → Paired t u
      → 0 < left t
      → length p + 16 ≤ 65535
      → length p ≤ length buffer
      → x.read_message u (sealed t p) buffer
        ≡ (ok (length p), p ++ drop (length p) buffer, opened u)
  pub Paired-wrote : (t u : x.Cipher) → Paired t u → Paired (wrote t) (opened u)
  -- The bytes that an input will still give, and those that an output has been given.
  pub pending : x.Input → Bytes
  pub skip : ℕ → x.Input → x.Input
  pub pending-skip : (n : ℕ) (i : x.Input) → pending (skip n i) ≡ drop n (pending i)
  pub read_u16-ok :
      (i : x.Input) (hi lo : ℕ) (rest : Bytes)
      → pending i ≡ hi ∷ lo ∷ rest
      → x.read_u16 i ≡ (ok (hi * 256 + lo), skip 2 i)
  pub read_exact-ok :
      (i : x.Input) (buffer : Bytes)
      → length buffer ≤ length (pending i)
      → x.read_exact i buffer ≡ (ok tt, take (length buffer) (pending i), skip (length buffer) i)
  pub written : x.Output → Bytes
  pub extend : x.Output → Bytes → x.Output
  pub flushed : x.Output → x.Output
  pub write_all-ok : (o : x.Output) (bs : Bytes) → x.write_all o bs ≡ (ok tt, extend o bs)
  pub written-extend : (o : x.Output) (bs : Bytes) → written (extend o bs) ≡ written o ++ bs
  pub flush-ok : (o : x.Output) → x.flush o ≡ (ok tt, flushed o)
  pub written-flushed : (o : x.Output) → written (flushed o) ≡ written o
  -- The bytes that a source will still give; a call with room gives some of them, until none is left.
  pub content : x.Source → Bytes
  pub read-ok :
      (s : x.Source) (room : ℕ)
      → 0 < room
      → (bs : Bytes) × (s' : x.Source) × (x.read s room ≡ (ok bs, s'))
        × (content s ≡ bs ++ content s')
        × (length bs ≤ room)
        × (bs ≡ [] → content s ≡ [])

-- A stream that ends: a length prefix takes two of the bytes that are left, and no call adds any. A
-- source that ends: a call that gives bytes leaves fewer.
pub record IsFinite (x : Net) : Type 1 where
  pub remaining : x.Input → ℕ
  pub read_u16-less :
      (i : x.Input) (n : ℕ) (i' : x.Input) → x.read_u16 i ≡ (ok n, i') → remaining i' < remaining i
  pub read_exact-le :
      (i : x.Input) (buffer : Bytes) → remaining (x.read_exact i buffer).2 ≤ remaining i
  pub left : x.Source → ℕ
  pub read-less :
      (s : x.Source) (room b : ℕ) (bs : Bytes) (s' : x.Source)
      → x.read s room ≡ (ok (b ∷ bs), s')
      → left s' < left s
