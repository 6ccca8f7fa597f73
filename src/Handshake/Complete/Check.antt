-- ===== src/Handshake/Complete/Check.antt =====
-- What `accept` and `connect` do with the header of an honest peer, and the halves that they return.
use snowpack.Prelude.{◌≡◌, refl, [], Bytes, ok, some, length, bytes_eq_refl, arith}
use snowpack.External.Net.{Net, IsHealthy}
use snowpack.External.Noise.{Noise, IsHonest}
use snowpack.External.Ed25519.{Ed25519}
use snowpack.External.Yatlv.{Yatlv}
use snowpack.Keys.{try_into}
use snowpack.Sign.{SignatureVerificationKey}
use snowpack.Auth.{AuthHeader, verify_raw, validate_public_key, into_details}
use snowpack.PacketState.Builder
use snowpack.PacketState.Reader
use snowpack.Packets.Tx.{PacketTx}
use snowpack.Packets.Rx.{PacketRx}
use snowpack.Handshake.{HandshakeContext, remote_static, into_split}
use snowpack.Handshake.Entry.{validated, check_peer, hand_over}
use snowpack.Handshake.Complete.Steps.{At}

module _ (x : Net) (e : IsHealthy x) (y : Noise x) (n : IsHonest x e y) (c : Ed25519)
    (z : Yatlv) where
  open e use {pending, written}

  remote_static-ok :
      (hs : HandshakeContext x y) (raw : Bytes)
      → y.get_remote_static hs.handshake ≡ some raw
      → length raw ≡ 32
      → remote_static x y hs ≡ ok (record { bytes = raw })
  unfolding remote_static try_into
  remote_static-ok hs raw static h = ground arith

  own_key : (h : AuthHeader) → validate_public_key h h.public_key ≡ ok tt
  unfolding validate_public_key
  own_key h = rw (bytes_eq_refl h.public_key.bytes) refl

  -- A header that verifies and names the static key of the handshake is accepted.
  pub check_peer-ok :
      (key : SignatureVerificationKey c) (payload : Bytes) (h : AuthHeader)
      (hs : HandshakeContext x y)
      → verify_raw c z key payload ≡ ok h
      → y.get_remote_static hs.handshake ≡ some h.public_key.bytes
      → length h.public_key.bytes ≡ 32
      → check_peer x y c z key payload hs ≡ (ok h, hs)
  unfolding check_peer validated
  check_peer-ok key payload h hs verified static len =
      rw (verified, remote_static-ok hs h.public_key.bytes static len, own_key h) refl

  -- The halves between messages, with a stream to read and the bytes written so far.
  pub record Handed (t : x.Cipher) (stream out : Bytes) (tx : PacketTx x) (rx : PacketRx x)
      : Type 0 where
    pub new_builder : tx.builder ≡ Builder.new
    pub writes_with : tx.writer.cipher ≡ t
    pub has_written : written tx.writer.write ≡ out
    pub new_reader : rx.packet_reader ≡ Reader.new
    pub reads_with : rx.cipher ≡ t
    pub to_read : pending rx.input ≡ stream

  abbrev split_tx : x.Cipher → HandshakeContext x y → PacketTx x
  split_tx t hs = record {
    builder = Builder.new;
    writer = record { cipher = t; write = hs.write; write_buf = [] };
  }

  abbrev split_rx : x.Cipher → HandshakeContext x y → PacketRx x
  split_rx t hs = record {
    cipher = t;
    packet_reader = Reader.new;
    input = hs.read;
    ciphertext_buf = hs.frame;
    plaintext_buf = hs.noise_buf;
    payload_end = 0;
  }

  pub hand_over-Handed :
      (h : AuthHeader) (s : y.Handshake) (t : x.Cipher) (stream out : Bytes)
      (hs : HandshakeContext x y)
      → y.into_transport_mode s ≡ ok t
      → At x e y n hs s stream out
      → (tx : PacketTx x) × (rx : PacketRx x) × ((hand_over x y c z h hs).0
          ≡ ok ((tx, rx), into_details h))
        × Handed t stream out tx rx
  unfolding hand_over into_split
  hand_over-Handed h s t stream out hs made at = (
    split_tx t hs,
    split_rx t hs,
    rw (at.handshake_is, made) refl,
    record {
      new_builder = refl;
      writes_with = refl;
      has_written = at.has_written;
      new_reader = refl;
      reads_with = refl;
      to_read = at.to_read;
    },
  )
