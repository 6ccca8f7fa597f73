-- ===== src/Handshake/Complete/Exchange.antt =====
-- The three messages between two honest peers.
use snowpack.Prelude.{◌≡◌, sym, ap, ◌∙◌, ◌++◌, [], Bytes, ok, some, length, arith}
use snowpack.External.Net.{Net, IsHealthy}
use snowpack.External.Noise.{Noise, IsHonest}
use snowpack.External.Ed25519.{Ed25519}
use snowpack.External.Yatlv.{Yatlv}
use snowpack.Noise.{TransportPrivateKey}
use snowpack.Sign.{SignatureVerificationKey}
use snowpack.Auth.{SignedAuthHeader, AuthHeader, verify_raw, into_details}
use snowpack.Packets.Framing.{framed}
use snowpack.Packets.Tx.{PacketTx}
use snowpack.Packets.Rx.{PacketRx}
use snowpack.Handshake.{HandshakeContext}
use snowpack.Handshake.Entry.{accept_steps, connect_steps}
use snowpack.Handshake.Complete.Steps.{At, Fits, send-At, recv-At}
use snowpack.Handshake.Complete.Check.{Handed, check_peer-ok, hand_over-Handed}

module _ (x : Net) (e : IsHealthy x) (y : Noise x) (n : IsHonest x e y) where
  open n use {message, wrote, took, initiator, responder}

  -- The three messages between these private keys, with these headers.
  abbrev pub hello : Bytes → Bytes
  hello a = message (initiator a) []

  abbrev pub asked : (a b : Bytes) → y.Handshake
  asked a b = took (responder b) (hello a)

  abbrev pub reply : (a b local_b : Bytes) → Bytes
  reply a b local_b = message (asked a b) local_b

  abbrev pub told : (a b local_b : Bytes) → y.Handshake
  told a b local_b = took (wrote (initiator a) []) (reply a b local_b)

  abbrev pub last : (a b local_a local_b : Bytes) → Bytes
  last a b local_a local_b = message (told a b local_b) local_a

  abbrev pub i_end : (a b local_a local_b : Bytes) → y.Handshake
  i_end a b local_a local_b = wrote (told a b local_b) local_a

  abbrev pub r_end : (a b local_a local_b : Bytes) → y.Handshake
  r_end a b local_a local_b = took (wrote (asked a b) local_b) (last a b local_a local_b)

module _ (x : Net) (e : IsHealthy x) (y : Noise x) (n : IsHonest x e y) (c : Ed25519)
    (z : Yatlv) where
  open e use {pending, written}
  open n use {Stage, overhead, message, wrote, took, initiator, responder, transport, public_key}

  -- What holds of the two peers: 32-byte private keys, headers that fit a message, that the other one
  -- verifies, and that name the public keys.
  pub record Honest (a b : TransportPrivateKey) (local_a local_b : SignedAuthHeader)
      (key_a key_b : SignatureVerificationKey c) (h_a h_b : AuthHeader) : Type 0 where
    pub length_a : length a.bytes ≡ 32
    pub length_b : length b.bytes ≡ 32
    pub fits_hello : Fits x e y n 0 []
    pub fits_b : Fits x e y n 1 local_b.bytes
    pub fits_a : Fits x e y n 2 local_a.bytes
    pub verified_a : verify_raw c z key_b local_a.bytes ≡ ok h_a
    pub verified_b : verify_raw c z key_a local_b.bytes ≡ ok h_b
    pub own_a : h_a.public_key.bytes ≡ public_key a.bytes
    pub own_b : h_b.public_key.bytes ≡ public_key b.bytes

  module _ (a b : TransportPrivateKey) (local_a local_b : SignedAuthHeader)
      (key_a key_b : SignatureVerificationKey c) (h_a h_b : AuthHeader)
      (honest : Honest a b local_a local_b key_a key_b h_a h_b) where
    Stage-started : Stage 0 a.bytes b.bytes (initiator a.bytes) (responder b.bytes)
    Stage-started = n.Stage-built a.bytes b.bytes honest.length_a honest.length_b

    Stage-asked :
        Stage 1 a.bytes b.bytes (asked x e y n a.bytes b.bytes) (wrote (initiator a.bytes) [])
    Stage-asked = n.Stage-took 0 _ _ _ _ [] (omega arith) Stage-started

    Stage-told :
        Stage 2 a.bytes b.bytes
          (told x e y n a.bytes b.bytes local_b.bytes)
          (wrote (asked x e y n a.bytes b.bytes) local_b.bytes)
    Stage-told = n.Stage-took 1 _ _ _ _ local_b.bytes (omega arith) Stage-asked

    pub Stage-ended :
        Stage 3 a.bytes b.bytes
          (r_end x e y n a.bytes b.bytes local_a.bytes local_b.bytes)
          (i_end x e y n a.bytes b.bytes local_a.bytes local_b.bytes)
    Stage-ended = n.Stage-took 2 _ _ _ _ local_a.bytes (omega arith) Stage-told

    -- `connect`, from its first message to the halves.
    pub connect_steps-Handed :
        (hs : HandshakeContext x y) (rest out : Bytes)
        → At x e y n hs
            (initiator a.bytes)
            (framed (reply x e y n a.bytes b.bytes local_b.bytes) ++ rest)
            out
        → (tx : PacketTx x) × (rx : PacketRx x) × ((connect_steps x y c z local_a key_a hs).0
            ≡ ok ((tx, rx), into_details h_b))
          × Handed x e y n c z
              (transport (i_end x e y n a.bytes b.bytes local_a.bytes local_b.bytes))
              rest
              ((out ++ framed (hello x e y n a.bytes))
                ++ framed (last x e y n a.bytes b.bytes local_a.bytes local_b.bytes))
              tx
              rx
    unfolding connect_steps
    connect_steps-Handed hs rest out at =
        let (hs₁, sent, at₁) =
          send-At x e y n 0 _ _ _ _ [] _ _ hs (omega arith) Stage-started honest.fits_hello at in
        let (hs₂, got, at₂) =
          recv-At x e y n 1 _ _ _ _ local_b.bytes rest _ hs₁ (omega arith) Stage-asked honest.fits_b
            at₁ in
        let (hs₃, sent₃, at₃) =
          send-At x e y n 2 _ _ _ _ local_a.bytes _ _ hs₂ (omega arith) Stage-told honest.fits_a
            at₂ in
        let static =
          ap y.get_remote_static at₂.handshake_is
          ∙ n.static_of_responder _ _ _ _ Stage-told
          ∙ ap some (sym honest.own_b) in
        let checked =
          check_peer-ok x e y n c z key_a local_b.bytes h_b hs₂ honest.verified_b static
            (ap length honest.own_b ∙ n.length-public_key b.bytes honest.length_b) in
        let (tx, rx, done, handed) =
          hand_over-Handed x e y n c z h_b _ _ rest _ hs₃
            (n.into_transport_mode-ok _ _ _ _ Stage-ended).1 at₃ in
        (tx, rx, rw (sent, got, checked, sent₃) done, handed)

    -- `accept`, from the first message it reads to the halves.
    pub accept_steps-Handed :
        (hs : HandshakeContext x y) (rest out : Bytes)
        → At x e y n hs
            (responder b.bytes)
            (framed (hello x e y n a.bytes)
              ++ (framed (last x e y n a.bytes b.bytes local_a.bytes local_b.bytes) ++ rest))
            out
        → (tx : PacketTx x) × (rx : PacketRx x) × ((accept_steps x y c z local_b key_b hs).0
            ≡ ok ((tx, rx), into_details h_a))
          × Handed x e y n c z
              (transport (r_end x e y n a.bytes b.bytes local_a.bytes local_b.bytes))
              rest
              (out ++ framed (reply x e y n a.bytes b.bytes local_b.bytes))
              tx
              rx
    unfolding accept_steps
    accept_steps-Handed hs rest out at =
        let (hs₁, got, at₁) =
          recv-At x e y n 0 _ _ _ _ [] _ _ hs (omega arith) Stage-started honest.fits_hello at in
        let (hs₂, sent, at₂) =
          send-At x e y n 1 _ _ _ _ local_b.bytes _ _ hs₁ (omega arith) Stage-asked honest.fits_b
            at₁ in
        let (hs₃, got₃, at₃) =
          recv-At x e y n 2 _ _ _ _ local_a.bytes rest _ hs₂ (omega arith) Stage-told honest.fits_a
            at₂ in
        let static =
          ap y.get_remote_static at₃.handshake_is
          ∙ n.static_of_initiator _ _ _ _ Stage-ended
          ∙ ap some (sym honest.own_a) in
        let checked =
          check_peer-ok x e y n c z key_b local_a.bytes h_a hs₃ honest.verified_a static
            (ap length honest.own_a ∙ n.length-public_key a.bytes honest.length_a) in
        let (tx, rx, done, handed) =
          hand_over-Handed x e y n c z h_a _ _ rest _ hs₃
            (n.into_transport_mode-ok _ _ _ _ Stage-ended).0 at₃ in
        (tx, rx, rw (got, sent, got₃, checked) done, handed)
