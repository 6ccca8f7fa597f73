-- ===== src/Handshake/Sound.antt =====
-- Whom `accept` and `connect` of lib.rs return, whatever the other side sends.
use snowpack.Prelude.{◌≡◌, refl, ap, sym, [], Bool, true, false, Result, ok, err}
use snowpack.External.Net.{Net}
use snowpack.External.Noise.{Noise}
use snowpack.External.Ed25519.{Ed25519}
use snowpack.External.Yatlv.{Yatlv}
use snowpack.Noise.{TransportPrivateKey}
use snowpack.Sign.{SignatureVerificationKey}
use snowpack.Auth.{SignedAuthHeader, AuthHeader, AuthDetails, into_details}
use snowpack.Auth.Header.{IsValid}
use snowpack.Auth.Credential.{verify_raw_sound}
use snowpack.Packets.Error.{Error}
use snowpack.Packets.Exec.{◌>>=◌, ◌>>◌, bind-eq_ok}
use snowpack.Packets.Tx.{PacketTx}
use snowpack.Messages.{MessageRx}
use snowpack.Handshake.{HandshakeContext, Hs, Halves, recv, send, into_split}
use snowpack.Handshake.Entry.{
  Peer, within, run, check_peer, hand_over, accept_steps, connect_steps, accept_packets,
  connect_packets, with_messages, accept, connect,
}
use snowpack.Handshake.Peer.{Authenticated, hand_over-eq_ok, check_peer-bind}

module _ (x : Net) (y : Noise x) (c : Ed25519) (z : Yatlv) (key : SignatureVerificationKey c) where
  accept_steps-eq_ok :
      (local : SignedAuthHeader) (hs : HandshakeContext x y) (halves : Halves x y) (d : AuthDetails)
      → (accept_steps x y c z local key hs).0 ≡ ok (halves, d)
      → (h : AuthHeader) × (hs₀ : HandshakeContext x y) × (hs₁ : HandshakeContext x y)
        × Authenticated x y c z key h hs₀ hs₁
        × (d ≡ into_details h)
        × (into_split x y hs₁ ≡ ok halves)
  unfolding accept_steps
  accept_steps-eq_ok local hs halves d e =
      let (hello, s₁, _, e₁) =
        bind-eq_ok (recv x y)
          (λ hello. do
            send x y local.bytes
            payload ← recv x y
            h ← check_peer x y c z key payload
            hand_over x y c z h)
          hs (halves, d) e in
      let (sent, s₂, _, e₂) =
        bind-eq_ok (send x y local.bytes)
          (λ sent. do payload ← recv x y; h ← check_peer x y c z key payload; hand_over x y c z h)
          s₁ (halves, d) e₁ in
      let (payload, s₃, got, e₃) =
        bind-eq_ok (recv x y)
          (λ payload. do h ← check_peer x y c z key payload; hand_over x y c z h) s₂ (halves, d)
          e₂ in
      let (h, peer, e₄) =
        check_peer-bind x y c z key (hand_over x y c z) s₂ s₃ payload (halves, d) got e₃ in
      let (split, details) = hand_over-eq_ok x y c z key h s₃ halves d e₄ in
      (h, s₂, s₃, peer, details, split)

  connect_steps-eq_ok :
      (local : SignedAuthHeader) (hs : HandshakeContext x y) (halves : Halves x y) (d : AuthDetails)
      → (connect_steps x y c z local key hs).0 ≡ ok (halves, d)
      → (h : AuthHeader) × (hs₀ : HandshakeContext x y) × (hs₁ : HandshakeContext x y)
        × (hs₂ : HandshakeContext x y) × Authenticated x y c z key h hs₀ hs₁
        × (d ≡ into_details h)
        × (send x y local.bytes hs₁ ≡ (ok tt, hs₂))
        × (into_split x y hs₂ ≡ ok halves)
  unfolding connect_steps
  connect_steps-eq_ok local hs halves d e =
      let (sent, s₁, _, e₁) =
        bind-eq_ok (send x y [])
          (λ sent. do
            payload ← recv x y
            h ← check_peer x y c z key payload
            send x y local.bytes
            hand_over x y c z h)
          hs (halves, d) e in
      let (payload, s₂, got, e₂) =
        bind-eq_ok (recv x y)
          (λ payload. do
            h ← check_peer x y c z key payload
            send x y local.bytes
            hand_over x y c z h)
          s₁ (halves, d) e₁ in
      let (h, peer, e₃) =
        check_peer-bind x y c z key (λ h. do send x y local.bytes; hand_over x y c z h) s₁ s₂
          payload (halves, d) got e₂ in
      let (done, s₃, went, e₄) =
        bind-eq_ok (send x y local.bytes) (λ done. hand_over x y c z h) s₂ (halves, d) e₃ in
      let (split, details) = hand_over-eq_ok x y c z key h s₃ halves d e₄ in
      (h, s₁, s₂, s₃, peer, details, went, split)

  within-eq_ok :
      {A : Type 0} (late : Bool) (r : Result A (Error x)) (a : A)
      → within x y late r ≡ ok a
      → (late ≡ false) × (r ≡ ok a)
  unfolding within
  within-eq_ok true r a e = absurd cc
  within-eq_ok false r a e = (refl, e)

  run-eq_ok :
      {A : Type 0} (made : Result (HandshakeContext x y) (Error x)) (steps : Hs x y A) (a : A)
      → run x y made steps ≡ ok a
      → (hs : HandshakeContext x y) × ((steps hs).0 ≡ ok a)
  unfolding run
  run-eq_ok (err q) steps a e = cc
  run-eq_ok (ok hs) steps a e = (hs, e)

  with_messages-eq_ok :
      (r : Result (Peer x y) (Error x)) (tx : PacketTx x) (rx : MessageRx x) (d : AuthDetails)
      → with_messages x y c z r ≡ ok ((tx, rx), d)
      → (r ≡ ok ((tx, rx.packets), d)) × (rx.read_buf ≡ [])
  unfolding with_messages
  with_messages-eq_ok (err q) tx rx d e = cc
  with_messages-eq_ok (ok ((tx₀, rx₀), d₀)) tx rx d e =
      let found : (PacketTx x × MessageRx x) × AuthDetails =
        ((tx₀, record { packets = rx₀; read_buf = [] }), d₀) in
      let said : (PacketTx x × MessageRx x) × AuthDetails = ((tx, rx), d) in
      let pair : found ≡ said = cc in
      (ap (λ q. ok ((q.0.0, q.0.1.packets), q.1)) pair, sym (ap (λ q. q.0.1.read_buf) pair))

  -- When accept returns, the time was not up, and the last message that it received held a header
  -- that verifies under the cluster key, is valid and names the static key that the handshake
  -- authenticated; the returned details are of this header, and the halves come from the handshake
  -- as it was when that message had been read.
  pub Authenticated-accept :
      (late : Bool) (read : x.Input) (write : x.Output) (private : TransportPrivateKey)
      (local : SignedAuthHeader) (tx : PacketTx x) (rx : MessageRx x) (d : AuthDetails)
      → accept x y c z late read write private local key ≡ ok ((tx, rx), d)
      → (h : AuthHeader) × (hs₀ : HandshakeContext x y) × (hs₁ : HandshakeContext x y)
        × Authenticated x y c z key h hs₀ hs₁
        × IsValid h
        × (d ≡ into_details h)
        × (into_split x y hs₁ ≡ ok (tx, rx.packets))
        × (rx.read_buf ≡ [])
        × (late ≡ false)
  unfolding accept accept_packets
  Authenticated-accept late read write private local tx rx d e =
      let (packets, empty) = with_messages-eq_ok _ tx rx d e in
      let (intime, made) = within-eq_ok late _ _ packets in
      let (hs, done) = run-eq_ok _ (accept_steps x y c z local key) _ made in
      let (h, hs₀, hs₁, peer, details, split) =
        accept_steps-eq_ok local hs (tx, rx.packets) d done in
      (
        h,
        hs₀,
        hs₁,
        peer,
        (verify_raw_sound c z key peer.payload h peer.verified).0,
        details,
        split,
        empty,
        intime,
      )

  -- When connect returns, the time was not up, and the message that it received held a header that
  -- verifies under the cluster key, is valid and names the static key that the handshake
  -- authenticated; its own header went out after that, the returned details are of the peer's
  -- header, and the halves come from the handshake as it was in the end.
  pub Authenticated-connect :
      (late : Bool) (read : x.Input) (write : x.Output) (private : TransportPrivateKey)
      (local : SignedAuthHeader) (tx : PacketTx x) (rx : MessageRx x) (d : AuthDetails)
      → connect x y c z late read write private local key ≡ ok ((tx, rx), d)
      → (h : AuthHeader) × (hs₀ : HandshakeContext x y) × (hs₁ : HandshakeContext x y)
        × (hs₂ : HandshakeContext x y) × Authenticated x y c z key h hs₀ hs₁
        × IsValid h
        × (d ≡ into_details h)
        × (send x y local.bytes hs₁ ≡ (ok tt, hs₂))
        × (into_split x y hs₂ ≡ ok (tx, rx.packets))
        × (rx.read_buf ≡ [])
        × (late ≡ false)
  unfolding connect connect_packets
  Authenticated-connect late read write private local tx rx d e =
      let (packets, empty) = with_messages-eq_ok _ tx rx d e in
      let (intime, made) = within-eq_ok late _ _ packets in
      let (hs, done) = run-eq_ok _ (connect_steps x y c z local key) _ made in
      let (h, hs₀, hs₁, hs₂, peer, details, sent, split) =
        connect_steps-eq_ok local hs (tx, rx.packets) d done in
      (
        h,
        hs₀,
        hs₁,
        hs₂,
        peer,
        (verify_raw_sound c z key peer.payload h peer.verified).0,
        details,
        sent,
        split,
        empty,
        intime,
      )
