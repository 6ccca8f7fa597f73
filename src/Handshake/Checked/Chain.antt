-- ===== src/Handshake/Checked/Chain.antt =====
-- `accept` and `connect` of packets.rs: no slice of a handshake is out of range.
use snowpack.Prelude.{
  ◌≡◌, refl, sym, ap, ◌∙◌, [], Bytes, some, Result, ok, err, length, length-replicate_zeros,
  replicate,
}
use snowpack.External.Net.{Net}
use snowpack.External.Noise.{Noise}
use snowpack.External.InBounds.{HandshakeInBounds}
use snowpack.External.Ed25519.{Ed25519}
use snowpack.External.Yatlv.{Yatlv}
use snowpack.Sign.{SignatureVerificationKey}
use snowpack.Auth.{SignedAuthHeader, AuthHeader}
use snowpack.Packets.Error.{Error}
use snowpack.Packets.Exec.{ask-state}
use snowpack.Packets.Exec.Checked.{CheckedExec, ◌>>=◌, ◌>>◌, lift, Keeps, Keeps-bind}
use snowpack.Handshake.{HandshakeContext, new_context, new_noise_buf, into_split}
use snowpack.Handshake.Entry.{Peer, check_peer, hand_over, accept_steps, connect_steps}
use snowpack.Handshake.Peer.{check_peer-state}
use snowpack.Handshake.Checked.{checked_recv, checked_send}
use snowpack.Handshake.Checked.Slices.{Roomy, Keeps-recv, Keeps-send}

module _ (x : Net) (y : Noise x) (c : Ed25519) (z : Yatlv) where
  abbrev pub CheckedHs : Type 0 → Type 0
  CheckedHs A = CheckedExec (HandshakeContext x y) (Error x) A

  unfoldable pub checked_accept_steps :
      SignedAuthHeader → SignatureVerificationKey c → CheckedHs (Peer x y)
  checked_accept_steps local_auth_header verification_key = do
    hello ← checked_recv x y
    checked_send x y local_auth_header.bytes
    payload ← checked_recv x y
    h ← lift (check_peer x y c z verification_key payload)
    lift (hand_over x y c z h)

  unfoldable pub checked_connect_steps :
      SignedAuthHeader → SignatureVerificationKey c → CheckedHs (Peer x y)
  checked_connect_steps local_auth_header verification_key = do
    checked_send x y []
    payload ← checked_recv x y
    h ← lift (check_peer x y c z verification_key payload)
    checked_send x y local_auth_header.bytes
    lift (hand_over x y c z h)

module _ (x : Net) (y : Noise x) (b : HandshakeInBounds x y) (c : Ed25519) (z : Yatlv)
    (local : SignedAuthHeader) (key : SignatureVerificationKey c) where
  Keeps-check_peer :
      (payload : Bytes)
      → Keeps (Roomy x y b) (lift (check_peer x y c z key payload)) (check_peer x y c z key payload)
  Keeps-check_peer payload hs h =
      (refl, ap (λ s. length s.noise_buf) (check_peer-state x y c z key payload hs) ∙ h)

  Keeps-hand_over :
      (h : AuthHeader) → Keeps (Roomy x y b) (lift (hand_over x y c z h)) (hand_over x y c z h)
  unfolding hand_over
  Keeps-hand_over h hs room =
      (refl, ap (λ s. length s.noise_buf) (ask-state (into_split x y) _ hs (λ halves. refl)) ∙ room)

  Keeps-accept_steps :
      Keeps (Roomy x y b) (checked_accept_steps x y c z local key) (accept_steps x y c z local key)
  unfolding checked_accept_steps accept_steps
  Keeps-accept_steps = Keeps-bind _ _ _ _ _ (Keeps-recv x y b) λ hello.
      Keeps-bind _ _ _ _ _ (Keeps-send x y b local.bytes) λ sent.
        Keeps-bind _ _ _ _ _ (Keeps-recv x y b)
          λ payload. Keeps-bind _ _ _ _ _ (Keeps-check_peer payload) λ h. Keeps-hand_over h

  Keeps-connect_steps :
      Keeps
        (Roomy x y b)
        (checked_connect_steps x y c z local key)
        (connect_steps x y c z local key)
  unfolding checked_connect_steps connect_steps
  Keeps-connect_steps = Keeps-bind _ _ _ _ _ (Keeps-send x y b []) λ sent.
      Keeps-bind _ _ _ _ _ (Keeps-recv x y b) λ payload.
        Keeps-bind _ _ _ _ _ (Keeps-check_peer payload)
          λ h. Keeps-bind _ _ _ _ _ (Keeps-send x y b local.bytes) λ sent. Keeps-hand_over h

  buffer : Result (HandshakeContext x y) (Error x) → Bytes
  buffer (err e) = replicate 65537 0
  buffer (ok hs) = hs.noise_buf

  buffer-new_context :
      (read : x.Input) (write : x.Output) (made : Result y.Handshake x.SnowError)
      → buffer (new_context x y read write made) ≡ replicate 65537 0
  unfolding new_context new_noise_buf buffer
  buffer-new_context read write (err e) = refl
  buffer-new_context read write (ok handshake) = refl

  Roomy-new_context :
      (read : x.Input) (write : x.Output) (made : Result y.Handshake x.SnowError)
      (hs : HandshakeContext x y)
      → new_context x y read write made ≡ ok hs
      → Roomy x y b hs
  unfolding buffer
  Roomy-new_context read write made hs h =
      ap (λ r. length (buffer r)) (sym h)
      ∙ ap length (buffer-new_context read write made)
      ∙ length-replicate_zeros 65537

  -- For a handshake context that was just made, over any stream and a handshake that keeps to its
  -- buffers, and refuses a message above 65,535 bytes, as snow documents, no step of accept and
  -- none of connect slices its buffer out of range or cuts off a length: with every slice and cast
  -- checked they come to the same result and state.
  pub accept-connect_checked :
      (read : x.Input) (write : x.Output) (made : Result y.Handshake x.SnowError)
      (hs : HandshakeContext x y)
      → new_context x y read write made ≡ ok hs
      → (checked_accept_steps x y c z local key hs ≡ some (accept_steps x y c z local key hs))
        × (checked_connect_steps x y c z local key hs ≡ some (connect_steps x y c z local key hs))
  accept-connect_checked read write made hs h =
      let room = Roomy-new_context read write made hs h in
      ((Keeps-accept_steps hs room).0, (Keeps-connect_steps hs room).0)
