-- ===== src/Handshake/Disclosure.antt =====
-- What an initiator in packets.rs gives away to a peer that it has not verified.
use snowpack.Prelude.{◌≡◌, ap, ◌⊎◌, inl, [], ok}
use snowpack.External.Net.{Net}
use snowpack.External.Noise.{Noise}
use snowpack.External.Ed25519.{Ed25519}
use snowpack.External.Yatlv.{Yatlv}
use snowpack.Sign.{SignatureVerificationKey}
use snowpack.Auth.{SignedAuthHeader, AuthHeader}
use snowpack.Packets.Exec.{bind-either}
use snowpack.Handshake.{HandshakeContext, recv, send}
use snowpack.Handshake.Entry.{check_peer, connect_steps}
use snowpack.Handshake.Peer.{Authenticated, check_peer-eq_ok}

module _ (x : Net) (y : Noise x) (c : Ed25519) (z : Yatlv) (key : SignatureVerificationKey c) where
  -- From any state of an initiator's handshake, either the peer's answer holds a header that
  -- verifies and names the static key of the handshake, or the steps of connect come to the same
  -- result and leave the same state, written bytes included, for any two headers of its own: an
  -- unverified peer learns nothing of it.
  pub connect_steps_blind :
      (hs : HandshakeContext x y) (local other : SignedAuthHeader)
      → ((h : AuthHeader) × (hs₀ : HandshakeContext x y) × (hs₁ : HandshakeContext x y) × (send x y
              [] hs
            ≡ (ok tt, hs₀))
          × Authenticated x y c z key h hs₀ hs₁)
        ⊎ (connect_steps x y c z local key hs ≡ connect_steps x y c z other key hs)
  unfolding connect_steps
  connect_steps_blind hs local other = bind-either (send x y []) _ _ hs λ done hs₀ sent.
      bind-either (recv x y) _ _ hs₀ λ payload hs₁ got.
        bind-either (check_peer x y c z key payload) _ _ hs₁ λ h hs₂ checked.
          let (verified, static) =
            check_peer-eq_ok x y c z key payload h hs₁ (ap (λ q. q.0) checked) in
          inl (
            h,
            hs₀,
            hs₁,
            sent,
            record { payload = payload; received = got; verified = verified; static = static },
          )
