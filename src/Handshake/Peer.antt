-- ===== src/Handshake/Peer.antt =====
-- The check of the peer in the handshake of packets.rs: what its success says.
use snowpack.Prelude.{
  ◌≡◌, refl, ap, sym, ◌∙◌, inl, inr, Bytes, some, Result, ok, err, map_err, arith,
}
use snowpack.External.Net.{Net}
use snowpack.External.Noise.{Noise}
use snowpack.External.Ed25519.{Ed25519}
use snowpack.External.Yatlv.{Yatlv}
use snowpack.Noise.{TransportPublicKey}
use snowpack.Sign.{SignatureVerificationKey}
use snowpack.Auth.{AuthHeader, AuthDetails, verify_raw, validate_public_key, into_details}
use snowpack.Auth.Credential.{validate_public_key_lem}
use snowpack.Packets.Error.{bad_auth}
use snowpack.Packets.Exec.{◌>>=◌, ◌>>◌, pure, ask, bind-eq_ok, ask-eq_ok, ask-state}
use snowpack.Handshake.{HandshakeContext, Hs, Halves, recv, remote_static, into_split}
use snowpack.Handshake.Entry.{Peer, validated, check_peer, hand_over}

pub map_err-eq_ok :
    {A E F : Type 0} (f : E → F) (r : Result A E) (a : A) → map_err f r ≡ ok a → r ≡ ok a
map_err-eq_ok f (ok b) a e = ground arith
map_err-eq_ok f (err x) a e = cc

checked_key :
    (h : AuthHeader) (k : TransportPublicKey) → validate_public_key h k ≡ ok tt → h.public_key ≡ k
checked_key h k e = elim (validate_public_key_lem h k) [
  | inl passed ↦ passed.1
  | inr refused ↦ absurd cc
]

module _ (x : Net) (y : Noise x) (c : Ed25519) (z : Yatlv) (key : SignatureVerificationKey c) where
  -- In the last message that was received the peer sent this header: it verifies, and its key is the static key that
  -- the handshake authenticated.
  pub record Authenticated (h : AuthHeader) (hs₀ hs₁ : HandshakeContext x y) : Type 0 where
    pub payload : Bytes
    pub received : recv x y hs₀ ≡ (ok payload, hs₁)
    pub verified : verify_raw c z key payload ≡ ok h
    pub static : y.get_remote_static hs₁.handshake ≡ some h.public_key.bytes

  remote_static-eq_ok :
      (hs : HandshakeContext x y) (k : TransportPublicKey)
      → remote_static x y hs ≡ ok k
      → y.get_remote_static hs.handshake ≡ some k.bytes
  unfolding remote_static
  remote_static-eq_ok hs k e = ground arith

  validated-eq_ok :
      (h h' : AuthHeader) (hs : HandshakeContext x y)
      → (validated x y c z h hs).0 ≡ ok h'
      → (h ≡ h') × (y.get_remote_static hs.handshake ≡ some h.public_key.bytes)
  unfolding validated
  validated-eq_ok h h' hs e =
      let (k, static, e₁) =
        ask-eq_ok (remote_static x y)
          (λ k. do ask (λ s. map_err bad_auth (validate_public_key h k)); pure h) hs h' e in
      let (done, checked, e₂) =
        ask-eq_ok (λ s. map_err bad_auth (validate_public_key h k)) (λ done. pure h) hs h' e₁ in
      let same = checked_key h k (map_err-eq_ok bad_auth (validate_public_key h k) done checked) in
      (ground arith, remote_static-eq_ok hs k static ∙ ap (λ q. some q.bytes) (sym same))

  pub check_peer-state :
      (payload : Bytes) (hs : HandshakeContext x y) → (check_peer x y c z key payload hs).1 ≡ hs
  unfolding check_peer validated
  check_peer-state payload hs =
      ask-state (λ s. map_err bad_auth (verify_raw c z key payload)) (validated x y c z) hs
        (λ h.
          ask-state (remote_static x y)
            (λ k. do ask (λ s. map_err bad_auth (validate_public_key h k)); pure h) hs
            (λ k.
              ask-state (λ s. map_err bad_auth (validate_public_key h k)) (λ done. pure h) hs
                (λ done. refl)))

  pub check_peer-eq_ok :
      (payload : Bytes) (h : AuthHeader) (hs : HandshakeContext x y)
      → (check_peer x y c z key payload hs).0 ≡ ok h
      → (verify_raw c z key payload ≡ ok h)
        × (y.get_remote_static hs.handshake ≡ some h.public_key.bytes)
  unfolding check_peer
  check_peer-eq_ok payload h hs e =
      let (h₀, verified, e₁) =
        ask-eq_ok (λ s. map_err bad_auth (verify_raw c z key payload)) (validated x y c z) hs h e in
      let (same, static) = validated-eq_ok h₀ h hs e₁ in
      (
        map_err-eq_ok bad_auth (verify_raw c z key payload) h₀ verified ∙ ap ok same,
        static ∙ ap (λ q. some q.public_key.bytes) same,
      )

  pub hand_over-eq_ok :
      (h : AuthHeader) (hs : HandshakeContext x y) (halves : Halves x y) (d : AuthDetails)
      → (hand_over x y c z h hs).0 ≡ ok (halves, d)
      → (into_split x y hs ≡ ok halves) × (d ≡ into_details h)
  unfolding hand_over
  hand_over-eq_ok h hs halves d e =
      let (made, split, e₁) =
        ask-eq_ok (into_split x y) (λ q. pure (q, into_details h)) hs (halves, d) e in
      let found : Peer x y = (made, into_details h) in
      let said : Peer x y = (halves, d) in
      let pair : found ≡ said = cc in (split ∙ ap (λ q. ok q.0) pair, sym (ap (λ q. q.1) pair))

  -- The check of the peer in a chain: what it found, and the rest of the chain.
  pub check_peer-bind :
      (f : AuthHeader → Hs x y (Peer x y)) (hs₀ hs₁ : HandshakeContext x y) (payload : Bytes)
      (peer : Peer x y)
      → recv x y hs₀ ≡ (ok payload, hs₁)
      → ((check_peer x y c z key payload >>= f) hs₁).0 ≡ ok peer
      → (h : AuthHeader) × Authenticated h hs₀ hs₁ × ((f h hs₁).0 ≡ ok peer)
  check_peer-bind f hs₀ hs₁ payload peer got e =
      let (h, s, checked, rest) = bind-eq_ok (check_peer x y c z key payload) f hs₁ peer e in
      let (verified, static) = check_peer-eq_ok payload h hs₁ (ap (λ q. q.0) checked) in
      let same : s ≡ hs₁ = sym (ap (λ q. q.1) checked) ∙ check_peer-state payload hs₁ in
      (
        h,
        record { payload = payload; received = got; verified = verified; static = static },
        ap (λ w. (f h w).0) (sym same) ∙ rest,
      )
