-- ===== src/Auth/Credential.antt =====
-- Signed auth headers (auth.rs): issued by the cluster key, verified by a peer.
use snowpack.Prelude.{
  ◌<◌, ◌≡◌, ◌≢◌, refl, ◌++◌, Bytes, IsBytes, Bool, true, false, some, Result, ok, err, length,
  arith, map_err, ◌>>=◌, ◌⊎◌, inl, inr, bytes_eq, bytes_eq-eq, bytes_eq_refl, Bool-cases,
}
use snowpack.External.Text.{Text}
use snowpack.External.Text
use snowpack.External.Ed25519.{Ed25519}
use snowpack.External.Ed25519
use snowpack.External.Yatlv.{Yatlv, Fits}
use snowpack.External.Yatlv
use snowpack.NodeId.{NodeId, max_node_id_len}
use snowpack.Noise.{TransportPublicKey}
use snowpack.Sign.{
  SignatureVerificationKey, SignatureKeypair, SignatureValidationErr, verify_payload, generate,
  malformed_record,
}
use snowpack.Sign.Payload.{generated-verify, verify_payload_sound}
use snowpack.Auth.{
  AuthHeader, SignedAuthHeader, signature, public_key_mismatch, node_id_mismatch, check_node_id,
  validate_public_key, into_details, fields, to_yatlv, from_yatlv, sign, verify, verify_raw,
  expose_to_human_string, signed_from_str, serialize_signed, deserialize_signed,
}
use snowpack.Auth.Header.{IsValid, from_yatlv-to_yatlv, from_yatlv-too_long, from_yatlv-IsValid}

module _ (c : Ed25519) (ec : Ed25519.IsLawful c) (y : Yatlv) (ey : Yatlv.IsLawful y) where
  -- Under a lawful signature scheme and lawful frames, a valid header whose fields fit a frame,
  -- signed with a generated key, verifies under its public half, to itself.
  pub verify-sign :
      (secret : Bytes) (h : AuthHeader) (k : SignatureKeypair c)
      → generate c secret ≡ ok k
      → Fits y (fields h)
      → IsValid h
      → verify c y (sign c y h k.private) k.public ≡ ok h
  unfolding verify sign
  verify-sign secret h k e fits v =
      ground
        (arith, generated-verify c ec secret (to_yatlv y h) k e, from_yatlv-to_yatlv y ey h fits v)

  -- Under a lawful signature scheme and lawful frames, a header whose node id has more than 512
  -- bytes, and whose fields fit a frame, is signed with a generated key all the same, and
  -- verification refuses it as a malformed record.
  pub verify-sign_too_long :
      (secret : Bytes) (h : AuthHeader) (k : SignatureKeypair c)
      → generate c secret ≡ ok k
      → Fits y (fields h)
      → max_node_id_len < length h.node_id.bytes
      → verify c y (sign c y h k.private) k.public ≡ err (signature malformed_record)
  unfolding verify sign
  verify-sign_too_long secret h k e fits v =
      ground
        (arith, generated-verify c ec secret (to_yatlv y h) k e, from_yatlv-too_long y ey h fits v)

verify_raw-eq-ok :
    (c : Ed25519) (y : Yatlv) (key : SignatureVerificationKey c) (raw : Bytes) (h : AuthHeader)
    → verify_raw c y key raw ≡ ok h
    → (payload : Bytes) × (verify_payload c key raw ≡ ok payload) × (from_yatlv y payload ≡ ok h)
unfolding verify_raw
verify_raw-eq-ok c y key raw h e = by_payload (verify_payload c key raw) refl e
  where
    by_payload :
        (r : Result Bytes SignatureValidationErr)
        → verify_payload c key raw ≡ r
        → (map_err signature r >>= λ payload.
            map_err (λ e'. signature malformed_record) (from_yatlv y payload))
          ≡ ok h
        → (payload : Bytes) × (r ≡ ok payload) × (from_yatlv y payload ≡ ok h)
    by_payload (ok payload) p q = (payload, refl, ground arith)
    by_payload (err x) p q = cc

-- Whatever the signature scheme and the frames are, a header that verifies has a node id within
-- bounds and a key of 32 bytes, and stands in the payload for which the cluster key accepts the
-- signature in the last 64 bytes.
pub verify_raw_sound :
    (c : Ed25519) (y : Yatlv) (key : SignatureVerificationKey c) (raw : Bytes) (h : AuthHeader)
    → verify_raw c y key raw ≡ ok h
    → IsValid h
      × (payload : Bytes) × (sig : Bytes) × (s : c.Signature) × (raw ≡ payload ++ sig)
      × (length sig ≡ 64)
      × (c.from_slice sig ≡ some s)
      × (c.verify_strict key.key payload s ≡ true)
      × (from_yatlv y payload ≡ ok h)
unfolding verify_raw
verify_raw_sound c y key raw h e =
    let (payload, verified, parsed) = verify_raw-eq-ok c y key raw h e in
    let (sig, s, shape, len, slice, strict) = verify_payload_sound c key raw payload verified in
    (from_yatlv-IsValid y payload h parsed, payload, sig, s, shape, len, slice, strict, parsed)

same_key : (a b : TransportPublicKey) → bytes_eq a.bytes b.bytes ≡ true → a ≡ b
same_key a b e = let p = bytes_eq-eq a.bytes b.bytes e in λ i. record { bytes = p i }

other_key : (a b : TransportPublicKey) → bytes_eq a.bytes b.bytes ≡ false → a ≢ b
other_key a b e p = let q : bytes_eq a.bytes b.bytes ≡ true = rw p (bytes_eq_refl b.bytes) in cc

same_id : (a b : NodeId) → bytes_eq a.bytes b.bytes ≡ true → a ≡ b
same_id a b e = let p = bytes_eq-eq a.bytes b.bytes e in λ i. record { bytes = p i }

other_id : (a b : NodeId) → bytes_eq a.bytes b.bytes ≡ false → a ≢ b
other_id a b e p = let q : bytes_eq a.bytes b.bytes ≡ true = rw p (bytes_eq_refl b.bytes) in cc

-- The key check passes exactly on the declared key, and otherwise names both keys.
pub validate_public_key_lem :
    (h : AuthHeader) (key : TransportPublicKey)
    → ((validate_public_key h key ≡ ok tt) × (h.public_key ≡ key))
      ⊎ ((validate_public_key h key ≡ err (public_key_mismatch h.public_key key))
          × (h.public_key ≢ key))
unfolding validate_public_key
validate_public_key_lem h key = elim (Bool-cases (bytes_eq h.public_key.bytes key.bytes)) [
  | inl same ↦ inl (rw same, same_key h.public_key key same)
  | inr differs ↦ inr (rw differs, λ e. other_key h.public_key key differs e)
]

-- The node id check passes exactly on the header's node id, and otherwise names both ids.
pub check_node_id_lem :
    (h : AuthHeader) (expected : NodeId)
    → ((check_node_id (into_details h) expected ≡ ok tt) × (h.node_id ≡ expected))
      ⊎ ((check_node_id (into_details h) expected ≡ err (node_id_mismatch expected h.node_id))
          × (h.node_id ≢ expected))
unfolding check_node_id into_details
check_node_id_lem h expected = elim (Bool-cases (bytes_eq h.node_id.bytes expected.bytes)) [
  | inl same ↦ inl (rw same, same_id h.node_id expected same)
  | inr differs ↦ inr (rw differs, λ e. other_id h.node_id expected differs e)
]

-- A signed header is read back from its hex string and from its serde value in both formats, when
-- encoding and decoding are lawful.
pub signed_round_trip :
    (x : Text) (law : Text.IsLawful x) (signed : SignedAuthHeader)
    → IsBytes signed.bytes
    → (human_readable : Bool)
    → (signed_from_str x (expose_to_human_string x signed) ≡ ok signed)
      × (deserialize_signed x human_readable (serialize_signed x human_readable signed) ≡ ok signed)
unfolding signed_from_str expose_to_human_string deserialize_signed serialize_signed
signed_round_trip x law signed isb true =
    ground
      (arith, law.decode-encode signed.bytes isb, law.to_string-from_string (x.encode signed.bytes))
signed_round_trip x law signed isb false =
    ground (arith, law.decode-encode signed.bytes isb, law.to_vec-from_vec signed.bytes)
