-- ===== src/Sign/Payload.antt =====
-- Signed records (sign.rs): what `sign` writes `verify_payload` accepts, and what it accepts.
use snowpack.Prelude.{
  ◌+◌, ◌-◌, ◌≤◌, ◌≡◌, refl, sym, ◌∙◌, subst, ◌++◌, Bytes, true, Option, some, none, ok, err, length,
  length-append, take, drop, take-append-drop, take-length-append, drop-length-append, length-drop,
  arith, if◌then◌else◌,
}
use snowpack.External.Ed25519.{Ed25519}
use snowpack.External.Ed25519
use snowpack.Sign.{
  SignatureVerificationKey, SignatureKeypair, sign, verify_payload, generate, signature_len,
  bad_signature,
}

take-payload :
    (payload sig : Bytes)
    → length sig ≡ 64
    → take (length (payload ++ sig) - signature_len) (payload ++ sig) ≡ payload
take-payload payload sig h =
    let e : length (payload ++ sig) - signature_len ≡ length payload =
      omega (arith, length-append payload sig) in
    rw e (take-length-append payload sig)

drop-payload :
    (payload sig : Bytes)
    → length sig ≡ 64
    → drop (length (payload ++ sig) - signature_len) (payload ++ sig) ≡ sig
drop-payload payload sig h =
    let e : length (payload ++ sig) - signature_len ≡ length payload =
      omega (arith, length-append payload sig) in
    rw e (drop-length-append payload sig)

-- What `verify_payload` says of a payload with 64 bytes behind it that parse as a signature.
verify_payload-append :
    (c : Ed25519) (k : SignatureVerificationKey c) (payload sig : Bytes) (signature : c.Signature)
    → length sig ≡ 64
    → c.from_slice sig ≡ some signature
    → verify_payload c k (payload ++ sig)
      ≡ (if c.verify_strict k.key payload signature then ok payload else err bad_signature)
unfolding verify_payload
verify_payload-append c k payload sig signature h p =
    ground
      (arith, take-payload payload sig h, drop-payload payload sig h, length-append payload sig)

module _ (c : Ed25519) (law : Ed25519.IsLawful c) where
  unfoldable pub honest : Bytes → SignatureKeypair c
  honest secret = record {
    public = record { key = law.public_key secret };
    private = record { bytes = secret };
  }

  -- Generating a key pair does not fail.
  pub generate-ok : (secret : Bytes) → generate c secret ≡ ok (honest secret)
  unfolding generate honest
  generate-ok secret = ground (arith, law.from_bytes-public_bytes secret)

  sign-verify :
      (secret payload : Bytes)
      → verify_payload c (honest secret).public (sign c (honest secret).private payload)
        ≡ ok payload
  unfolding sign honest
  sign-verify secret payload =
      verify_payload-append c (record { key = law.public_key secret }) payload
        (c.sign secret payload) (law.signature secret payload) (law.length-sign secret payload)
        (law.from_slice-sign secret payload)
      ∙ rw (law.verify_strict-sign secret payload)

  -- Under a lawful signature scheme, a key pair is generated from every secret, its public half
  -- accepts what its private half signs and returns the payload, and a signed record is 64 bytes
  -- longer than its payload.
  pub verify_payload-sign :
      (secret payload : Bytes)
      → (k : SignatureKeypair c) × (generate c secret ≡ ok k)
        × (verify_payload c k.public (sign c k.private payload) ≡ ok payload)
        × (length (sign c k.private payload) ≡ length payload + 64)
  unfolding sign
  verify_payload-sign secret payload =
      (honest secret, generate-ok secret, sign-verify secret payload, honest_length)
    where
      honest_length :
          length (payload ++ c.sign (honest secret).private.bytes payload) ≡ length payload + 64
      honest_length = omega (
        arith,
        length-append payload (c.sign (honest secret).private.bytes payload),
        law.length-sign (honest secret).private.bytes payload,
      )

  -- The same for any pair that `generate` returned.
  pub generated-verify :
      (secret payload : Bytes) (k : SignatureKeypair c)
      → generate c secret ≡ ok k
      → verify_payload c k.public (sign c k.private payload) ≡ ok payload
  generated-verify secret payload k e =
      let same : honest secret ≡ k = cc (generate-ok secret) in
      subst (λ p. verify_payload c p.public (sign c p.private payload) ≡ ok payload) same
        (sign-verify secret payload)

module _ (c : Ed25519) (k : SignatureVerificationKey c) (raw payload : Bytes) where
  sound_at :
      (o : Option c.Signature)
      → c.from_slice (drop (length raw - signature_len) raw) ≡ o
      → verify_payload c k raw ≡ ok payload
      → (signature : c.Signature) × (signature_len ≤ length raw)
        × (o ≡ some signature)
        × (payload ≡ take (length raw - signature_len) raw)
        × (c.verify_strict k.key payload signature ≡ true)
  unfolding verify_payload
  sound_at none p e = ground arith
  sound_at (some signature) p e = (signature, ground arith, refl, ground arith, ground arith)

  -- An accepted record is the returned payload followed by 64 bytes that parse as a signature,
  -- which the key accepts for this payload.
  pub verify_payload_sound :
      verify_payload c k raw ≡ ok payload
      → (sig : Bytes) × (signature : c.Signature) × (raw ≡ payload ++ sig)
        × (length sig ≡ 64)
        × (c.from_slice sig ≡ some signature)
        × (c.verify_strict k.key payload signature ≡ true)
  verify_payload_sound e =
      let sig : Bytes = drop (length raw - signature_len) raw in
      let (signature, long, parsed, shape, accepted) = sound_at (c.from_slice sig) refl e in
      (
        sig,
        signature,
        rw shape (sym (take-append-drop (length raw - signature_len) raw)),
        omega (arith, length-drop (length raw - signature_len) raw),
        parsed,
        accepted,
      )
