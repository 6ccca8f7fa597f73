-- ===== src/Examples/Handshaking.antt =====
-- A concrete handshake that stays inside its buffers.
use snowpack.Prelude.{
  ℕ, ◌≤◌, ◌≡◌, refl, [], ◌∷◌, ◌++◌, Bytes, some, none, ok, length, drop, ltb, not, ◌&&◌, Bool-cases,
  inl, inr, length-append, length-drop, arith,
}
use snowpack.External.InBounds.{HandshakeInBounds}
use snowpack.Handshake.{HandshakeContext, new_context, new_noise_buf}
use snowpack.Handshake.Entry.{accept_steps, connect_steps}
use snowpack.Handshake.Checked.Chain.{
  checked_accept_steps, checked_connect_steps, accept-connect_checked,
}
use snowpack.Examples.Crypto.{toy_ed25519}
use snowpack.Examples.Frames.{toy_yatlv}
use snowpack.Examples.Link.{plain_net}
use snowpack.Examples.Auth.{cluster_keys}
use snowpack.Examples.Handshake.{local}
use snowpack.Examples.Honest.{Side, open_noise, message, overhead, read, write}

filled :
    (m buffer : Bytes)
    → length m ≤ length buffer
    → length (m ++ drop (length m) buffer) ≡ length buffer
filled m buffer h =
    omega (arith, length-append m (drop (length m) buffer), length-drop (length m) buffer)

write-length : (s : Side) (p buffer : Bytes) → length (write s p buffer).1 ≡ length buffer
write-length s p buffer =
    let m = message s p in
    elim (Bool-cases (not (ltb (length buffer) (length m)) && not (ltb 65535 (length m)))) [
      | inl fits ↦ rw fits (filled m buffer (ground arith))
      | inr refused ↦ rw refused refl
    ]

write-le :
    (s : Side) (p buffer : Bytes) (n : ℕ)
    → (write s p buffer).0 ≡ ok n
    → (n ≤ length buffer) × (n ≤ 65535)
write-le s p buffer n e = ground arith

read-length : (s : Side) (m buffer : Bytes) → length (read s m buffer).1 ≡ length buffer
read-length s m buffer =
    let p = drop (overhead s.step) m in
    elim (Bool-cases
      (not (ltb (length buffer) (length p)) && not (ltb (length m) (overhead s.step)))) [
        | inl fits ↦ rw fits (filled p buffer (ground arith))
        | inr refused ↦ rw refused refl
      ]

read-le : (s : Side) (m buffer : Bytes) (n : ℕ) → (read s m buffer).0 ≡ ok n → n ≤ length buffer
read-le s m buffer n e = ground arith

open_noise-InBounds : HandshakeInBounds plain_net open_noise
open_noise-InBounds = record {
  write_message-length = write-length;
  write_message-le = write-le;
  read_message-length = read-length;
  read_message-le = read-le;
}

abbrev fresh : HandshakeContext plain_net open_noise
fresh = record {
  handshake = record { step = 0; own = 1 ∷ []; peer = none };
  frame = [];
  noise_buf = new_noise_buf;
  read = 0 ∷ 2 ∷ 5 ∷ 6 ∷ [];
  write = [];
}

fresh-new :
    new_context plain_net open_noise
      (0 ∷ 2 ∷ 5 ∷ 6 ∷ [])
      []
      (ok (record { step = 0; own = 1 ∷ []; peer = none }))
    ≡ ok fresh
unfolding new_context
fresh-new = refl

accept-connect_checked_example :
    (checked_accept_steps plain_net open_noise toy_ed25519 toy_yatlv local cluster_keys.public fresh
      ≡ some
          (accept_steps plain_net open_noise toy_ed25519 toy_yatlv local cluster_keys.public fresh))
    × (checked_connect_steps plain_net open_noise toy_ed25519 toy_yatlv local cluster_keys.public
          fresh
        ≡ some (
            connect_steps plain_net open_noise toy_ed25519 toy_yatlv local cluster_keys.public
              fresh))
accept-connect_checked_example =
    accept-connect_checked plain_net open_noise open_noise-InBounds toy_ed25519 toy_yatlv local
      cluster_keys.public (0 ∷ 2 ∷ 5 ∷ 6 ∷ []) []
      (ok (record { step = 0; own = 1 ∷ []; peer = none })) fresh fresh-new
