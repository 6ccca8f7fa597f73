-- ===== src/Examples/Slices.antt =====
-- Concrete ciphers that stay inside their buffers, and a run whose slices are all in range.
use snowpack.Prelude.{
  ℕ, ◌+◌, ◌-◌, ◌≤◌, ◌≡◌, refl, ◌++◌, Bytes, ltb, not, ◌&&◌, Bool-cases, inl, inr, some, ok, length,
  take, drop, ◌%◌, length-append, length-drop, length-take, length-replicate, arith,
}
use snowpack.External.InBounds.{InBounds}
use snowpack.Packets.Shared.{shared, run_all}
use snowpack.Packets.Checked.{checked_run}
use snowpack.Packets.Checked.Run.{run_all-checked}
use snowpack.Messages.{read_bytes, into_packets}
use snowpack.Messages.Checked.{checked_read_message, checked_read_bytes, nexts, checked_nexts}
use snowpack.Messages.Checked.Slices.{read_bytes-next_checked}
use snowpack.Examples.Streams.{waiting, has_read, handle, read_message-waiting}
use snowpack.Examples.Link.{plain_net, encrypt, decrypt, tag}
use snowpack.Examples.Duplex.{two_way, endpoint, events}

filled :
    (t : ℕ) (p buffer : Bytes)
    → length p + 16 ≤ length buffer
    → length (p ++ tag t ++ drop (length p + 16) buffer) ≡ length buffer
filled t p buffer h =
    let rest = drop (length p + 16) buffer in
    omega (
      arith,
      length-append (p ++ tag t) rest,
      length-append p (tag t),
      length-drop (length p + 16) buffer,
      length-replicate 16 (t % 256),
    )

encrypt-length : (t : ℕ) (p buffer : Bytes) → length (encrypt t p buffer).1 ≡ length buffer
encrypt-length t p buffer =
    let n = length p + 16 in
    elim (Bool-cases (ltb 0 t && not (ltb 65535 n) && not (ltb (length buffer) n))) [
      | inl fits ↦ rw fits (filled t p buffer (ground arith))
      | inr refused ↦ rw refused refl
    ]

encrypt-le :
    (t : ℕ) (p buffer : Bytes) (n : ℕ)
    → (encrypt t p buffer).0 ≡ ok n
    → (n ≤ length buffer) × (n ≤ 65535)
encrypt-le t p buffer n e = ground arith

decrypt-length : (t : ℕ) (m buffer : Bytes) → length (decrypt t m buffer).1 ≡ length buffer
decrypt-length t m buffer =
    let n = length m - 16 in
    ground (arith, length-append (take n m) (drop n buffer), length-take n m, length-drop n buffer)

decrypt-le : (t : ℕ) (m buffer : Bytes) (n : ℕ) → (decrypt t m buffer).0 ≡ ok n → n ≤ length buffer
decrypt-le t m buffer n e = ground arith

pub two_way-InBounds : InBounds two_way
two_way-InBounds = record {
  write_message-length = λ t p buffer. encrypt-length t.0 p buffer;
  write_message-le = λ t p buffer n e. encrypt-le t.0 p buffer n e;
  read_message-length = λ t m buffer. decrypt-length t.1 m buffer;
  read_message-le = λ t m buffer n e. decrypt-le t.1 m buffer n e;
}

run_all-checked_example :
    checked_run two_way events endpoint ≡ some (run_all two_way (shared two_way) events endpoint)
run_all-checked_example = run_all-checked two_way two_way-InBounds events endpoint

plain_net-InBounds : InBounds plain_net
plain_net-InBounds = record {
  write_message-length = encrypt-length;
  write_message-le = encrypt-le;
  read_message-length = decrypt-length;
  read_message-le = decrypt-le;
}

read_bytes-next_checked_example :
    (checked_read_message plain_net waiting ≡ some (ok handle, has_read))
    × (checked_read_bytes plain_net 1 handle has_read
        ≡ some (read_bytes plain_net 1 handle has_read))
    × (checked_nexts plain_net 3 (into_packets plain_net handle has_read)
        ≡ some (nexts plain_net 3 (into_packets plain_net handle has_read)))
read_bytes-next_checked_example =
    read_bytes-next_checked plain_net plain_net-InBounds waiting has_read handle 1 3
      read_message-waiting
