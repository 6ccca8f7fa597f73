-- ===== src/Packets/Framing.antt =====
-- One frame of packets.rs, whatever message it holds: how it is put together in a buffer, and how
-- `read_frame` takes it from a healthy stream.
use snowpack.Prelude.{
  ◌+◌, ◌*◌, ◌/◌, ◌%◌, ◌^◌, ◌≤◌, ◌≡◌, refl, sym, ap, ◌∙◌, ◌++◌, append_assoc, Bytes, ok, length,
  length-append, take, drop, resize, length-resize, take-append_of_length, drop-append_of_length,
  drop-take-append, arith,
}
use snowpack.External.Net.{Net, IsHealthy}
use snowpack.PacketState.Header.{frame_header_size, to_be_bytes}
use snowpack.Packets.Frame.{read_frame, read_body}

-- The length of the message in two bytes, then the message.
unfoldable pub framed : Bytes → Bytes
framed m = to_be_bytes (length m) ++ m

regroup : (m z : Bytes) → to_be_bytes (length m) ++ (m ++ z) ≡ framed m ++ z
unfolding framed
regroup m z = sym (append_assoc (to_be_bytes (length m)) m z)

pub length-framed : (m : Bytes) → length (framed m) ≡ 2 + length m
unfolding framed to_be_bytes
length-framed m = omega arith

-- What is written out of the buffer is the frame.
pub cut_framed :
    (m b z : Bytes)
    → 2 ≤ length b
    → length m ≤ 65535
    → take (frame_header_size + length m) (
        to_be_bytes (length m % 2 ^ 16)
        ++ drop frame_header_size (take frame_header_size b ++ (m ++ z)))
      ≡ framed m
cut_framed m b z h fits =
    let small : length m % 2 ^ 16 ≡ length m = omega arith in
    rw (small, drop-take-append frame_header_size b (m ++ z) h)
      (ap (take (frame_header_size + length m)) (regroup m z)
        ∙ take-append_of_length (frame_header_size + length m) (framed m) z (length-framed m))

module _ (x : Net) (e : IsHealthy x) where
  open e use {pending, skip}

  prefix :
      (m rest : Bytes) (input : x.Input)
      → length m ≤ 65535
      → pending input ≡ framed m ++ rest
      → x.read_u16 input ≡ (ok (length m), skip 2 input)
  unfolding framed to_be_bytes
  prefix m rest input fits h =
      let n = length m in
      let value : n / 256 % 256 * 256 + n % 256 ≡ n = omega arith in
      e.read_u16-ok input (n / 256 % 256) (n % 256) (m ++ rest) h
      ∙ ap (λ k. (ok k, skip 2 input)) value

  after_prefix :
      (m rest : Bytes) (input : x.Input)
      → pending input ≡ framed m ++ rest
      → pending (skip 2 input) ≡ m ++ rest
  unfolding framed to_be_bytes
  after_prefix m rest input h = e.pending-skip 2 input ∙ ap (drop 2) h

  body :
      (m rest : Bytes) (input : x.Input) (buffer : Bytes)
      → pending input ≡ framed m ++ rest
      → x.read_exact (skip 2 input) (resize (length m) buffer)
        ≡ (ok tt, m, skip (length m) (skip 2 input))
  body m rest input buffer h =
      let n = length m in
      let after = after_prefix m rest input h in
      let room : length (resize n buffer) ≤ length (pending (skip 2 input)) =
        omega (arith, length-resize n buffer, ap length after, length-append m rest) in
      e.read_exact-ok (skip 2 input) (resize n buffer) room
      ∙ rw (length-resize n buffer, after)
          (ap (λ bs. (ok tt, bs, skip n (skip 2 input))) (take-append_of_length n m rest refl))

  pub read_framed :
      (m rest : Bytes) (input : x.Input) (buffer : Bytes)
      → length m ≤ 65535
      → pending input ≡ framed m ++ rest
      → read_frame x input buffer ≡ (ok tt, m, skip (length m) (skip 2 input))
  unfolding read_frame read_body
  read_framed m rest input buffer fits h =
      rw (prefix m rest input fits h, body m rest input buffer h)

  pub after_framed :
      (m rest : Bytes) (input : x.Input)
      → pending input ≡ framed m ++ rest
      → pending (skip (length m) (skip 2 input)) ≡ rest
  after_framed m rest input h =
      e.pending-skip (length m) (skip 2 input)
      ∙ ap (drop (length m)) (after_prefix m rest input h)
      ∙ drop-append_of_length (length m) m rest refl
