-- ===== src/Packets/Wire.antt =====
-- One packet over a healthy connection: the frame that `write_packet` writes, and that `read_frame`
-- and `read_packet` of packets.rs take from the other end.
use snowpack.Prelude.{
  ℕ, ◌+◌, ◌%◌, ◌^◌, ◌<◌, ◌≤◌, ◌≡◌, refl, ◌++◌, [], ◌∷◌, Bytes, ok, map_err, length, take, drop,
  resize, length-resize, take-length-append, length-drop, ltb, if◌then◌else◌, arith,
}
use snowpack.External.Net.{Net, IsHealthy}
use snowpack.PacketState.Header.{frame_header_size, cipher_overhead_size, to_be_bytes}
use snowpack.PacketState.Reader.{read}
use snowpack.Packets.Error.{packet}
use snowpack.Packets.Frame.{
  Writer, write_packet, read_frame, send_frame, flush_frame, reserve, encrypt_frame,
}
use snowpack.Packets.Framing.{framed, cut_framed, read_framed, after_framed}
use snowpack.Packets.Rx.{PacketRx, read_packet, payload, decode, decrypt}

module _ (x : Net) (e : IsHealthy x) where
  open e use {left, sealed, wrote, opened, pending, skip, extend, flushed, Paired}

  -- The frame of a plaintext holds its ciphertext.
  unfoldable pub frame : x.Cipher → Bytes → Bytes
  frame t p = framed (sealed t p)

  -- A plaintext that a frame can hold.
  abbrev pub Fits : Bytes → Type 0
  Fits p = length p + 16 ≤ 65535

  -- What is written out of the buffer is the frame.
  cut_frame :
      (t : x.Cipher) (p b z : Bytes)
      → 2 ≤ length b
      → Fits p
      → take (frame_header_size + (length p + 16)) (
          to_be_bytes ((length p + 16) % 2 ^ 16)
          ++ drop frame_header_size (take frame_header_size b ++ (sealed t p ++ z)))
        ≡ frame t p
  unfolding frame
  cut_frame t p b z h fits =
      rw (← (e.length-sealed t p))
        (cut_framed (sealed t p) b z h (omega (arith, e.length-sealed t p)))

  send_frame-ok :
      (t : x.Cipher) (p b z : Bytes) (w : Writer x)
      → 2 ≤ length b
      → Fits p
      → w.write_buf ≡ take frame_header_size b ++ (sealed t p ++ z)
      → (buf : Bytes) × (send_frame x (ok (length p + 16)) w
          ≡ (ok tt, record w { write = flushed (extend w.write (frame t p)); write_buf = buf }))
  unfolding send_frame flush_frame
  send_frame-ok t p b z w h fits shape = (
    to_be_bytes ((length p + 16) % 2 ^ 16) ++ drop frame_header_size w.write_buf,
    ground (
      arith,
      shape,
      cut_frame t p b z h fits,
      e.write_all-ok w.write (frame t p),
      e.flush-ok (extend w.write (frame t p)),
    ),
  )

  length-reserve : (n : ℕ) (buf : Bytes) → n ≤ length (reserve x n buf)
  unfolding reserve
  length-reserve n buf = ground (arith, length-resize n buf)

  pub write_packet-ok :
      (p : Bytes) (w : Writer x)
      → 0 < left w.cipher
      → Fits p
      → (buf : Bytes) × (write_packet x p w ≡ (
        ok tt,
        record {
          cipher = wrote w.cipher;
          write = flushed (extend w.write (frame w.cipher p));
          write_buf = buf;
        },
      ))
  unfolding write_packet encrypt_frame
  write_packet-ok p w l fits =
      let frame_len = frame_header_size + (length p + cipher_overhead_size) in
      let b = reserve x frame_len w.write_buf in
      let room = length-reserve frame_len w.write_buf in
      rw
        (e.write_message-ok w.cipher p (drop frame_header_size b) l fits
          (omega (arith, room, length-drop frame_header_size b)))
        (send_frame-ok w.cipher p b _ _ (omega (arith, room)) fits refl)

  pub read_frame-ok :
      (t : x.Cipher) (p rest : Bytes) (input : x.Input) (buffer : Bytes)
      → Fits p
      → pending input ≡ frame t p ++ rest
      → read_frame x input buffer ≡ (ok tt, sealed t p, skip (length p + 16) (skip 2 input))
  unfolding frame
  read_frame-ok t p rest input buffer fits h =
      rw (← (e.length-sealed t p))
        (read_framed x e (sealed t p) rest input buffer (omega (arith, e.length-sealed t p)) h)

  pub after_frame :
      (t : x.Cipher) (p rest : Bytes) (input : x.Input)
      → pending input ≡ frame t p ++ rest
      → pending (skip (length p + 16) (skip 2 input)) ≡ rest
  unfolding frame
  after_frame t p rest input h =
      rw (← (e.length-sealed t p)) (after_framed x e (sealed t p) rest input h)

  -- The receiving half after the frame of a plaintext.
  pub record Received (t : x.Cipher) (p rest : Bytes) (rx rx' : PacketRx x) : Type 0 where
    pub cipher : rx'.cipher ≡ opened rx.cipher
    pub reader : rx'.packet_reader ≡ (read rx.packet_reader p).1
    pub rest_pending : pending rx'.input ≡ rest
    pub payload_is : payload x rx' ≡ drop 2 p

  behind_header : (p : Bytes) → (if ltb 2 (length p) then drop 2 p else []) ≡ drop 2 p
  behind_header [] = refl
  behind_header (a ∷ []) = refl
  behind_header (a ∷ b ∷ []) = refl
  behind_header (a ∷ b ∷ c ∷ p) = ground arith

  -- The plaintext buffer after the decryption, behind the plaintext.
  tail : (t : x.Cipher) (p : Bytes) → PacketRx x → Bytes
  tail t p rx = drop (length p) (resize (length (sealed t p)) rx.plaintext_buf)

  abbrev after_read : (t : x.Cipher) (p : Bytes) → PacketRx x → PacketRx x
  after_read t p rx = record {
    cipher = opened rx.cipher;
    packet_reader = (read rx.packet_reader p).1;
    input = skip (length p + 16) (skip 2 rx.input);
    ciphertext_buf = sealed t p;
    plaintext_buf = p ++ tail t p rx;
    payload_end = length p;
  }

  payload-after_read :
      (t : x.Cipher) (p : Bytes) (rx : PacketRx x) → payload x (after_read t p rx) ≡ drop 2 p
  unfolding payload
  payload-after_read t p rx = rw (take-length-append p (tail t p rx)) (behind_header p)

  decrypted :
      (t : x.Cipher) (p : Bytes) (rx : PacketRx x)
      → Fits p
      → 0 < left t
      → Paired t rx.cipher
      → x.read_message rx.cipher (sealed t p) (resize (length (sealed t p)) rx.plaintext_buf)
        ≡ (ok (length p), p ++ tail t p rx, opened rx.cipher)
  unfolding tail
  decrypted t p rx fits l pair =
      let room : length p ≤ length (resize (length (sealed t p)) rx.plaintext_buf) =
        omega (arith, length-resize (length (sealed t p)) rx.plaintext_buf, e.length-sealed t p) in
      e.read_message-ok t rx.cipher p (resize (length (sealed t p)) rx.plaintext_buf) pair l fits
        room

  -- Reading the frame of a plaintext gives what the packet reader says of it.
  pub read_packet-ok :
      (t : x.Cipher) (p rest : Bytes) (rx : PacketRx x)
      → Fits p
      → 0 < left t
      → Paired t rx.cipher
      → pending rx.input ≡ frame t p ++ rest
      → (rx' : PacketRx x) × (read_packet x rx ≡ (map_err packet (read rx.packet_reader p).0, rx'))
        × Received t p rest rx rx'
  unfolding read_packet decrypt decode
  read_packet-ok t p rest rx fits l pair h = (
    after_read t p rx,
    rw (
      read_frame-ok t p rest rx.input rx.ciphertext_buf fits h,
      decrypted t p rx fits l pair,
      take-length-append p (tail t p rx),
    ),
    record {
      cipher = refl;
      reader = refl;
      rest_pending = after_frame t p rest rx.input h;
      payload_is = payload-after_read t p rx;
    },
  )
