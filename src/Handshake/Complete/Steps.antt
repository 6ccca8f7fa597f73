-- ===== src/Handshake/Complete/Steps.antt =====
-- `send` and `recv` of the handshake between two honest peers.
use snowpack.Prelude.{
  ℕ, ◌+◌, ◌%◌, ◌^◌, ◌<◌, ◌≤◌, ◌≡◌, refl, ap, ◌∙◌, ◌++◌, Bytes, ok, length, length-append, take,
  drop, take-length-append, length-take, length-drop, arith,
}
use snowpack.External.Net.{Net, IsHealthy}
use snowpack.External.Noise.{Noise, IsHonest}
use snowpack.PacketState.Header.{frame_header_size, to_be_bytes}
use snowpack.Packets.Frame.{flush_frame}
use snowpack.Packets.Framing.{framed, cut_framed, read_framed, after_framed}
use snowpack.Handshake.{HandshakeContext, recv, received, opened, send, sealed}

module _ (x : Net) (e : IsHealthy x) (y : Noise x) (n : IsHonest x e y) where
  open e use {pending, skip, written}
  open n use {Stage, overhead, message, wrote, took}

  -- A context with this handshake state, bytes to read and bytes written.
  pub record At (hs : HandshakeContext x y) (h : y.Handshake) (stream out : Bytes) : Type 0 where
    pub handshake_is : hs.handshake ≡ h
    pub room : length hs.noise_buf ≡ 65537
    pub to_read : pending hs.read ≡ stream
    pub has_written : written hs.write ≡ out

  abbrev pub Fits : ℕ → Bytes → Type 0
  Fits k p = overhead k + length p + 16 ≤ 65535

  -- The buffer that the message is written into, and the one that is left behind.
  sealed-ok :
      (m b z : Bytes) (hs : HandshakeContext x y)
      → 2 ≤ length b
      → length m ≤ 65535
      → hs.noise_buf ≡ take frame_header_size b ++ (m ++ z)
      → sealed x y (ok (length m)) hs ≡ (
        ok tt,
        record hs {
          noise_buf = to_be_bytes (length m % 2 ^ 16) ++ drop frame_header_size hs.noise_buf;
          write = e.flushed (e.extend hs.write (framed m));
        },
      )
  unfolding sealed flush_frame
  sealed-ok m b z hs h fits shape = ground (
    arith,
    shape,
    cut_framed m b z h fits,
    e.write_all-ok hs.write (framed m),
    e.flush-ok (e.extend hs.write (framed m)),
  )

  abbrev behind : Bytes → Bytes → Bytes
  behind m buf = drop (length m) (drop frame_header_size buf)

  send_steps :
      (k : ℕ) (a b : Bytes) (w r : y.Handshake) (p : Bytes) (hs : HandshakeContext x y)
      → k < 3
      → Stage k a b w r
      → Fits k p
      → hs.handshake ≡ w
      → length hs.noise_buf ≡ 65537
      → let m = message w p in
        let buf = take frame_header_size hs.noise_buf ++ (m ++ behind m hs.noise_buf) in
        send x y p hs ≡ (
          ok tt,
          record hs {
            handshake = wrote w p;
            noise_buf = to_be_bytes (length m % 2 ^ 16) ++ drop frame_header_size buf;
            write = e.flushed (e.extend hs.write (framed m));
          },
        )
  unfolding send
  send_steps k a b w r p hs turn stage fits at room =
      let m = message w p in
      rw
        (
          at,
          n.write_message-ok k a b w r p (drop frame_header_size hs.noise_buf) turn stage fits
              (omega (arith, length-drop frame_header_size hs.noise_buf)),
        )
        (sealed-ok m hs.noise_buf (behind m hs.noise_buf) _ (omega arith)
          (omega (arith, n.length-message k a b w r p stage)) refl)

  length-buffer :
      (m buf : Bytes)
      → length buf ≡ 65537
      → length m ≤ 65535
      → length (
          to_be_bytes (length m % 2 ^ 16)
          ++ drop frame_header_size (take frame_header_size buf ++ (m ++ behind m buf)))
        ≡ 65537
  unfolding to_be_bytes
  length-buffer m buf room fits =
      let whole = take frame_header_size buf ++ (m ++ behind m buf) in
      omega (
        arith,
        length-drop frame_header_size whole,
        length-append (take frame_header_size buf) (m ++ behind m buf),
        length-append m (behind m buf),
        length-take frame_header_size buf,
        length-drop (length m) (drop frame_header_size buf),
        length-drop frame_header_size buf,
      )

  -- A message is written in one frame.
  pub send-At :
      (k : ℕ) (a b : Bytes) (w r : y.Handshake) (p stream out : Bytes) (hs : HandshakeContext x y)
      → k < 3
      → Stage k a b w r
      → Fits k p
      → At hs w stream out
      → (hs' : HandshakeContext x y) × (send x y p hs ≡ (ok tt, hs'))
        × At hs' (wrote w p) stream (out ++ framed (message w p))
  send-At k a b w r p stream out hs turn stage fits at = (
    _,
    send_steps k a b w r p hs turn stage fits at.handshake_is at.room,
    record {
      handshake_is = refl;
      room =
          length-buffer (message w p) hs.noise_buf at.room
            (omega (arith, n.length-message k a b w r p stage));
      to_read = at.to_read;
      has_written =
          e.written-flushed (e.extend hs.write (framed (message w p)))
          ∙ e.written-extend hs.write (framed (message w p))
          ∙ ap (λ o. o ++ framed (message w p)) at.has_written;
    },
  )

  recv_steps :
      (k : ℕ) (a b : Bytes) (w r : y.Handshake) (p rest : Bytes) (hs : HandshakeContext x y)
      → k < 3
      → Stage k a b w r
      → Fits k p
      → hs.handshake ≡ r
      → length hs.noise_buf ≡ 65537
      → pending hs.read ≡ framed (message w p) ++ rest
      → let m = message w p in
        recv x y hs ≡ (
          ok p,
          record hs {
            handshake = took r m;
            frame = m;
            noise_buf = p ++ drop (length p) hs.noise_buf;
            read = skip (length m) (skip 2 hs.read);
          },
        )
  unfolding recv received opened
  recv_steps k a b w r p rest hs turn stage fits at room h =
      rw
        (
          at,
          read_framed x e (message w p) rest hs.read hs.frame
              (omega (arith, n.length-message k a b w r p stage)) h,
          n.read_message-ok k a b w r p hs.noise_buf turn stage fits (omega arith),
          take-length-append p (drop (length p) hs.noise_buf),
        )
        refl

  -- A message is read from one frame.
  pub recv-At :
      (k : ℕ) (a b : Bytes) (w r : y.Handshake) (p rest out : Bytes) (hs : HandshakeContext x y)
      → k < 3
      → Stage k a b w r
      → Fits k p
      → At hs r (framed (message w p) ++ rest) out
      → (hs' : HandshakeContext x y) × (recv x y hs ≡ (ok p, hs'))
        × At hs' (took r (message w p)) rest out
  recv-At k a b w r p rest out hs turn stage fits at = (
    _,
    recv_steps k a b w r p rest hs turn stage fits at.handshake_is at.room at.to_read,
    record {
      handshake_is = refl;
      room = omega (
        arith,
        length-append p (drop (length p) hs.noise_buf),
        length-drop (length p) hs.noise_buf,
        at.room,
      );
      to_read = after_framed x e (message w p) rest hs.read at.to_read;
      has_written = at.has_written;
    },
  )
