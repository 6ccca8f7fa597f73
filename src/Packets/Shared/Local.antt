-- ===== src/Packets/Shared/Local.antt =====
-- A call on one half of packets.rs uses and changes its own direction of the transport state.
use snowpack.Prelude.{
  ℕ, ◌+◌, ◌≡◌, refl, Bytes, Bool, Option, some, none, Result, ok, err, length, drop, resize,
}
use snowpack.External.Net.{Net}
use snowpack.External.Duplex.{IsDuplex}
use snowpack.PacketState.Header.{frame_header_size, cipher_overhead_size}
use snowpack.PacketState.Builder.{PacketBuildError, pack, abort}
use snowpack.Packets.Error.{Error}
use snowpack.Packets.Frame.{Writer, send_frame, encrypt_frame, write_packet, reserve, read_frame}
use snowpack.Packets.Tx.{
  PacketTx, Send, prepare_message, send_packet, abort_message, packed, write_out, abort_packet,
}
use snowpack.Packets.Rx.{PacketRx, read_packet, decrypt, decode}
use snowpack.Packets.Shared.{with_tx, with_rx}

module _ (x : Net) (d : IsDuplex x) where
  open d use {SameWriting, SameReading}

  -- Equal but for the cipher, with the same one for writing, or for reading.
  abbrev pub AlikeTx : PacketTx x → PacketTx x → Type 0
  AlikeTx a b = (b ≡ with_tx x b.writer.cipher a) × SameWriting a.writer.cipher b.writer.cipher

  abbrev pub AlikeRx : PacketRx x → PacketRx x → Type 0
  AlikeRx a b = (b ≡ with_rx x b.cipher a) × SameReading a.cipher b.cipher

  -- A call that uses and changes the writing direction only.
  pub record Local (m : Send x) : Type 0 where
    pub writing :
        (tx : PacketTx x) (u : x.Cipher)
        → SameWriting tx.writer.cipher u
        → ((m tx).0 ≡ (m (with_tx x u tx)).0) × AlikeTx (m tx).1 (m (with_tx x u tx)).1
    pub reading :
        (tx : PacketTx x) (r : x.Cipher)
        → SameReading tx.writer.cipher r
        → SameReading (m tx).1.writer.cipher r

  abbrev with_cipher : x.Cipher → Writer x → Writer x
  with_cipher c w = record w { cipher = c }

  -- The frame is put together and written whatever the cipher is.
  send_frame-cipher :
      (n : Result ℕ x.SnowError) (w : Writer x) (u : x.Cipher)
      → send_frame x n (with_cipher u w)
        ≡ ((send_frame x n w).0, with_cipher u (send_frame x n w).1)
  unfolding send_frame
  send_frame-cipher (err e) w u = refl
  send_frame-cipher (ok n) w u = refl

  kept_cipher : (n : Result ℕ x.SnowError) (w : Writer x) → (send_frame x n w).1.cipher ≡ w.cipher
  unfolding send_frame
  kept_cipher (err e) w = refl
  kept_cipher (ok n) w = refl

  encrypt_frame-cipher :
      (p buf : Bytes) (w : Writer x) (u : x.Cipher)
      → SameWriting w.cipher u
      → encrypt_frame x p buf (with_cipher u w) ≡ (
        (encrypt_frame x p buf w).0,
        with_cipher
            (x.write_message u p (drop frame_header_size buf)).2
            (encrypt_frame x p buf w).1,
      )
  unfolding encrypt_frame
  encrypt_frame-cipher p buf w u s =
      let (n, body, same) = d.write_message_same w.cipher u p (drop frame_header_size buf) s in
      rw (n, body) (send_frame-cipher _ _ _)

  cipher_of_encrypt_frame :
      (p buf : Bytes) (w : Writer x)
      → (encrypt_frame x p buf w).1.cipher
        ≡ (x.write_message w.cipher p (drop frame_header_size buf)).2
  unfolding encrypt_frame
  cipher_of_encrypt_frame p buf w = kept_cipher _ _

  -- The buffer that a packet is encrypted into.
  abbrev space : Bytes → Writer x → Bytes
  space p w =
      drop frame_header_size
        (reserve x (frame_header_size + (length p + cipher_overhead_size)) w.write_buf)

  write_packet-cipher :
      (p : Bytes) (w : Writer x) (u : x.Cipher)
      → SameWriting w.cipher u
      → write_packet x p (with_cipher u w) ≡ (
        (write_packet x p w).0,
        with_cipher (x.write_message u p (space p w)).2 (write_packet x p w).1,
      )
  unfolding write_packet
  write_packet-cipher p w u s = encrypt_frame-cipher p _ w u s

  cipher_of_write_packet :
      (p : Bytes) (w : Writer x)
      → (write_packet x p w).1.cipher ≡ (x.write_message w.cipher p (space p w)).2
  unfolding write_packet
  cipher_of_write_packet p w = cipher_of_encrypt_frame p _ w

  Local-write_out : (p : Bytes) → Local (write_out x p)
  unfolding write_out
  Local-write_out p = record {
    writing = λ tx u s.
        rw (write_packet-cipher p tx.writer u s, cipher_of_write_packet p tx.writer)
          (refl, (refl, (d.write_message_same tx.writer.cipher u p (space p tx.writer) s).2));
    reading = λ tx r s.
        rw (cipher_of_write_packet p tx.writer)
          (d.SameReading-write_message tx.writer.cipher r p (space p tx.writer) s);
  }

  -- A call that leaves the writer alone.
  unchanged : (r : Result (Unit {0}) (Error x)) → Local (λ tx. (r, tx))
  unchanged r = record { writing = λ tx u s. (refl, (refl, s)); reading = λ tx r s. s }

  Local-abort_packet : (p : Option Bytes) → Local (abort_packet x p)
  unfolding abort_packet
  Local-abort_packet none = unchanged (ok tt)
  Local-abort_packet (some p) = Local-write_out p

  Local-packed : (p : Result Bytes PacketBuildError) → Local (packed x p)
  unfolding packed
  Local-packed (ok p) = Local-write_out p
  Local-packed (err e) = unchanged _

  pub Local-prepare_message : (t : ℕ) → Local (prepare_message x t)
  unfolding prepare_message
  Local-prepare_message t = record { writing = λ tx u s. (refl, (refl, s)); reading = λ tx r s. s }

  pub Local-send_packet : (payload : Bytes) (last : Bool) → Local (send_packet x payload last)
  unfolding send_packet
  Local-send_packet payload last = record {
    writing = λ tx u s.
        let (r, builder') = pack tx.builder payload last in
        (Local-packed r).writing (record tx { builder = builder' }) u s;
    reading = λ tx c s.
        let (r, builder') = pack tx.builder payload last in
        (Local-packed r).reading (record tx { builder = builder' }) c s;
  }

  pub Local-abort_message : Local (abort_message x)
  unfolding abort_message
  Local-abort_message = record {
    writing = λ tx u s.
        let (p, builder') = abort tx.builder in
        (Local-abort_packet p).writing (record tx { builder = builder' }) u s;
    reading = λ tx c s.
        let (p, builder') = abort tx.builder in
        (Local-abort_packet p).reading (record tx { builder = builder' }) c s;
  }

  -- The packet reader gets the plaintext whatever the cipher is.
  decode-cipher :
      (n : Result ℕ x.SnowError) (rx : PacketRx x) (u : x.Cipher)
      → decode x n (with_rx x u rx) ≡ ((decode x n rx).0, with_rx x u (decode x n rx).1)
  unfolding decode
  decode-cipher (err e) rx u = refl
  decode-cipher (ok n) rx u = refl

  cipher_of_decode :
      (n : Result ℕ x.SnowError) (rx : PacketRx x) → (decode x n rx).1.cipher ≡ rx.cipher
  unfolding decode
  cipher_of_decode (err e) rx = refl
  cipher_of_decode (ok n) rx = refl

  abbrev room : PacketRx x → Bytes
  room rx = resize (length rx.ciphertext_buf) rx.plaintext_buf

  decrypt_apart :
      (r : Result (Unit {0}) (Error x)) (rx : PacketRx x) (u : x.Cipher)
      → SameReading rx.cipher u
      → ((decrypt x r rx).0 ≡ (decrypt x r (with_rx x u rx)).0)
        × AlikeRx (decrypt x r rx).1 (decrypt x r (with_rx x u rx)).1
  unfolding decrypt
  decrypt_apart (err e) rx u s = (refl, (refl, s))
  decrypt_apart (ok done) rx u s =
      let (n, plaintext, same) = d.read_message_same rx.cipher u rx.ciphertext_buf (room rx) s in
      let (m, buffer, c) = x.read_message rx.cipher rx.ciphertext_buf (room rx) in
      let c' = (x.read_message u rx.ciphertext_buf (room rx)).2 in
      let read = record rx { cipher = c; plaintext_buf = buffer } in
      rw (← n, ← plaintext, decode-cipher m read c', cipher_of_decode m read) (refl, (refl, same))

  SameWriting-decrypt :
      (r : Result (Unit {0}) (Error x)) (rx : PacketRx x) (u : x.Cipher)
      → SameWriting rx.cipher u
      → SameWriting (decrypt x r rx).1.cipher u
  unfolding decrypt
  SameWriting-decrypt (err e) rx u s = s
  SameWriting-decrypt (ok done) rx u s =
      let (m, buffer, c) = x.read_message rx.cipher rx.ciphertext_buf (room rx) in
      rw (cipher_of_decode m (record rx { cipher = c; plaintext_buf = buffer }))
        (d.SameWriting-read_message rx.cipher u rx.ciphertext_buf (room rx) s)

  -- A read uses and changes the reading direction only.
  pub read_packet_apart :
      (rx : PacketRx x) (u : x.Cipher)
      → SameReading rx.cipher u
      → ((read_packet x rx).0 ≡ (read_packet x (with_rx x u rx)).0)
        × AlikeRx (read_packet x rx).1 (read_packet x (with_rx x u rx)).1
  unfolding read_packet
  read_packet_apart rx u s =
      let (r, buffer, input) = read_frame x rx.input rx.ciphertext_buf in
      decrypt_apart r (record rx { input = input; ciphertext_buf = buffer }) u s

  pub SameWriting-read_packet :
      (rx : PacketRx x) (u : x.Cipher)
      → SameWriting rx.cipher u
      → SameWriting (read_packet x rx).1.cipher u
  unfolding read_packet
  SameWriting-read_packet rx u s =
      let (r, buffer, input) = read_frame x rx.input rx.ciphertext_buf in
      SameWriting-decrypt r (record rx { input = input; ciphertext_buf = buffer }) u s
