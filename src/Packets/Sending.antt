-- ===== src/Packets/Sending.antt =====
-- What the sending half of packets.rs writes over a healthy connection, as a list of plaintexts.
use snowpack.Prelude.{
  ℕ, suc, ◌+◌, ◌<◌, ◌≤◌, ◌≡◌, refl, sym, ap, subst, ◌∙◌, ◌++◌, [], ◌∷◌, List, append_assoc,
  append-nil, Bytes, Bool, true, false, not, ok, length, arith,
}
use snowpack.External.Net.{Net, IsHealthy}
use snowpack.PacketState.Header.{PacketKind, to_be_bytes, max_packet_size}
use snowpack.PacketState.Builder.{PacketBuilder, pack, packet_kind}
use snowpack.PacketState.Protocol.{packet}
use snowpack.Packets.Frame.{Writer}
use snowpack.Packets.Tx.{PacketTx, send_packet, send_chunks, packed, write_out}
use snowpack.Packets.Wire.{frame, write_packet-ok}

-- The packets of one message or of a part of it, by chunk: whether the first of them opens the
-- message, whether the last of them closes it, and its type.
unfoldable pub message_packets : (is_first is_last : Bool) → ℕ → List Bytes → List Bytes
message_packets f l t [] = []
message_packets f l t (c ∷ []) = packet (packet_kind f l) t c ∷ []
message_packets f l t (c ∷ d ∷ cs) =
    packet (packet_kind f false) t c ∷ message_packets false l t (d ∷ cs)

pub length-message_packets :
    (f l : Bool) (t : ℕ) (cs : List Bytes) → length (message_packets f l t cs) ≡ length cs
unfolding message_packets
length-message_packets f l t [] = refl
length-message_packets f l t (c ∷ []) = refl
length-message_packets f l t (c ∷ d ∷ cs) = ap suc (length-message_packets false l t (d ∷ cs))

abbrev pub AllSmall : List Bytes → Type 0
AllSmall [] = Unit {0}
AllSmall (c ∷ cs) = (length c ≤ max_packet_size) × AllSmall cs

-- A builder's state, but for its buffer.
pub record BuilderAt (b : PacketBuilder) (in_progress is_first : Bool) (t : ℕ) : Type 0 where
  pub progress : b.in_progress ≡ in_progress
  pub first : b.is_first ≡ is_first
  pub type : b.msg_type ≡ t

pub pack-at :
    (b : PacketBuilder) (f l : Bool) (t : ℕ) (payload : Bytes)
    → BuilderAt b true f t
    → ((pack b payload l).0 ≡ ok (packet (packet_kind f l) t payload))
      × BuilderAt (pack b payload l).1 (not l) false t
unfolding pack
pack-at b f l t payload s = ground arith

pub length-packet :
    (k : PacketKind) (t : ℕ) (payload : Bytes) → length (packet k t payload) ≡ length payload + 2
unfolding to_be_bytes
length-packet k t payload = omega arith

module _ (x : Net) (e : IsHealthy x) where
  open e use {left, wrote, written, extend, flushed}

  -- The bytes of a run of frames, and the cipher behind them.
  unfoldable pub frames : x.Cipher → List Bytes → Bytes
  frames t [] = []
  frames t (p ∷ ps) = frame x e t p ++ frames (wrote t) ps

  unfoldable pub cipher_after : x.Cipher → List Bytes → x.Cipher
  cipher_after t [] = t
  cipher_after t (p ∷ ps) = cipher_after (wrote t) ps

  pub frames-append :
      (t : x.Cipher) (ps qs : List Bytes)
      → (frames t (ps ++ qs) ≡ frames t ps ++ frames (cipher_after t ps) qs)
        × (cipher_after t (ps ++ qs) ≡ cipher_after (cipher_after t ps) qs)
  unfolding frames cipher_after
  frames-append t [] qs = (refl, refl)
  frames-append t (p ∷ ps) qs =
      let (step, rest) = frames-append (wrote t) ps qs in
      (
        ap (λ r. frame x e t p ++ r) step
            ∙ sym (
                append_assoc (frame x e t p) (frames (wrote t) ps)
                  (frames (cipher_after (wrote t) ps) qs)),
        rest,
      )

  pub left-cipher_after :
      (t : x.Cipher) (ps : List Bytes)
      → length ps ≤ left t
      → left t ≡ left (cipher_after t ps) + length ps
  unfolding cipher_after
  left-cipher_after t [] h = omega arith
  left-cipher_after t (p ∷ ps) h = omega (
    arith,
    e.left-wrote t (omega arith),
    left-cipher_after (wrote t) ps (omega (arith, e.left-wrote t (omega arith))),
  )

  -- A half that has sent a list of plaintexts.
  pub record Sent (ps : List Bytes) (w w' : Writer x) : Type 0 where
    pub cipher : w'.cipher ≡ cipher_after w.cipher ps
    pub output : written w'.write ≡ written w.write ++ frames w.cipher ps

  pub Sent-nil : (w : Writer x) → Sent [] w w
  unfolding frames cipher_after
  Sent-nil w = record { cipher = refl; output = sym (append-nil (written w.write)) }

  pub Sent-append :
      {ps qs : List Bytes} {u v w : Writer x} → Sent ps u v → Sent qs v w → Sent (ps ++ qs) u w
  Sent-append {ps} {qs} {u} {v} {w} a b = record {
    cipher = b.cipher ∙ ap (λ t. cipher_after t qs) a.cipher ∙ sym (frames-append u.cipher ps qs).1;
    output =
        b.output
        ∙ ap (λ z. z ++ frames v.cipher qs) a.output
        ∙ append_assoc (written u.write) (frames u.cipher ps) (frames v.cipher qs)
        ∙ ap (λ z. written u.write ++ z)
            (ap (λ t. frames u.cipher ps ++ frames t qs) a.cipher
              ∙ sym (frames-append u.cipher ps qs).0);
  }

  -- The plaintext of one packet goes out as one frame.
  pub write_out-ok :
      (tx : PacketTx x) (p : Bytes)
      → 0 < left tx.writer.cipher
      → length p + 16 ≤ 65535
      → (tx' : PacketTx x) × (write_out x p tx ≡ (ok tt, tx'))
        × (tx'.builder ≡ tx.builder)
        × Sent (p ∷ []) tx.writer tx'.writer
  unfolding write_out frames cipher_after
  write_out-ok tx p room small =
      let (buf, done) = write_packet-ok x e p tx.writer room small in
      let w = tx.writer in
      (
        record tx {
          writer = record {
            cipher = wrote w.cipher;
            write = flushed (extend w.write (frame x e w.cipher p));
            write_buf = buf;
          };
        },
        rw done,
        refl,
        record {
          cipher = refl;
          output =
              e.written-flushed (extend w.write (frame x e w.cipher p))
              ∙ e.written-extend w.write (frame x e w.cipher p)
              ∙ ap (λ z. written w.write ++ z) (sym (append-nil (frame x e w.cipher p)));
        },
      )

  pub send_packet-ok :
      (tx : PacketTx x) (f l : Bool) (t : ℕ) (payload : Bytes)
      → BuilderAt tx.builder true f t
      → 0 < left tx.writer.cipher
      → length payload ≤ max_packet_size
      → (tx' : PacketTx x) × (send_packet x payload l tx ≡ (ok tt, tx'))
        × BuilderAt tx'.builder (not l) false t
        × Sent (packet (packet_kind f l) t payload ∷ []) tx.writer tx'.writer
  unfolding send_packet packed
  send_packet-ok tx f l t payload s room small =
      let (went, at) = pack-at tx.builder f l t payload s in
      let p = packet (packet_kind f l) t payload in
      let tx₁ : PacketTx x = record tx { builder = (pack tx.builder payload l).1 } in
      let (tx', done, same, sent) =
        write_out-ok tx₁ p room (omega (arith, length-packet (packet_kind f l) t payload)) in
      (tx', rw (went, done), subst (λ b. BuilderAt b (not l) false t) (sym same) at, sent)

  -- One packet takes one of the messages that the cipher has left.
  pub left_behind :
      (tx tx' : PacketTx x) (n : ℕ) {p : Bytes}
      → suc n ≤ left tx.writer.cipher
      → Sent (p ∷ []) tx.writer tx'.writer
      → n ≤ left tx'.writer.cipher
  unfolding cipher_after
  left_behind tx tx' n h sent =
      omega (arith, e.left-wrote tx.writer.cipher (omega arith), ap left sent.cipher)

  pub send_chunks-ok :
      (tx : PacketTx x) (f l : Bool) (t : ℕ) (c : Bytes) (cs : List Bytes)
      → BuilderAt tx.builder true f t
      → length (c ∷ cs) ≤ left tx.writer.cipher
      → AllSmall (c ∷ cs)
      → (tx' : PacketTx x) × (send_chunks x (c ∷ cs) l tx ≡ (ok tt, tx'))
        × BuilderAt tx'.builder (not l) false t
        × Sent (message_packets f l t (c ∷ cs)) tx.writer tx'.writer
  unfolding send_chunks message_packets
  send_chunks-ok tx f l t c [] s room small =
      let (tx', done, at, sent) = send_packet-ok tx f l t c s (omega arith) small.0 in
      (tx', rw done, at, sent)
  send_chunks-ok tx f l t c (d ∷ cs) s room small =
      let (tx₁, done₁, at₁, sent₁) = send_packet-ok tx f false t c s (omega arith) small.0 in
      let room₁ : length (d ∷ cs) ≤ left tx₁.writer.cipher =
        left_behind tx tx₁ (length (d ∷ cs)) room sent₁ in
      let (tx₂, done₂, at₂, sent₂) = send_chunks-ok tx₁ false l t d cs at₁ room₁ small.1 in
      (tx₂, rw (done₁, done₂), at₂, Sent-append sent₁ sent₂)
