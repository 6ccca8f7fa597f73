-- ===== src/Packets/Streaming.antt =====
-- `send_reader` of packets.rs over a healthy connection: what it sends, and that it ends.
use snowpack.Prelude.{
  ℕ, zero, suc, ◌-◌, ◌<◌, ◌≤◌, ◌≡◌, inl, inr, refl, ap, ◌∙◌, sym, subst, ◌++◌, [], ◌∷◌, Bytes, Bool,
  true, false, not, Bool-cases, some, ok, length, length-append, append_assoc, append-nil, ◌==◌,
  arith,
}
use snowpack.External.Net.{Net, IsHealthy}
use snowpack.PacketState.Header.{max_packet_size}
use snowpack.PacketState.Builder.{packet_kind}
use snowpack.PacketState.Protocol.{packet}
use snowpack.Packets.Chunks.{payloads}
use snowpack.Packets.Tx.{
  PacketTx, Out, Loop, make_room, read_more, progress, after_read, after_room, reader_loop,
  send_reader,
}
use snowpack.Packets.Sending.{
  BuilderAt, Sent, Sent-append, message_packets, length-message_packets, send_packet-ok,
  left_behind,
}
use snowpack.Packets.Rounds.{
  streamed, still_open, streamed-any, still_open-any, streamed-full, still_open-full, closes,
}
use snowpack.Packets.Closing.{Ends, at_loop, pending, finish-Ends}

module _ (x : Net) (e : IsHealthy x) where
  open e use {left, content}

  abbrev Again : (fuel : ℕ) → Type 0
  Again fuel =
      (l : Loop x) (f : Bool) (t : ℕ) (tx : PacketTx x)
      → BuilderAt tx.builder true f t
      → length l.filled ≤ max_packet_size
      → (l.sent_any ≡ false → l.filled ≡ [])
      → length (streamed f l.sent_any t (pending x e l)) ≤ left tx.writer.cipher
      → length (content l.source) < fuel
      → Ends x e l.sent_any f t (pending x e l) (reader_loop x fuel l tx) tx

  Ends-any :
      (any f : Bool) (t : ℕ) (bs : Bytes) (out : Out x) (tx : PacketTx x)
      → 0 < length bs
      → Ends x e true f t bs out tx
      → Ends x e any f t bs out tx
  Ends-any any f t bs out tx h d = record {
    tx' = d.tx';
    returns = d.returns;
    progress = d.progress ∙ sym (still_open-any any bs h);
    sent =
        subst (λ ps. Sent x e ps tx.writer d.tx'.writer) (sym (streamed-any f any t bs h)) d.sent;
  }

  -- A read, with room in the buffer.
  read-Ends :
      (fuel : ℕ) (again : Again fuel) (filled : Bytes) (source : x.Source) (any f : Bool) (t : ℕ)
      (tx : PacketTx x) (bs : Bytes) (s' : x.Source)
      → BuilderAt tx.builder true f t
      → length filled < max_packet_size
      → length (streamed f any t (filled ++ content source)) ≤ left tx.writer.cipher
      → length (content source) < suc fuel
      → x.read source (max_packet_size - length filled) ≡ (ok bs, s')
      → content source ≡ bs ++ content s'
      → length bs ≤ max_packet_size - length filled
      → (bs ≡ [] → content source ≡ [])
      → Ends x e any f t
          (filled ++ content source)
          (after_read x (reader_loop x fuel) (read_more x (at_loop x e filled source any)) tx)
          tx
  unfolding read_more progress after_read
  read-Ends fuel again filled source any f t tx [] s' at h room enough got split fits ends =
      let whole : filled ++ content source ≡ filled = rw (ends refl) (append-nil filled) in
      rw (got, whole)
        (finish-Ends x e filled s' any f t tx at h
          (subst (λ d. length (streamed f any t d) ≤ left tx.writer.cipher) whole room))
  read-Ends fuel again filled source any f t tx (b ∷ bs) s' at h room enough got split fits ends =
      let longer = length-append bs (content s') in
      let whole : filled ++ content source ≡ (filled ++ b ∷ bs) ++ content s' =
        rw split (sym (append_assoc filled (b ∷ bs) (content s'))) in
      let some_left : 0 < length (filled ++ content source) =
        omega (arith, length-append filled (content source), ap length split, longer) in
      let same = streamed-any f any t (filled ++ content source) some_left in
      Ends-any any f t (filled ++ content source) _ tx some_left (
        rw (got, whole)
          (again (at_loop x e (filled ++ b ∷ bs) s' true) f t tx at
            (omega (arith, length-append filled (b ∷ bs))) (λ q. cc)
            (omega (arith, ap length same, ap (λ d. length (streamed f true t d)) whole))
            (omega (arith, ap length split, longer))))

  reads :
      (fuel : ℕ) (again : Again fuel) (filled : Bytes) (source : x.Source) (any f : Bool) (t : ℕ)
      (tx : PacketTx x)
      → BuilderAt tx.builder true f t
      → length filled < max_packet_size
      → length (streamed f any t (filled ++ content source)) ≤ left tx.writer.cipher
      → length (content source) < suc fuel
      → Ends x e any f t
          (filled ++ content source)
          (after_read x (reader_loop x fuel) (read_more x (at_loop x e filled source any)) tx)
          tx
  reads fuel again filled source any f t tx at h room enough =
      let (bs, s', got, split, fits, ends) =
        e.read-ok source (max_packet_size - length filled) (omega arith) in
      read-Ends fuel again filled source any f t tx bs s' at h room enough got split fits ends

  -- A full buffer goes out first.
  full-Ends :
      (f : Bool) (t : ℕ) (c bs : Bytes) (out : Out x) (tx tx₁ : PacketTx x)
      → length c ≡ max_packet_size
      → Sent x e (packet (packet_kind f false) t c ∷ []) tx.writer tx₁.writer
      → Ends x e true false t bs out tx₁
      → Ends x e true f t (c ++ bs) out tx
  full-Ends f t c bs out tx tx₁ h sent d = record {
    tx' = d.tx';
    returns = d.returns;
    progress = d.progress ∙ sym (still_open-full c bs h);
    sent =
        subst (λ ps. Sent x e ps tx.writer d.tx'.writer) (sym (streamed-full f t c bs h))
          (Sent-append x e sent d.sent);
  }

  flush-Ends :
      (fuel : ℕ) (again : Again fuel) (c : Bytes) (source : x.Source) (f : Bool) (t : ℕ)
      (tx : PacketTx x)
      → BuilderAt tx.builder true f t
      → length c ≡ max_packet_size
      → length (streamed f true t (c ++ content source)) ≤ left tx.writer.cipher
      → length (content source) < suc fuel
      → Ends x e true f t
          (c ++ content source)
          (reader_loop x (suc fuel) (at_loop x e c source true) tx)
          tx
  unfolding reader_loop make_room after_room
  flush-Ends fuel again c source f t tx at h room enough =
      let shape = ap length (streamed-full f t c (content source) h) in
      let (tx₁, done, at₁, sent) =
        send_packet-ok x e tx f false t c at (omega (arith, shape)) (omega arith) in
      let full : (max_packet_size - length c == 0) ≡ true = ground arith in
      full-Ends f t c (content source) _ tx tx₁ h sent (
        rw (full, done)
          (reads fuel again [] source true false t tx₁ at₁ (omega arith)
            (left_behind x e tx tx₁ (length (streamed false true t (content source)))
              (omega (arith, shape)) sent)
            enough))

  mark_set :
      (l : Loop x) → (l.sent_any ≡ false → l.filled ≡ []) → 0 < length l.filled → l.sent_any ≡ true
  mark_set l mark h = elim (Bool-cases l.sent_any) [
    | inl set ↦ set
    | inr unset ↦ absurd (omega (arith, ap length (mark unset)))
  ]

  loop-Ends : (fuel : ℕ) → Again fuel
  unfolding reader_loop make_room after_room
  loop-Ends zero l f t tx at h mark room enough = absurd (omega arith)
  loop-Ends (suc fuel) l f t tx at h mark room enough =
      elim (Bool-cases (max_packet_size - length l.filled == 0)) [
        | inl full ↦
            let c : length l.filled ≡ max_packet_size = ground arith in
            let any : l.sent_any ≡ true = mark_set l mark (omega arith) in
            subst
              (λ z.
                Ends x e z f t (pending x e l)
                  (reader_loop x (suc fuel) (at_loop x e l.filled l.source z) tx) tx)
              (sym any)
              (flush-Ends fuel (loop-Ends fuel) l.filled l.source f t tx at c
                (subst (λ z. length (streamed f z t (pending x e l)) ≤ left tx.writer.cipher) any
                  room)
                enough)
        | inr roomy ↦ rw roomy (
            reads fuel (loop-Ends fuel) l.filled l.source l.sent_any f t tx at (ground arith) room
              enough)
      ]

  -- `send_reader` with a message in progress and nothing of it sent, a source that ends, a round more
  -- than the source has bytes and enough nonces: it returns without an error and has sent the payloads of the data,
  -- in order. Its last packet closes the message, and the half is idle again, exactly when the data are
  -- empty or do not fill every packet.
  pub send_reader-ok :
      (fuel : ℕ) (source : x.Source) (t : ℕ) (tx : PacketTx x)
      → BuilderAt tx.builder true true t
      → length (payloads (content source)) ≤ left tx.writer.cipher
      → length (content source) < fuel
      → (tx' : PacketTx x) × (send_reader x fuel source tx ≡ some (ok tt, tx'))
        × Sent x e
            (message_packets true (closes (content source)) t (payloads (content source)))
            tx.writer
            tx'.writer
        × (tx'.builder.in_progress ≡ not (closes (content source)))
  unfolding send_reader streamed still_open
  send_reader-ok fuel source t tx at room enough =
      let packets = message_packets true (closes (content source)) t (payloads (content source)) in
      let count =
        length-message_packets true (closes (content source)) t (payloads (content source)) in
      let d =
        loop-Ends fuel (at_loop x e [] source false) true t tx at (omega arith) (λ q. refl)
          (omega (arith, count)) enough in
      (d.tx', d.returns, d.sent, d.progress)
