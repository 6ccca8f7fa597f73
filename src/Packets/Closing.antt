-- ===== src/Packets/Closing.antt =====
-- The last packet of `send_reader` of packets.rs over a healthy connection.
use snowpack.Prelude.{
  ℕ, suc, ◌<◌, ◌≤◌, ◌≡◌, refl, ap, ◌∙◌, sym, subst, ◌++◌, [], ◌∷◌, Bytes, Bool, true, false, some,
  ok, length, ◌==◌, arith,
}
use snowpack.External.Net.{Net, IsHealthy}
use snowpack.PacketState.Header.{max_packet_size}
use snowpack.PacketState.Builder.{packet_kind}
use snowpack.PacketState.Protocol.{packet}
use snowpack.Packets.Chunks.{payloads}
use snowpack.Packets.Tx.{PacketTx, Out, chunks, chunks_loop, Loop, finish, send_packet}
use snowpack.Packets.Sending.{BuilderAt, Sent, Sent-nil, message_packets, send_packet-ok}
use snowpack.Packets.Rounds.{streamed, still_open, streamed-end, still_open-end, closes}

suc-eq_zero : (n : ℕ) → (suc n == 0) ≡ false
suc-eq_zero n = ground arith

module _ (x : Net) (e : IsHealthy x) where
  open e use {left, content}

  -- The data that a loop has still to send.
  abbrev pub pending : Loop x → Bytes
  pending l = l.filled ++ content l.source

  -- How the loop ends.
  pub record Ends (any f : Bool) (t : ℕ) (bs : Bytes) (out : Out x) (tx : PacketTx x) : Type 0 where
    pub tx' : PacketTx x
    pub returns : out ≡ some (ok tt, tx')
    pub progress : tx'.builder.in_progress ≡ still_open any bs
    pub sent : Sent x e (streamed f any t bs) tx.writer tx'.writer

  -- The loop of which this is left: the filled part, the source, and the mark.
  abbrev pub at_loop : Bytes → x.Source → Bool → Loop x
  at_loop filled source any = record { filled = filled; source = source; sent_any = any }

  closing-Ends :
      (any f : Bool) (t : ℕ) (c : Bytes) (tx : PacketTx x)
      → BuilderAt tx.builder true f t
      → length c ≤ max_packet_size
      → 0 < left tx.writer.cipher
      → streamed f any t c ≡ packet (packet_kind f true) t c ∷ []
      → still_open any c ≡ false
      → Ends any f t c (some (send_packet x c true tx)) tx
  closing-Ends any f t c tx at h room shape shut =
      let (tx', done, at', sent) = send_packet-ok x e tx f true t c at room h in
      record {
        tx' = tx';
        returns = ap some done;
        progress = at'.progress ∙ sym shut;
        sent = subst (λ ps. Sent x e ps tx.writer tx'.writer) (sym shape) sent;
      }

  pub finish-Ends :
      (filled : Bytes) (source : x.Source) (any f : Bool) (t : ℕ) (tx : PacketTx x)
      → BuilderAt tx.builder true f t
      → length filled < max_packet_size
      → length (streamed f any t filled) ≤ left tx.writer.cipher
      → Ends any f t filled (some (finish x (at_loop filled source any) tx)) tx
  unfolding finish streamed still_open closes payloads chunks chunks_loop message_packets
  finish-Ends [] source true f t tx at h room = record {
    tx' = tx;
    returns = refl;
    progress = at.progress;
    sent = Sent-nil x e tx.writer;
  }
  finish-Ends [] source false f t tx at h room =
      closing-Ends false f t [] tx at (omega arith) (omega arith) refl refl
  finish-Ends (b ∷ bs) source any f t tx at h room =
      let shape = streamed-end f any t (b ∷ bs) h (omega arith) in
      rw (suc-eq_zero (length bs)) (
        closing-Ends any f t (b ∷ bs) tx at (omega arith) (omega (arith, ap length shape)) shape
          (still_open-end any (b ∷ bs) h (omega arith)))
