-- ===== src/Handshake/Complete/Sent.antt =====
-- Messages over the halves that `connect` or `accept` of lib.rs handed over.
use snowpack.Prelude.{ℕ, ◌≤◌, ◌≡◌, sym, ap, subst, ◌∙◌, ◌++◌, List, Bytes, ok}
use snowpack.External.Net.{Net, IsHealthy}
use snowpack.External.Noise.{Noise, IsHonest}
use snowpack.External.Ed25519.{Ed25519}
use snowpack.External.Yatlv.{Yatlv}
use snowpack.Packets.Tx.{PacketTx}
use snowpack.Packets.Rx.{PacketRx}
use snowpack.Messages.{MessageRx}
use snowpack.Messages.Conversation.{
  Letter, AllReadable, total_packets, send_all, ReadsAll, ReadsAll-send_all,
}
use snowpack.Handshake.Complete.Check.{Handed}
use snowpack.Handshake.Complete.Connect.{received, Connected-Handed}

module _ (x : Net) (e : IsHealthy x) (y : Noise x) (n : IsHonest x e y) (c : Ed25519) (z : Yatlv)
    (fuel : ℕ) (ms : List Letter) where
  open e use {written, left}

  -- The messages were sent, and a half that faces the sender and is given them reads them all.
  pub record Sent (t : x.Cipher) (out : Bytes) (tx : PacketTx x) : Type 0 where
    pub later : PacketTx x
    pub wire : Bytes
    pub went : send_all x ms tx ≡ (ok tt, later)
    pub has_written : written later.writer.write ≡ out ++ wire
    pub reads :
        (u : x.Cipher) (out' rest : Bytes) (tx' : PacketTx x) (rx' : PacketRx x)
        → e.Paired t u
        → Handed x e y n c z u (wire ++ rest) out' tx' rx'
        → (after : MessageRx x) × ReadsAll x e fuel ms (received x e y n c z rx') after

  pub Sent-Handed :
      (t : x.Cipher) (input out : Bytes) (tx : PacketTx x) (rx : PacketRx x)
      → Handed x e y n c z t input out tx rx
      → AllReadable fuel ms
      → total_packets ms ≤ left t
      → Sent t out tx
  Sent-Handed t input out tx rx handed readable room =
      let (tx', wire, went, written, reads) =
        ReadsAll-send_all x e fuel ms tx readable
          (subst (λ s. total_packets ms ≤ left s) (sym handed.writes_with) room)
          (ap (λ q. q.in_progress) handed.new_builder) in
      record {
        later = tx';
        wire = wire;
        went = went;
        has_written = written ∙ ap (λ o. o ++ wire) handed.has_written;
        reads = λ u out' rest tx₁ rx₁ p to.
            let con = Connected-Handed x e y n c z _ _ _ _ _ tx rx rx₁ tx₁ _ p handed to in
            let (after, all, still) = reads (received x e y n c z rx₁) rest con in (after, all);
      }
