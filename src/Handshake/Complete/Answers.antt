-- ===== src/Handshake/Complete/Answers.antt =====
-- A session of lib.rs from `connect` and `accept` to the messages that the initiator reads.
use snowpack.Prelude.{ℕ, ◌≤◌, ◌≡◌, ◌++◌, List, Bytes, false, ok}
use snowpack.External.Net.{Net, IsHealthy}
use snowpack.External.Noise.{Noise, IsHonest}
use snowpack.External.Ed25519.{Ed25519}
use snowpack.External.Yatlv.{Yatlv}
use snowpack.Noise.{TransportPrivateKey}
use snowpack.Sign.{SignatureVerificationKey}
use snowpack.Auth.{SignedAuthHeader, AuthHeader, into_details}
use snowpack.Packets.Framing.{framed}
use snowpack.Packets.Tx.{PacketTx}
use snowpack.Messages.{MessageRx}
use snowpack.Messages.Conversation.{Letter, AllReadable, total_packets, send_all, ReadsAll}
use snowpack.Handshake.Entry.{connect, accept}
use snowpack.Handshake.Complete.Exchange.{hello, reply, last, r_end, Honest}
use snowpack.Handshake.Complete.Connect.{received, connect-Handed, accept-Handed, paired}
use snowpack.Handshake.Complete.Sent.{Sent-Handed}

module _ (x : Net) (e : IsHealthy x) (y : Noise x) (n : IsHonest x e y) (c : Ed25519)
    (z : Yatlv) where
  open e use {pending, written, left}
  open n use {transport}

  -- When two peers follow the XX pattern over a connection without faults, have 32-byte private
  -- keys, and each has a header that fits a handshake message, that the other verifies and that
  -- names its own public key, and no time limit passes first, accept on the initiator's two
  -- messages and whatever follows returns with the initiator's details, and a list of messages
  -- with 12-bit types, for which the cipher of the handshake has enough nonces, is sent over it
  -- without an error; an initiator that is given to read what the responder wrote, reply and
  -- messages, and whatever follows, returns from connect with the responder's details and reads
  -- exactly these messages, types and bodies, in order, with at most as many rounds for each as it
  -- has packets.
  pub ReadsAll-accept :
      (a b : TransportPrivateKey) (local_a local_b : SignedAuthHeader)
      (key_a key_b : SignatureVerificationKey c) (h_a h_b : AuthHeader) (fuel : ℕ)
      (ms : List Letter) (read_b : x.Input) (write_b : x.Output) (rest_b : Bytes)
      → Honest x e y n c z a b local_a local_b key_a key_b h_a h_b
      → AllReadable fuel ms
      → total_packets ms
        ≤ left (transport (r_end x e y n a.bytes b.bytes local_a.bytes local_b.bytes))
      → pending read_b
        ≡ framed (hello x e y n a.bytes)
          ++ (framed (last x e y n a.bytes b.bytes local_a.bytes local_b.bytes) ++ rest_b)
      → (tx : PacketTx x) × (rx : MessageRx x) × (tx' : PacketTx x) × (wire : Bytes) × (accept x y c
            z false read_b write_b b local_b key_b
          ≡ ok ((tx, rx), into_details h_a))
        × (send_all x ms tx ≡ (ok tt, tx'))
        × (written tx'.writer.write
            ≡ (written write_b ++ framed (reply x e y n a.bytes b.bytes local_b.bytes)) ++ wire)
        × ((read_a : x.Input) (write_a : x.Output) (rest_a : Bytes)
            → pending read_a
              ≡ framed (reply x e y n a.bytes b.bytes local_b.bytes) ++ (wire ++ rest_a)
            → (tx_a : PacketTx x) × (rx_a : MessageRx x) × (rx_a' : MessageRx x) × (connect x y c z
                  false read_a write_a a local_a key_a
                ≡ ok ((tx_a, rx_a), into_details h_b))
              × ReadsAll x e fuel ms rx_a rx_a')
  ReadsAll-accept a b local_a local_b key_a key_b h_a h_b fuel ms read_b write_b rest_b honest
        readable room input =
      let (tx, rx, done, handed) =
        accept-Handed x e y n c z a b local_a local_b key_a key_b h_a h_b honest read_b write_b
          rest_b input in
      let s = Sent-Handed x e y n c z fuel ms _ _ _ tx rx handed readable room in
      (
        tx,
        received x e y n c z rx,
        s.later,
        s.wire,
        done,
        s.went,
        s.has_written,
        λ read_a write_a rest_a input_a.
            let (tx_a, rx_a, done_a, to) =
              connect-Handed x e y n c z a b local_a local_b key_a key_b h_a h_b honest read_a
                write_a (s.wire ++ rest_a) input_a in
            let facing = (paired x e y n c z a b local_a local_b key_a key_b h_a h_b honest).0 in
            let (after, all) = s.reads _ _ rest_a tx_a rx_a facing to in
            (tx_a, received x e y n c z rx_a, after, done_a, all),
      )
