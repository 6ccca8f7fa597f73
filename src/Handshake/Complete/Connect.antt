-- ===== src/Handshake/Complete/Connect.antt =====
-- `connect` and `accept` of lib.rs between two honest peers.
use snowpack.Prelude.{◌≡◌, refl, ap, ◌++◌, [], Bytes, false, ok, length, length-replicate_zeros}
use snowpack.External.Net.{Net, IsHealthy}
use snowpack.External.Noise.{Noise, IsHonest}
use snowpack.External.Ed25519.{Ed25519}
use snowpack.External.Yatlv.{Yatlv}
use snowpack.Noise.{TransportPrivateKey}
use snowpack.Sign.{SignatureVerificationKey}
use snowpack.Auth.{SignedAuthHeader, AuthHeader, AuthDetails, into_details}
use snowpack.Packets.Framing.{framed}
use snowpack.Packets.Tx.{PacketTx}
use snowpack.Packets.Rx.{PacketRx}
use snowpack.Messages.{MessageRx}
use snowpack.Messages.Conversation.{Connected}
use snowpack.Handshake.{HandshakeContext, new_initiator, new_responder, new_context, new_noise_buf}
use snowpack.Handshake.Entry.{
  within, run, accept_steps, connect_steps, accept_packets, connect_packets, with_messages, accept,
  connect,
}
use snowpack.Handshake.Complete.Steps.{At}
use snowpack.Handshake.Complete.Check.{Handed}
use snowpack.Handshake.Complete.Exchange.{
  i_end, r_end, hello, reply, last, Honest, Stage-ended, connect_steps-Handed, accept_steps-Handed,
}

length-new_noise_buf : length new_noise_buf ≡ 65537
unfolding new_noise_buf
length-new_noise_buf = length-replicate_zeros 65537

module _ (x : Net) (e : IsHealthy x) (y : Noise x) (n : IsHonest x e y) (c : Ed25519)
    (z : Yatlv) where
  open e use {pending, written}
  open n use {initiator, responder, transport}

  abbrev started : y.Handshake → x.Input → x.Output → HandshakeContext x y
  started h read write = record {
    handshake = h;
    frame = [];
    noise_buf = new_noise_buf;
    read = read;
    write = write;
  }

  At-started :
      (h : y.Handshake) (read : x.Input) (write : x.Output) (stream : Bytes)
      → pending read ≡ stream
      → At x e y n (started h read write) h stream (written write)
  At-started h read write stream s = record {
    handshake_is = refl;
    room = length-new_noise_buf;
    to_read = s;
    has_written = refl;
  }

  -- The message half around a packet half.
  abbrev pub received : PacketRx x → MessageRx x
  received rx = record { packets = rx; read_buf = [] }

  pub Connected-Handed :
      (t u : x.Cipher) (out in_a in_b : Bytes) (tx : PacketTx x) (rx rx' : PacketRx x)
      (tx' : PacketTx x) (out' : Bytes)
      → e.Paired t u
      → Handed x e y n c z t in_a out tx rx
      → Handed x e y n c z u in_b out' tx' rx'
      → Connected x e tx in_b (received rx')
  Connected-Handed t u out in_a in_b tx rx rx' tx' out' p from to = record {
    sender_idle = ap (λ q. q.in_progress) from.new_builder;
    receiver_idle = ap (λ q. q.in_progress) to.new_reader;
    facing = record { paired = rw (from.writes_with, to.reads_with) p; stream_is = to.to_read };
  }

  connect-started :
      (a : TransportPrivateKey) (local : SignedAuthHeader) (key : SignatureVerificationKey c)
      (read : x.Input) (write : x.Output) (tx : PacketTx x) (rx : PacketRx x) (d : AuthDetails)
      → length a.bytes ≡ 32
      → (connect_steps x y c z local key (started (initiator a.bytes) read write)).0
        ≡ ok ((tx, rx), d)
      → connect x y c z false read write a local key ≡ ok ((tx, received rx), d)
  unfolding connect connect_packets within run new_initiator new_context with_messages
  connect-started a local key read write tx rx d h done =
      rw (n.build_initiator-ok a.bytes h, done) refl

  accept-started :
      (b : TransportPrivateKey) (local : SignedAuthHeader) (key : SignatureVerificationKey c)
      (read : x.Input) (write : x.Output) (tx : PacketTx x) (rx : PacketRx x) (d : AuthDetails)
      → length b.bytes ≡ 32
      → (accept_steps x y c z local key (started (responder b.bytes) read write)).0
        ≡ ok ((tx, rx), d)
      → accept x y c z false read write b local key ≡ ok ((tx, received rx), d)
  unfolding accept accept_packets within run new_responder new_context with_messages
  accept-started b local key read write tx rx d h done =
      rw (n.build_responder-ok b.bytes h, done) refl

  module _ (a b : TransportPrivateKey) (local_a local_b : SignedAuthHeader)
      (key_a key_b : SignatureVerificationKey c) (h_a h_b : AuthHeader)
      (honest : Honest x e y n c z a b local_a local_b key_a key_b h_a h_b) where
    -- The initiator.
    pub connect-Handed :
        (read : x.Input) (write : x.Output) (rest : Bytes)
        → pending read ≡ framed (reply x e y n a.bytes b.bytes local_b.bytes) ++ rest
        → (tx : PacketTx x) × (rx : PacketRx x) × (connect x y c z false read write a local_a key_a
            ≡ ok ((tx, received rx), into_details h_b))
          × Handed x e y n c z
              (transport (i_end x e y n a.bytes b.bytes local_a.bytes local_b.bytes))
              rest
              ((written write ++ framed (hello x e y n a.bytes))
                ++ framed (last x e y n a.bytes b.bytes local_a.bytes local_b.bytes))
              tx
              rx
    connect-Handed read write rest input =
        let (tx, rx, done, handed) =
          connect_steps-Handed x e y n c z a b local_a local_b key_a key_b h_a h_b honest
            (started (initiator a.bytes) read write) rest _ (At-started _ read write _ input) in
        (tx, rx, connect-started a local_a key_a read write tx rx _ honest.length_a done, handed)

    -- The responder.
    pub accept-Handed :
        (read : x.Input) (write : x.Output) (rest : Bytes)
        → pending read
          ≡ framed (hello x e y n a.bytes)
            ++ (framed (last x e y n a.bytes b.bytes local_a.bytes local_b.bytes) ++ rest)
        → (tx : PacketTx x) × (rx : PacketRx x) × (accept x y c z false read write b local_b key_b
            ≡ ok ((tx, received rx), into_details h_a))
          × Handed x e y n c z
              (transport (r_end x e y n a.bytes b.bytes local_a.bytes local_b.bytes))
              rest
              (written write ++ framed (reply x e y n a.bytes b.bytes local_b.bytes))
              tx
              rx
    accept-Handed read write rest input =
        let (tx, rx, done, handed) =
          accept_steps-Handed x e y n c z a b local_a local_b key_a key_b h_a h_b honest
            (started (responder b.bytes) read write) rest _ (At-started _ read write _ input) in
        (tx, rx, accept-started b local_b key_b read write tx rx _ honest.length_b done, handed)

    -- Each side's cipher faces the other's.
    pub paired :
        e.Paired
          (transport (r_end x e y n a.bytes b.bytes local_a.bytes local_b.bytes))
          (transport (i_end x e y n a.bytes b.bytes local_a.bytes local_b.bytes))
        × e.Paired
            (transport (i_end x e y n a.bytes b.bytes local_a.bytes local_b.bytes))
            (transport (r_end x e y n a.bytes b.bytes local_a.bytes local_b.bytes))
    paired =
        let (made_r, made_i, pair_r, pair_i) =
          n.into_transport_mode-ok a.bytes b.bytes _ _
            (Stage-ended x e y n c z a b local_a local_b key_a key_b h_a h_b honest) in
        (pair_r, pair_i)

  -- When two peers follow the XX pattern over a connection without faults, have 32-byte private
  -- keys, and each has a header that fits a handshake message, that the other verifies and that
  -- names its own public key, and no time limit passes first, connect and accept both return, each
  -- with the details of the other's header; each writes the very frames that the other is given to
  -- read, and takes no byte behind them; and both directions are connected, between messages, on
  -- the bytes behind the handshake.
  pub connect-accept :
      (a b : TransportPrivateKey) (local_a local_b : SignedAuthHeader)
      (key_a key_b : SignatureVerificationKey c) (h_a h_b : AuthHeader) (read_a read_b : x.Input)
      (write_a write_b : x.Output) (rest_a rest_b : Bytes)
      → Honest x e y n c z a b local_a local_b key_a key_b h_a h_b
      → pending read_a ≡ framed (reply x e y n a.bytes b.bytes local_b.bytes) ++ rest_a
      → pending read_b
        ≡ framed (hello x e y n a.bytes)
          ++ (framed (last x e y n a.bytes b.bytes local_a.bytes local_b.bytes) ++ rest_b)
      → (tx_a : PacketTx x) × (rx_a : MessageRx x) × (tx_b : PacketTx x) × (rx_b : MessageRx x)
        × (connect x y c z false read_a write_a a local_a key_a
            ≡ ok ((tx_a, rx_a), into_details h_b))
        × (accept x y c z false read_b write_b b local_b key_b
            ≡ ok ((tx_b, rx_b), into_details h_a))
        × (written tx_a.writer.write
            ≡ (written write_a ++ framed (hello x e y n a.bytes))
              ++ framed (last x e y n a.bytes b.bytes local_a.bytes local_b.bytes))
        × (written tx_b.writer.write
            ≡ written write_b ++ framed (reply x e y n a.bytes b.bytes local_b.bytes))
        × Connected x e tx_a rest_b rx_b
        × Connected x e tx_b rest_a rx_a
  connect-accept a b local_a local_b key_a key_b h_a h_b read_a read_b write_a write_b rest_a rest_b
        honest in_a in_b =
      let (pair_r, pair_i) = paired a b local_a local_b key_a key_b h_a h_b honest in
      let (tx_a, rx_a, done_a, handed_a) =
        connect-Handed a b local_a local_b key_a key_b h_a h_b honest read_a write_a rest_a in_a in
      let (tx_b, rx_b, done_b, handed_b) =
        accept-Handed a b local_a local_b key_a key_b h_a h_b honest read_b write_b rest_b in_b in
      (
        tx_a,
        received rx_a,
        tx_b,
        received rx_b,
        done_a,
        done_b,
        handed_a.has_written,
        handed_b.has_written,
        Connected-Handed _ _ _ _ _ tx_a rx_a rx_b tx_b _ pair_i handed_a handed_b,
        Connected-Handed _ _ _ _ _ tx_b rx_b rx_a tx_a _ pair_r handed_b handed_a,
      )
