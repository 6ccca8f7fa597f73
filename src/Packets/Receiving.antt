-- ===== src/Packets/Receiving.antt =====
-- What the receiving half of packets.rs makes of the frames of a message.
use snowpack.Prelude.{
  ℕ, ◌<◌, ◌≤◌, ◌≡◌, sym, ap, subst, ◌∙◌, ◌++◌, [], Bytes, Bool, true, false, ok, map_err, length,
  arith, if◌then◌else◌,
}
use snowpack.External.Net.{Net, IsHealthy}
use snowpack.PacketState.Header.{PacketKind, PacketHeader, max_packet_size}
use snowpack.PacketState.Builder.{packet_kind}
use snowpack.PacketState.Reader.{PacketReader, read, read_kind}
use snowpack.PacketState.Protocol.{packet, read-packet}
use snowpack.PacketState.Sync.{drop-packet}
use snowpack.Packets.Error.{packet as packet_error}
use snowpack.Packets.Rx.{PacketRx, read_packet, payload}
use snowpack.Packets.Wire.{frame, read_packet-ok}
use snowpack.Packets.Sending.{length-packet}

abbrev pub open_at : ℕ → PacketReader
open_at t = record { in_progress = true; msg_type = t }

abbrev pub closed : PacketReader
closed = record { in_progress = false; msg_type = 0 }

-- The first packet of a message, and the later ones.
pub read-opening :
    (r : PacketReader) (l : Bool) (t : ℕ) (c : Bytes)
    → t < 4096
    → r.in_progress ≡ false
    → read r (packet (packet_kind true l) t c)
      ≡ (ok (record { kind = packet_kind true l; msg_type = t }), if l then r else open_at t)
unfolding read_kind packet_kind
read-opening r l t c h i = read-packet r (packet_kind true l) t c h ∙ ground arith

pub read-later :
    (l : Bool) (t : ℕ) (c : Bytes)
    → t < 4096
    → read (open_at t) (packet (packet_kind false l) t c)
      ≡ (ok (record { kind = packet_kind false l; msg_type = t }), if l then closed else open_at t)
unfolding read_kind packet_kind
read-later l t c h = read-packet (open_at t) (packet_kind false l) t c h ∙ ground arith

pub read-abort :
    (t : ℕ)
    → t < 4096
    → read (open_at t) (packet PacketKind.abort t [])
      ≡ (ok (record { kind = PacketKind.abort; msg_type = t }), closed)
unfolding read_kind
read-abort t h = read-packet (open_at t) PacketKind.abort t [] h ∙ ground arith

module _ (x : Net) (e : IsHealthy x) where
  open e use {left, wrote, pending, Paired}

  -- A receiving half that faces a cipher, with a stream still to read.
  pub record Facing (t : x.Cipher) (stream : Bytes) (rx : PacketRx x) : Type 0 where
    pub paired : Paired t rx.cipher
    pub stream_is : pending rx.input ≡ stream

  -- One packet: its header, its payload, and the half that faces the rest.
  pub receive :
      (t : x.Cipher) (k : PacketKind) (ty : ℕ) (c rest : Bytes) (rx : PacketRx x) (h : PacketHeader)
      (r' : PacketReader)
      → Facing t (frame x e t (packet k ty c) ++ rest) rx
      → 0 < left t
      → length c ≤ max_packet_size
      → read rx.packet_reader (packet k ty c) ≡ (ok h, r')
      → (rx' : PacketRx x) × (read_packet x rx ≡ (ok h, rx'))
        × (payload x rx' ≡ c)
        × (rx'.packet_reader ≡ r')
        × Facing (wrote t) rest rx'
  receive t k ty c rest rx h r' f room small said =
      let p = packet k ty c in
      let (rx', took, got) =
        read_packet-ok x e t p rest rx (omega (arith, length-packet k ty c)) room f.paired
          f.stream_is in
      (
        rx',
        took ∙ ap (λ z. (map_err packet_error z.0, rx')) said,
        got.payload_is ∙ drop-packet k ty c,
        got.reader ∙ ap (λ z. z.1) said,
        record {
          paired = subst (Paired (wrote t)) (sym got.cipher) (e.Paired-wrote t rx.cipher f.paired);
          stream_is = got.rest_pending;
        },
      )
