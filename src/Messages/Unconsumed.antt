-- ===== src/Messages/Unconsumed.antt =====
-- A message handle of messages.rs that is dropped before its message has been read.
use snowpack.Prelude.{ℕ, suc, ◌<◌, ◌≤◌, ◌≡◌, refl, [], ◌∷◌, ◌++◌, length, Bytes, true, ok, arith}
use snowpack.External.Net.{Net, IsHealthy}
use snowpack.PacketState.Header.{PacketKind, max_packet_size}
use snowpack.PacketState.Builder.{packet_kind}
use snowpack.PacketState.Protocol.{packet}
use snowpack.Packets.Sending.{frames}
use snowpack.Packets.Receiving.{open_at, closed}
use snowpack.Messages.{
  MessageRx, Message, panicked, read_message, read_bytes, collect, on_packet, by_kind,
}
use snowpack.Messages.Delivery.{At, first_packet, later}

-- A receiver whose message handle was dropped inside a message, and that is then sent the last
-- packet of it and a message of one packet over a healthy connection, returns a handle for the
-- last packet, and read_bytes on this handle panics.
pub read_bytes-panicked :
    (x : Net) (e : IsHealthy x) (fuel : ℕ) (t : x.Cipher) (ty ty' : ℕ) (c d rest : Bytes)
    (rx : MessageRx x)
    → ty < 4096
    → ty' < 4096
    → 2 ≤ e.left t
    → length c ≤ max_packet_size
    → length d ≤ max_packet_size
    → At x e t
        (frames x e t (packet PacketKind.last ty c ∷ packet PacketKind.sole ty' d ∷ []) ++ rest)
        (open_at ty)
        rx
    → (m : Message x) × (rx' : MessageRx x) × (read_message x rx ≡ (ok m, rx'))
      × (read_bytes x (suc fuel) m rx' ≡ panicked)
unfolding read_message read_bytes collect on_packet by_kind packet_kind
read_bytes-panicked x e fuel t ty ty' c d rest rx h h' room small small' at =
    let (p, took, body, state, face) =
      later x e t true ty c _ rest rx h at (omega arith) (small, tt) in
    let rx' : MessageRx x = record { packets = p; read_buf = c } in
    let room' : 0 < e.left (e.wrote t) = omega (arith, e.left-wrote t (omega arith)) in
    let (p', took', body', state', face') =
      first_packet x e (e.wrote t) true ty' d [] rest closed rx' h' refl
        (record { facing = face; reader = state }) room' (small', tt) in
    (
      record { first_header = record { kind = PacketKind.last; msg_type = ty } },
      record { packets = p; read_buf = rx.read_buf },
      rw took,
      rw (body, took'),
    )
