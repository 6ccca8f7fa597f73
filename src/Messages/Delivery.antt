-- ===== src/Messages/Delivery.antt =====
-- Messages of messages.rs over a healthy connection: what is sent arrives, and is read whole.
use snowpack.Prelude.{
  ℕ, zero, suc, ◌<◌, ◌≤◌, ◌≡◌, refl, ap, subst, ◌∙◌, ◌++◌, [], ◌∷◌, List, append-nil, append_assoc,
  Bytes, Bool, true, false, ok, length, arith, if◌then◌else◌,
}
use snowpack.External.Net.{Net, IsHealthy}
use snowpack.PacketState.Header.{PacketKind}
use snowpack.PacketState.Builder.{packet_kind}
use snowpack.PacketState.Reader.{PacketReader}
use snowpack.PacketState.Protocol.{packet}
use snowpack.Packets.Rx.{PacketRx, read_packet, payload}
use snowpack.Packets.Wire.{frame}
use snowpack.Packets.Sending.{message_packets, frames, cipher_after, AllSmall}
use snowpack.Packets.Chunks.{concat}
use snowpack.Packets.Receiving.{Facing, receive, read-opening, read-later, open_at, closed}
use snowpack.Messages.{
  Message, MessageRx, returned, read_message, read_bytes, collect, on_packet, by_kind, msg_type,
}

module _ (x : Net) (e : IsHealthy x) where
  open e use {left, wrote}

  -- A receiver that faces a cipher with a stream to read, its packet reader in a given state.
  pub record At (t : x.Cipher) (stream : Bytes) (r : PacketReader) (rx : MessageRx x) : Type 0 where
    pub facing : Facing x e t stream rx.packets
    pub reader : rx.packets.packet_reader ≡ r

  regroup :
      (t : x.Cipher) (p : Bytes) (ps : List Bytes) (rest : Bytes)
      → frames x e t (p ∷ ps) ++ rest ≡ frame x e t p ++ (frames x e (wrote t) ps ++ rest)
  unfolding frames
  regroup t p ps rest = append_assoc (frame x e t p) (frames x e (wrote t) ps) rest

  -- A packet of an open message arrives.
  pub later :
      (t : x.Cipher) (l : Bool) (ty : ℕ) (c : Bytes) (ps : List Bytes) (rest : Bytes)
      (rx : MessageRx x)
      → ty < 4096
      → At t (frames x e t (packet (packet_kind false l) ty c ∷ ps) ++ rest) (open_at ty) rx
      → 0 < left t
      → AllSmall (c ∷ [])
      → (p : PacketRx x) × (read_packet x rx.packets
          ≡ (ok (record { kind = packet_kind false l; msg_type = ty }), p))
        × (payload x p ≡ c)
        × (p.packet_reader ≡ (if l then closed else open_at ty))
        × Facing x e (wrote t) (frames x e (wrote t) ps ++ rest) p
  later t l ty c ps rest rx h at room small =
      receive x e t (packet_kind false l) ty c (frames x e (wrote t) ps ++ rest) rx.packets _ _
        (subst (λ s. Facing x e t s rx.packets) (regroup t _ ps rest) at.facing) room small.0
        (rw at.reader (read-later l ty c h))

  -- The opening packet of a message arrives at a receiver that is between messages.
  pub first_packet :
      (t : x.Cipher) (l : Bool) (ty : ℕ) (c : Bytes) (ps : List Bytes) (rest : Bytes)
      (r : PacketReader) (rx : MessageRx x)
      → ty < 4096
      → r.in_progress ≡ false
      → At t (frames x e t (packet (packet_kind true l) ty c ∷ ps) ++ rest) r rx
      → 0 < left t
      → AllSmall (c ∷ [])
      → (p : PacketRx x) × (read_packet x rx.packets
          ≡ (ok (record { kind = packet_kind true l; msg_type = ty }), p))
        × (payload x p ≡ c)
        × (p.packet_reader ≡ (if l then r else open_at ty))
        × Facing x e (wrote t) (frames x e (wrote t) ps ++ rest) p
  first_packet t l ty c ps rest r rx h idle at room small =
      receive x e t (packet_kind true l) ty c (frames x e (wrote t) ps ++ rest) rx.packets _ _
        (subst (λ s. Facing x e t s rx.packets) (regroup t _ ps rest) at.facing) room small.0
        (rw at.reader (read-opening r l ty c h idle))

  -- The loop of `read_bytes` reads the rest of a message, in a round for each packet.
  pub collect-ok :
      (fuel : ℕ) (t : x.Cipher) (ty : ℕ) (c : Bytes) (cs : List Bytes) (rest : Bytes)
      (rx : MessageRx x)
      → ty < 4096
      → At t (frames x e t (message_packets false true ty (c ∷ cs)) ++ rest) (open_at ty) rx
      → length (c ∷ cs) ≤ left t
      → AllSmall (c ∷ cs)
      → length (c ∷ cs) ≤ fuel
      → (rx' : MessageRx x) × (collect x fuel rx
          ≡ returned (ok (rx.read_buf ++ concat (c ∷ cs))) rx')
        × At (cipher_after x e t (message_packets false true ty (c ∷ cs))) rest closed rx'
  unfolding collect on_packet by_kind message_packets frames cipher_after packet_kind
  collect-ok zero t ty c cs rest rx h at room small f = absurd (omega arith)
  collect-ok (suc fuel) t ty c [] rest rx h at room small f =
      let (p, took, body, state, face) =
        later t true ty c [] rest rx h at (omega arith) (small.0, tt) in
      (
        record { packets = p; read_buf = rx.read_buf ++ c },
        rw (took, body, append-nil c),
        record { facing = face; reader = state },
      )
  collect-ok (suc fuel) t ty c (d ∷ cs) rest rx h at room small f =
      let (p, took, body, state, face) =
        later t false ty c (message_packets false true ty (d ∷ cs)) rest rx h at (omega arith)
          (small.0, tt) in
      let rx₁ : MessageRx x = record { packets = p; read_buf = rx.read_buf ++ c } in
      let (rx₂, done, at₂) =
        collect-ok fuel (wrote t) ty d cs rest rx₁ h (record { facing = face; reader = state })
          (omega (arith, e.left-wrote t (omega arith))) small.1 (omega arith) in
      (
        rx₂,
        rw (took, body)
            (done ∙ ap (λ z. returned (ok z) rx₂) (append_assoc rx.read_buf c (concat (d ∷ cs)))),
        at₂,
      )

  -- Both methods of a receiver that is between messages: the message handle, then the payload.
  pub record Delivers (fuel : ℕ) (ty : ℕ) (body : Bytes) (rx rx' : MessageRx x) : Type 0 where
    pub handle : Message x
    pub opened : MessageRx x
    pub reads : read_message x rx ≡ (ok handle, opened)
    pub type : msg_type x handle ≡ ty
    pub whole : read_bytes x fuel handle opened ≡ returned (ok body) rx'

  pub read-message_packets :
      (fuel : ℕ) (t : x.Cipher) (ty : ℕ) (c : Bytes) (cs : List Bytes) (rest : Bytes)
      (r : PacketReader) (rx : MessageRx x)
      → ty < 4096
      → r.in_progress ≡ false
      → At t (frames x e t (message_packets true true ty (c ∷ cs)) ++ rest) r rx
      → length (c ∷ cs) ≤ left t
      → AllSmall (c ∷ cs)
      → length cs ≤ fuel
      → (rx' : MessageRx x) × (r' : PacketReader) × Delivers fuel ty (concat (c ∷ cs)) rx rx'
        × (r'.in_progress ≡ false)
        × At (cipher_after x e t (message_packets true true ty (c ∷ cs))) rest r' rx'
  unfolding read_message read_bytes message_packets frames cipher_after packet_kind
  read-message_packets fuel t ty c [] rest r rx h idle at room small f =
      let (p, took, body, state, face) =
        first_packet t true ty c [] rest r rx h idle at (omega arith) (small.0, tt) in
      (
        record { packets = p; read_buf = c },
        r,
        record {
          handle = record { first_header = record { kind = PacketKind.sole; msg_type = ty } };
          opened = record { packets = p; read_buf = rx.read_buf };
          reads = rw took;
          type = refl;
          whole = rw (body, append-nil c);
        },
        idle,
        record { facing = face; reader = state },
      )
  read-message_packets fuel t ty c (d ∷ cs) rest r rx h idle at room small f =
      let (p, took, body, state, face) =
        first_packet t false ty c (message_packets false true ty (d ∷ cs)) rest r rx h idle at
          (omega arith) (small.0, tt) in
      let rx₁ : MessageRx x = record { packets = p; read_buf = c } in
      let (rx₂, done, at₂) =
        collect-ok fuel (wrote t) ty d cs rest rx₁ h (record { facing = face; reader = state })
          (omega (arith, e.left-wrote t (omega arith))) small.1 (omega arith) in
      (
        rx₂,
        closed,
        record {
          handle = record { first_header = record { kind = PacketKind.first; msg_type = ty } };
          opened = record { packets = p; read_buf = rx.read_buf };
          reads = rw took;
          type = refl;
          whole = rw body done;
        },
        refl,
        at₂,
      )
