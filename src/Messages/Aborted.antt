-- ===== src/Messages/Aborted.antt =====
-- The receiver of a message that is abandoned half-way (messages.rs).
use snowpack.Prelude.{
  ℕ, zero, suc, ◌+◌, ◌<◌, ◌≤◌, ◌≡◌, refl, sym, subst, ap, [], ◌∷◌, List, ◌++◌, append_assoc, Bytes,
  true, false, ok, err, length, arith,
}
use snowpack.External.Net.{Net, IsHealthy}
use snowpack.PacketState.Header.{PacketKind}
use snowpack.PacketState.Builder.{packet_kind}
use snowpack.PacketState.Protocol.{packet}
use snowpack.Packets.Error.{message_aborted}
use snowpack.Packets.Wire.{frame}
use snowpack.Packets.Sending.{AllSmall, message_packets, frames, cipher_after}
use snowpack.Packets.Receiving.{Facing, receive, read-abort, open_at, closed}
use snowpack.Messages.{
  Message, MessageRx, returned, read_message, read_bytes, collect, on_packet, by_kind,
}
use snowpack.Messages.Delivery.{At, later, first_packet}
use snowpack.Messages.Abandoning.{abort_of}

mids-cons :
    (t : ℕ) (c : Bytes) (cs : List Bytes)
    → message_packets false false t (c ∷ cs)
      ≡ packet (packet_kind false false) t c ∷ message_packets false false t cs
unfolding message_packets
mids-cons t c [] = refl
mids-cons t c (d ∷ cs) = refl

first-cons :
    (t : ℕ) (c : Bytes) (cs : List Bytes)
    → message_packets true false t (c ∷ cs)
      ≡ packet (packet_kind true false) t c ∷ message_packets false false t cs
unfolding message_packets
first-cons t c [] = refl
first-cons t c (d ∷ cs) = refl

module _ (x : Net) (e : IsHealthy x) where
  open e use {left, wrote, written}

  -- The loop of `read_bytes` meets the abort.
  aborted :
      (fuel : ℕ) (t : x.Cipher) (ty : ℕ) (rest : Bytes) (rx : MessageRx x)
      → ty < 4096
      → At x e t (frames x e t (abort_of ty ∷ []) ++ rest) (open_at ty) rx
      → 0 < left t
      → (rx' : MessageRx x) × (collect x (suc fuel) rx ≡ returned (err message_aborted) rx')
        × At x e (wrote t) rest closed rx'
  unfolding collect on_packet by_kind frames
  aborted fuel t ty rest rx h at room =
      let shape = append_assoc (frame x e t (abort_of ty)) [] rest in
      let (p, took, body, state, face) =
        receive x e t PacketKind.abort ty [] rest rx.packets
          (record { kind = PacketKind.abort; msg_type = ty }) closed
          (subst (λ s. Facing x e t s rx.packets) shape at.facing) room (omega arith)
          (rw at.reader (read-abort ty h)) in
      (
        record { packets = p; read_buf = rx.read_buf },
        rw took,
        record { facing = face; reader = state },
      )

  collect-aborted :
      (fuel : ℕ) (t : x.Cipher) (ty : ℕ) (cs : List Bytes) (rest : Bytes) (rx : MessageRx x)
      → ty < 4096
      → At x e t
          (frames x e t (message_packets false false ty cs ++ abort_of ty ∷ []) ++ rest)
          (open_at ty)
          rx
      → length cs + 1 ≤ left t
      → AllSmall cs
      → length cs < fuel
      → (rx' : MessageRx x) × (collect x fuel rx ≡ returned (err message_aborted) rx')
        × At x e
            (cipher_after x e t (message_packets false false ty cs ++ abort_of ty ∷ []))
            rest
            closed
            rx'
  unfolding collect on_packet by_kind message_packets cipher_after packet_kind
  collect-aborted zero t ty cs rest rx h at room small f = absurd (omega arith)
  collect-aborted (suc fuel) t ty [] rest rx h at room small f =
      aborted fuel t ty rest rx h at (omega arith)
  collect-aborted (suc fuel) t ty (c ∷ cs) rest rx h at room small f =
      let ps = message_packets false false ty cs ++ abort_of ty ∷ [] in
      let shape : message_packets false false ty (c ∷ cs) ++ abort_of ty ∷ []
          ≡ packet (packet_kind false false) ty c ∷ ps =
        ap (λ z. z ++ abort_of ty ∷ []) (mids-cons ty c cs) in
      let at₀ = subst (λ z. At x e t (frames x e t z ++ rest) (open_at ty) rx) shape at in
      let (p, took, body, state, face) =
        later x e t false ty c ps rest rx h at₀ (omega arith) (small.0, tt) in
      let rx₁ : MessageRx x = record { packets = p; read_buf = rx.read_buf ++ c } in
      let (rx₂, done, at₂) =
        collect-aborted fuel (wrote t) ty cs rest rx₁ h (record { facing = face; reader = state })
          (omega (arith, e.left-wrote t (omega arith))) small.1 (omega arith) in
      (
        rx₂,
        rw (took, body) done,
        subst (λ z. At x e (cipher_after x e t z) rest closed rx₂) (sym shape) at₂,
      )

  -- The receiver: a handle for the message, then the error.
  pub abort_seen :
      (fuel : ℕ) (t : x.Cipher) (ty : ℕ) (c : Bytes) (cs : List Bytes) (rest : Bytes)
      (rx : MessageRx x)
      → ty < 4096
      → rx.packets.packet_reader.in_progress ≡ false
      → Facing x e t
          (frames x e t (message_packets true false ty (c ∷ cs) ++ abort_of ty ∷ []) ++ rest)
          rx.packets
      → length (c ∷ cs) + 1 ≤ left t
      → AllSmall (c ∷ cs)
      → length cs < fuel
      → (m : Message x) × (rx₁ : MessageRx x) × (rx' : MessageRx x) × (read_message x rx
          ≡ (ok m, rx₁))
        × (read_bytes x fuel m rx₁ ≡ returned (err message_aborted) rx')
        × At x e
            (cipher_after x e t (message_packets true false ty (c ∷ cs) ++ abort_of ty ∷ []))
            rest
            closed
            rx'
  unfolding read_message read_bytes cipher_after packet_kind
  abort_seen fuel t ty c cs rest rx h idle face room small f =
      let ps = message_packets false false ty cs ++ abort_of ty ∷ [] in
      let shape : message_packets true false ty (c ∷ cs) ++ abort_of ty ∷ []
          ≡ packet (packet_kind true false) ty c ∷ ps =
        ap (λ z. z ++ abort_of ty ∷ []) (first-cons ty c cs) in
      let face₀ = subst (λ z. Facing x e t (frames x e t z ++ rest) rx.packets) shape face in
      let (p, took, body, state, face₁) =
        first_packet x e t false ty c ps rest rx.packets.packet_reader rx h idle
          (record { facing = face₀; reader = refl }) (omega arith) (small.0, tt) in
      let rx₁ : MessageRx x = record { packets = p; read_buf = c } in
      let (rx₂, done, at₂) =
        collect-aborted fuel (wrote t) ty cs rest rx₁ h (record { facing = face₁; reader = state })
          (omega (arith, e.left-wrote t (omega arith))) small.1 f in
      (
        record { first_header = record { kind = PacketKind.first; msg_type = ty } },
        record { packets = p; read_buf = rx.read_buf },
        rx₂,
        rw took,
        rw body done,
        subst (λ z. At x e (cipher_after x e t z) rest closed rx₂) (sym shape) at₂,
      )
