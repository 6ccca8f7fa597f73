-- ===== src/PacketState/Sync.antt =====
-- `PacketBuilder` against `PacketReader` (packet_state.rs): what one writes, the other accepts.
use snowpack.Prelude.{
  ℕ, [], ◌<◌, ◌≡◌, refl, ◌∙◌, Bytes, Bool, true, false, not, ◌&&◌, some, ok, err, drop, arith,
  if◌then◌else◌,
}
use snowpack.PacketState.Header.{PacketKind, PacketHeader, to_be_bytes, missing_message_start}
use snowpack.PacketState.Builder
use snowpack.PacketState.Builder.{
  PacketBuilder, prepare, pack, abort, packet_kind, message_already_in_progress,
  no_message_in_progress, message_type_too_large,
}
use snowpack.PacketState.Reader
use snowpack.PacketState.Reader.{PacketReader, read, read_kind}
use snowpack.PacketState.Protocol.{packet, read-packet}

-- The reader has a message open exactly when the builder has sent a part of one, and it is of the
-- builder's type.
pub record Synced (b : PacketBuilder) (r : PacketReader) : Type 0 where
  pub opened : r.in_progress ≡ (b.in_progress && not b.is_first)
  pub same_type : r.in_progress ≡ true → r.msg_type ≡ b.msg_type
  pub small : b.msg_type < 4096

pub Synced-new : Synced Builder.new Reader.new
Synced-new = record { opened = refl; same_type = λ e. refl; small = omega arith }

-- Starting a message keeps builder and reader in step, whether the call is accepted or refused.
pub prepare-Synced :
    (b : PacketBuilder) (r : PacketReader) (t : ℕ) → Synced b r → Synced (prepare b t).1 r
unfolding prepare
prepare-Synced b r t s = record {
  opened = ground arith;
  same_type = ground arith;
  small = ground arith;
}

-- The header that the builder's next packet carries, and the reader after that packet.
abbrev pub next_header : PacketBuilder → Bool → PacketHeader
next_header b is_last = record { kind = packet_kind b.is_first is_last; msg_type = b.msg_type }

pub next_reader : PacketBuilder → PacketReader → Bool → PacketReader
next_reader b r is_last =
    if is_last
    then (if b.is_first then r else record { in_progress = false; msg_type = 0 })
    else record { in_progress = true; msg_type = b.msg_type }

module _ (b : PacketBuilder) (r : PacketReader) (s : Synced b r) (e : b.in_progress ≡ true) where
  read_kind-next :
      (is_last : Bool)
      → read_kind r (ok (packet_kind b.is_first is_last)) b.msg_type
        ≡ (ok (next_header b is_last), next_reader b r is_last)
  unfolding read_kind packet_kind next_reader
  read_kind-next is_last = ground (arith, s.opened, s.same_type)

  -- A message that is in progress packs, and the reader takes the packet, with its kind and type.
  pub pack-in_progress :
      (payload : Bytes) (is_last : Bool)
      → (pack b payload is_last).0 ≡ ok (packet (packet_kind b.is_first is_last) b.msg_type payload)
  unfolding pack
  pack-in_progress payload is_last = rw e

  pub read-pack :
      (payload : Bytes) (is_last : Bool)
      → read r (packet (packet_kind b.is_first is_last) b.msg_type payload)
        ≡ (ok (next_header b is_last), next_reader b r is_last)
  read-pack payload is_last =
      read-packet r (packet_kind b.is_first is_last) b.msg_type payload s.small
      ∙ read_kind-next is_last

  pub next_reader-Synced :
      (payload : Bytes) (is_last : Bool)
      → Synced (pack b payload is_last).1 (next_reader b r is_last)
  unfolding pack next_reader
  next_reader-Synced payload is_last = record {
    opened = ground (arith, s.opened);
    same_type = ground (arith, s.opened, s.same_type);
    small = ground (arith, s.small);
  }

pack-eq-ok :
    (b : PacketBuilder) (payload : Bytes) (is_last : Bool) (raw : Bytes)
    → (pack b payload is_last).0 ≡ ok raw
    → (b.in_progress ≡ true) × (raw ≡ packet (packet_kind b.is_first is_last) b.msg_type payload)
unfolding pack
pack-eq-ok b payload is_last raw e = ground arith

pub drop-packet : (k : PacketKind) (t : ℕ) (payload : Bytes) → drop 2 (packet k t payload) ≡ payload
unfolding to_be_bytes
drop-packet k t payload = refl

-- A packet that the builder packs is accepted by a reader in step with it, with the kind that the
-- two flags give, the builder's type and the payload behind the header, and builder and reader are
-- in step again.
pub pack-Synced :
    (b : PacketBuilder) (r : PacketReader) (payload : Bytes) (is_last : Bool) (raw : Bytes)
    → Synced b r
    → (pack b payload is_last).0 ≡ ok raw
    → ((read r raw).0 ≡ ok (next_header b is_last))
      × (drop 2 raw ≡ payload)
      × Synced (pack b payload is_last).1 (read r raw).1
pack-Synced b r payload is_last raw s e =
    let (going, shape) = pack-eq-ok b payload is_last raw e in
    let taken = read-pack b r s going payload is_last in
    rw (shape, taken)
      (refl, drop-packet _ _ payload, next_reader-Synced b r s going payload is_last)

abort-eq-some :
    (b : PacketBuilder) (raw : Bytes)
    → (abort b).0 ≡ some raw
    → (b.in_progress ≡ true) × (raw ≡ packet PacketKind.abort b.msg_type [])
unfolding abort to_be_bytes
abort-eq-some b raw e = ground arith

-- The builder after an abort that sent a packet.
abort-idle : (b : PacketBuilder) → b.in_progress ≡ true → (abort b).1.in_progress ≡ false
unfolding abort
abort-idle b e = rw e

abort-type : (b : PacketBuilder) → (abort b).1.msg_type ≡ b.msg_type
unfolding abort
abort-type b = ground arith

module _ (b : PacketBuilder) (r : PacketReader) (s : Synced b r) where
  read_kind-abort :
      b.in_progress ≡ true
      → b.is_first ≡ false
      → read_kind r (ok PacketKind.abort) b.msg_type ≡ (
        ok (record { kind = PacketKind.abort; msg_type = b.msg_type }),
        record { in_progress = false; msg_type = 0 },
      )
  unfolding read_kind
  read_kind-abort e f = ground (arith, s.opened, s.same_type)

  read_kind-early_abort :
      b.is_first ≡ true
      → read_kind r (ok PacketKind.abort) b.msg_type ≡ (err (missing_message_start b.msg_type), r)
  unfolding read_kind
  read_kind-early_abort f = ground (arith, s.opened)

  abort_closes-Synced :
      b.in_progress ≡ true → Synced (abort b).1 (record { in_progress = false; msg_type = 0 })
  abort_closes-Synced e = record {
    opened = rw (abort-idle b e);
    same_type = λ x. cc;
    small = rw (abort-type b) s.small;
  }

  early_abort-Synced : b.in_progress ≡ true → b.is_first ≡ true → Synced (abort b).1 r
  early_abort-Synced e f = record {
    opened = rw (abort-idle b e, s.opened, e, f);
    same_type = rw (abort-type b) s.same_type;
    small = rw (abort-type b) s.small;
  }

-- An abort after the first packet is accepted by a reader in step with the builder, as an abort of
-- the builder's type, and closes the message on both sides.
pub abort-Synced :
    (b : PacketBuilder) (r : PacketReader) (raw : Bytes)
    → Synced b r
    → b.is_first ≡ false
    → (abort b).0 ≡ some raw
    → (read r raw ≡ (
      ok (record { kind = PacketKind.abort; msg_type = b.msg_type }),
      record { in_progress = false; msg_type = 0 },
    ))
      × Synced (abort b).1 (read r raw).1
abort-Synced b r raw s f e =
    let (going, shape) = abort-eq-some b raw e in
    let taken =
      read-packet r PacketKind.abort b.msg_type [] s.small ∙ read_kind-abort b r s going f in
    rw (shape, taken) (refl, abort_closes-Synced b r s going)

-- An abort before the first packet sends a packet that a reader in step with the builder refuses
-- for its missing message start, and the two stay in step.
pub abort-before_first :
    (b : PacketBuilder) (r : PacketReader) (raw : Bytes)
    → Synced b r
    → b.is_first ≡ true
    → (abort b).0 ≡ some raw
    → (read r raw ≡ (err (missing_message_start b.msg_type), r)) × Synced (abort b).1 r
abort-before_first b r raw s f e =
    let (going, shape) = abort-eq-some b raw e in
    let taken =
      read-packet r PacketKind.abort b.msg_type [] s.small ∙ read_kind-early_abort b r s f in
    rw (shape, taken) (refl, early_abort-Synced b r s going f)
