-- ===== src/PacketState/Feed.antt =====
-- A run of `PacketBuilder` whose packets are all fed to one `PacketReader` (packet_state.rs).
use snowpack.Prelude.{
  ℕ, ◌≡◌, refl, ap, List, [], ◌∷◌, Bytes, Bool, true, false, Bool-cases, inl, inr, Option, none,
  some, Result, ok, err, if◌then◌else◌,
}
use snowpack.PacketState.Header.{
  PacketKind, PacketHeader, PacketReadError, pack_header, to_be_bytes, missing_message_start,
}
use snowpack.PacketState.Builder.{
  PacketBuilder, PacketBuildError, prepare, pack, abort, no_message_in_progress,
}
use snowpack.PacketState.Reader.{PacketReader, read}
use snowpack.PacketState.Sync.{
  Synced, prepare-Synced, abort-Synced, abort-before_first, next_header, pack-in_progress,
  read-pack, next_reader-Synced,
}

pub data Operation : Type 0 where
  prepares : ℕ → Operation
  packs : (payload : Bytes) (is_last : Bool) → Operation
  aborts : Operation

-- The packet that an operation makes, if it makes one.
unfoldable pub packet_of : Result Bytes PacketBuildError → Option Bytes
packet_of (ok raw) = some raw
packet_of (err e) = none

unfoldable pub emit : Operation → PacketBuilder → Option Bytes × PacketBuilder
unfolding packet_of
emit (prepares t) b = (none, (prepare b t).1)
emit (packs payload is_last) b = let (r, b') = pack b payload is_last in (packet_of r, b')
emit aborts b = abort b

-- What the reader said of each packet.
abbrev pub Said : Type 0
Said = List (Result PacketHeader PacketReadError)

unfoldable pub feed : Option Bytes → PacketReader → Said × PacketReader
feed none r = ([], r)
feed (some raw) r = let (said, r') = read r raw in (said ∷ [], r')

unfoldable pub converse :
    List Operation → PacketBuilder → PacketReader → List Said × PacketBuilder × PacketReader
unfolding emit feed
converse [] b r = ([], b, r)
converse (op ∷ ops) b r =
    let (packet, b') = emit op b in
    let (said, r') = feed packet r in
    let (rest, b'', r'') = converse ops b' r' in (said ∷ rest, b'', r'')

-- What a reader in step with the builder says of the packet that an operation makes.
unfoldable pub expected : Operation → PacketBuilder → Said
expected (prepares t) b = []
expected (packs payload is_last) b = if b.in_progress then ok (next_header b is_last) ∷ [] else []
expected aborts b =
    if b.in_progress
    then (if b.is_first
        then err (missing_message_start b.msg_type) ∷ []
        else ok (record { kind = PacketKind.abort; msg_type = b.msg_type }) ∷ [])
    else []

unfoldable pub all_expected : List Operation → PacketBuilder → List Said
unfolding expected
all_expected [] b = []
all_expected (op ∷ ops) b = expected op b ∷ all_expected ops (emit op b).1

pack-refused :
    (b : PacketBuilder)
    → b.in_progress ≡ false
    → (payload : Bytes) (is_last : Bool) → pack b payload is_last ≡ (err no_message_in_progress, b)
unfolding pack
pack-refused b e payload is_last = rw e

abort-refused : (b : PacketBuilder) → b.in_progress ≡ false → abort b ≡ (none, b)
unfolding abort
abort-refused b e = rw e

abort-in_progress :
    (b : PacketBuilder)
    → b.in_progress ≡ true
    → (abort b).0 ≡ some (to_be_bytes (pack_header PacketKind.abort b.msg_type))
unfolding abort
abort-in_progress b e = rw e

module _ (b : PacketBuilder) (r : PacketReader) (s : Synced b r) where
  -- One operation, and its packet read.
  abbrev AsExpected : Operation → Type 0
  AsExpected op =
      ((feed (emit op b).0 r).0 ≡ expected op b) × Synced (emit op b).1 (feed (emit op b).0 r).1

  packs_going :
      b.in_progress ≡ true → (payload : Bytes) (is_last : Bool) → AsExpected (packs payload is_last)
  unfolding emit feed expected packet_of
  packs_going e payload is_last =
      let packed = pack-in_progress b r s e payload is_last in
      let taken = read-pack b r s e payload is_last in
      (rw (packed, taken, e) refl, rw (packed, taken) (next_reader-Synced b r s e payload is_last))

  packs_refused :
      b.in_progress ≡ false
      → (payload : Bytes) (is_last : Bool) → AsExpected (packs payload is_last)
  unfolding emit feed expected packet_of
  packs_refused e payload is_last =
      (rw (pack-refused b e payload is_last, e) refl, rw (pack-refused b e payload is_last) s)

  aborts_first : b.in_progress ≡ true → b.is_first ≡ true → AsExpected aborts
  unfolding emit feed expected
  aborts_first e f =
      let sent = abort-in_progress b e in
      let (taken, later) = abort-before_first b r _ s f sent in
      (rw (sent, taken, e, f) refl, rw (sent, taken) later)

  aborts_later : b.in_progress ≡ true → b.is_first ≡ false → AsExpected aborts
  unfolding emit feed expected
  aborts_later e f =
      let sent = abort-in_progress b e in
      let (taken, later) = abort-Synced b r _ s f sent in
      (rw (sent, e, f) (ap (λ x. x.0 ∷ []) taken), rw sent later)

  aborts_refused : b.in_progress ≡ false → AsExpected aborts
  unfolding emit feed expected
  aborts_refused e = (rw (abort-refused b e, e) refl, rw (abort-refused b e) s)

  each-AsExpected : (op : Operation) → AsExpected op
  unfolding emit feed expected
  each-AsExpected (prepares t) = (refl, prepare-Synced b r t s)
  each-AsExpected (packs payload is_last) = elim (Bool-cases b.in_progress) [
    | inl e ↦ packs_going e payload is_last
    | inr e ↦ packs_refused e payload is_last
  ]
  each-AsExpected aborts = elim (Bool-cases b.in_progress) [
    | inl e ↦ elim (Bool-cases b.is_first) [ inl f ↦ aborts_first e f | inr f ↦ aborts_later e f ]
    | inr e ↦ aborts_refused e
  ]

-- From a packet builder and a packet reader in step, whatever messages are prepared, packed and
-- aborted, in any order, calls that the builder refuses included, the reader that is fed every
-- packet that comes out accepts each with the builder's kind and type, but for an abort before the
-- first packet of a message, which it refuses for its missing start; a refused call gives no
-- packet; and builder and reader are in step at the end.
pub converse-Synced :
    (ops : List Operation) (b : PacketBuilder) (r : PacketReader)
    → Synced b r
    → let (said, b', r') = converse ops b r in (said ≡ all_expected ops b) × Synced b' r'
unfolding converse all_expected
converse-Synced [] b r s = (refl, s)
converse-Synced (op ∷ ops) b r s =
    let (said, next) = each-AsExpected b r s op in
    let (rest, last) = converse-Synced ops _ _ next in (rw (said, rest) refl, last)
