-- ===== src/PacketState/Protocol.antt =====
-- The packet protocol of packet_state.rs as a relation: which packet may come when, independent of
-- how `PacketReader` stores it. `PacketReader::read` accepts exactly the steps of the relation.
use snowpack.Prelude.{
  ℕ, ◌++◌, ◌<◌, ◌≡◌, refl, Bytes, Bool, true, false, ok, err, arith, if◌then◌else◌, inl, inr,
  Bool-cases, ◌==◌, ==_iff, subst, ◌≢◌,
}
use snowpack.PacketState.Header.{PacketKind, pack_header, to_be_bytes}
use snowpack.PacketState.Bits.{header_bytes}
use snowpack.PacketState.Reader.{PacketReader, Read, read, read_kind}

-- Between messages, or inside a message of the given type.
pub data Phase : Type 0 where
  idle : Phase
  open_message : ℕ → Phase

pub data Step : Phase → PacketKind → ℕ → Phase → Type 0 where
  sole : (t : ℕ) → Step idle PacketKind.sole t idle
  first : (t : ℕ) → Step idle PacketKind.first t (open_message t)
  mid : (t : ℕ) → Step (open_message t) PacketKind.mid t (open_message t)
  last : (t : ℕ) → Step (open_message t) PacketKind.last t idle
  abort : (t : ℕ) → Step (open_message t) PacketKind.abort t idle

unfoldable pub phase : PacketReader → Phase
phase r = if r.in_progress then open_message r.msg_type else idle

-- A packet with a given header.
abbrev pub packet : PacketKind → ℕ → Bytes → Bytes
packet k t payload = to_be_bytes (pack_header k t) ++ payload

-- The reader decodes the header that was packed.
pub read-packet :
    (r : PacketReader) (k : PacketKind) (t : ℕ) (payload : Bytes)
    → t < 4096
    → read r (packet k t payload) ≡ read_kind r (ok k) t
unfolding read
read-packet r k t payload h =
    let (hi, lo, e, ek, et) = header_bytes k t payload h in rw e (rw (ek, et))

-- What the protocol says of a call: an accepted packet is a step of the protocol and is reported with
-- its kind and type; a refused packet is no step to any phase, and leaves the reader as it was.
abbrev pub Judged : PacketReader → PacketKind → ℕ → Read → Type 0
Judged r k t (ok h, r') = (h ≡ record { kind = k; msg_type = t }) × Step (phase r) k t (phase r')
Judged r k t (err e, r') = (r' ≡ r) × ((q : Phase) → ¬ Step (phase r) k t q)

abbrev at_fields : Bool → ℕ → PacketReader
at_fields b m = record { in_progress = b; msg_type = m }

not-Step-open : (m t : ℕ) (k : PacketKind) (q : Phase) → m ≢ t → ¬ Step (open_message m) k t q
not-Step-open m t k q ne (mid _) = ne refl
not-Step-open m t k q ne (last _) = ne refl
not-Step-open m t k q ne (abort _) = ne refl

read_kind-Judged :
    (b : Bool) (m : ℕ) (k : PacketKind) (t : ℕ)
    → Judged (at_fields b m) k t (read_kind (at_fields b m) (ok k) t)
unfolding read_kind phase
read_kind-Judged false m PacketKind.sole t = (refl, sole t)
read_kind-Judged false m PacketKind.first t = (refl, first t)
read_kind-Judged false m PacketKind.mid t = (refl, λ q s. elim s [ ])
read_kind-Judged false m PacketKind.last t = (refl, λ q s. elim s [ ])
read_kind-Judged false m PacketKind.abort t = (refl, λ q s. elim s [ ])
read_kind-Judged true m PacketKind.sole t = (refl, λ q s. elim s [ ])
read_kind-Judged true m PacketKind.first t = (refl, λ q s. elim s [ ])
read_kind-Judged true m PacketKind.mid t = elim (Bool-cases (m == t)) [
  | inl e ↦ rw e (
    refl,
    subst (λ x. Step (open_message m) PacketKind.mid x (open_message m)) ((==_iff m t).0 e) (mid m),
  )
  | inr e ↦ rw e (refl, λ q. not-Step-open m t _ q (ground arith))
]
read_kind-Judged true m PacketKind.last t = elim (Bool-cases (m == t)) [
  | inl e ↦
      rw e (
        refl,
        subst (λ x. Step (open_message m) PacketKind.last x idle) ((==_iff m t).0 e) (last m),
      )
  | inr e ↦ rw e (refl, λ q. not-Step-open m t _ q (ground arith))
]
read_kind-Judged true m PacketKind.abort t = elim (Bool-cases (m == t)) [
  | inl e ↦ rw e (
    refl,
    subst (λ x. Step (open_message m) PacketKind.abort x idle) ((==_iff m t).0 e) (abort m),
  )
  | inr e ↦ rw e (refl, λ q. not-Step-open m t _ q (ground arith))
]

-- For a packet with a header of a 12-bit type, the packet reader accepts it exactly when the
-- protocol has a step for its kind and type from the reader's phase, reports this kind and type
-- and moves to the phase of the step; a packet that it refuses is no step to any phase and leaves
-- it as it was.
pub read-refines :
    (r : PacketReader) (k : PacketKind) (t : ℕ) (payload : Bytes)
    → t < 4096
    → Judged r k t (read r (packet k t payload))
read-refines r k t payload h =
    rw (read-packet r k t payload h) (read_kind-Judged r.in_progress r.msg_type k t)
