-- ===== src/PacketState/Wire.antt =====
-- What `PacketReader::read` of packet_state.rs makes of any bytes, packed by a `PacketBuilder` or not.
use snowpack.Prelude.{
  ℕ, ◌+◌, ◌*◌, ◌/◌, ◌%◌, ◌<◌, ◌≤◌, ◌≡◌, ◌⊎◌, inl, inr, refl, sym, subst, ltb, Bool-cases, ◌==◌,
  if◌then◌else◌, ◌∙◌, [], ◌∷◌, Bytes, IsBytes, err, length, arith,
}
use snowpack.PacketState.Header.{
  PacketKind, discriminant, from_u8, to_be_bytes, from_be_bytes, pack_header, packet_too_short,
  unknown_kind,
}
use snowpack.PacketState.Bits.{header_kind-div, pack_header-add}
use snowpack.PacketState.Reader.{PacketReader, read, read_kind}
use snowpack.PacketState.Protocol.{Judged, packet, read-refines}

-- The kind of a number below 5.
unfoldable pub kind_at : ℕ → PacketKind
kind_at n =
    if n == 0
    then PacketKind.sole
    else if n == 1
    then PacketKind.first
    else if n == 2
    then PacketKind.mid
    else if n == 3
    then PacketKind.last
    else PacketKind.abort

pub discriminant-kind_at : (n : ℕ) → n < 5 → discriminant (kind_at n) ≡ n
unfolding discriminant kind_at
discriminant-kind_at n h = ground arith

pub from_u8-unknown : (n : ℕ) → 5 ≤ n → from_u8 n ≡ err (unknown_kind n)
unfolding from_u8
from_u8-unknown n h = ground arith

-- The number that two bytes are.
word : (hi lo : ℕ) → hi < 256 → lo < 256 → from_be_bytes hi lo < 65536
unfolding from_be_bytes
word hi lo a b = omega arith

nibble : (hi lo : ℕ) → lo < 256 → from_be_bytes hi lo / 4096 ≡ hi / 16
unfolding from_be_bytes
nibble hi lo b = omega arith

to_be_bytes-from_be_bytes :
    (hi lo : ℕ) → hi < 256 → lo < 256 → to_be_bytes (from_be_bytes hi lo) ≡ hi ∷ lo ∷ []
unfolding to_be_bytes from_be_bytes
to_be_bytes-from_be_bytes hi lo a b =
    let high : (hi * 256 + lo) / 256 % 256 ≡ hi = omega arith in
    let low : (hi * 256 + lo) % 256 ≡ lo = omega arith in rw (high, low) refl

-- A number whose upper four bits are a kind is a header.
pub pack_header-kind_at : (n : ℕ) → n / 4096 < 5 → pack_header (kind_at (n / 4096)) (n % 4096) ≡ n
pack_header-kind_at n h = omega (
  arith,
  pack_header-add (kind_at (n / 4096)) (n % 4096) (omega arith),
  discriminant-kind_at (n / 4096) h,
)

-- Too short, of no kind, or a packet with a header of a 12-bit type.
abbrev pub Told : PacketReader → Bytes → Type 0
Told r raw =
    ((length raw < 2) × (read r raw ≡ (err packet_too_short, r)))
    ⊎ ((hi : ℕ) × (rest : Bytes) × (raw ≡ hi ∷ rest)
        × (5 ≤ hi / 16)
        × (read r raw ≡ (err (unknown_kind (hi / 16)), r)))
    ⊎ ((k : PacketKind) × (t : ℕ) × (payload : Bytes) × (raw ≡ packet k t payload)
        × (t < 4096)
        × Judged r k t (read r raw))

read-of_no_kind :
    (r : PacketReader) (hi lo : ℕ) (payload : Bytes)
    → hi < 256
    → lo < 256
    → 5 ≤ hi / 16
    → read r (hi ∷ lo ∷ payload) ≡ (err (unknown_kind (hi / 16)), r)
unfolding read read_kind
read-of_no_kind r hi lo payload a b h =
    let e = header_kind-div (from_be_bytes hi lo) (word hi lo a b) ∙ nibble hi lo b in
    rw (e, from_u8-unknown (hi / 16) h) refl

read-of_kind :
    (r : PacketReader) (hi lo : ℕ) (payload : Bytes)
    → hi < 256
    → lo < 256
    → hi / 16 < 5
    → (k : PacketKind) × (t : ℕ) × (rest : Bytes) × (hi ∷ lo ∷ payload ≡ packet k t rest)
      × (t < 4096)
      × Judged r k t (read r (hi ∷ lo ∷ payload))
read-of_kind r hi lo payload a b h =
    let n = from_be_bytes hi lo in
    let k = kind_at (n / 4096) in
    let t = n % 4096 in
    let small : t < 4096 = omega arith in
    let e : packet k t payload ≡ hi ∷ lo ∷ payload =
      rw
        (pack_header-kind_at n (omega (arith, nibble hi lo b)), to_be_bytes-from_be_bytes hi lo a b)
        refl in
    (
      k,
      t,
      payload,
      sym e,
      small,
      subst (λ raw. Judged r k t (read r raw)) e (read-refines r k t payload small),
    )

-- Whatever bytes the packet reader is given, and in whatever state, it refuses fewer than two as
-- too short, refuses a first byte whose upper four bits are no kind with this number, and leaves
-- its state as it was in both cases; all other bytes are the packet of a kind, a 12-bit type and a
-- payload, which it accepts exactly when the protocol has a step for this kind and type from the
-- reader's phase, reports them and moves to the phase of the step; one that it refuses is no step
-- to any phase and leaves its state as it was.
pub read-Told : (r : PacketReader) (raw : Bytes) → IsBytes raw → Told r raw
unfolding read
read-Told r [] h = inl (omega arith, refl)
read-Told r (hi ∷ []) h = inl (omega arith, refl)
read-Told r (hi ∷ lo ∷ payload) (a, (b, rest)) = elim (Bool-cases (ltb (hi / 16) 5)) [
  | inl e ↦ inr (inr (read-of_kind r hi lo payload a b (ground (arith, e))))
  | inr e ↦
      let unknown : 5 ≤ hi / 16 = ground (arith, e) in
      inr (inl (hi, lo ∷ payload, refl, unknown, read-of_no_kind r hi lo payload a b unknown))
]
