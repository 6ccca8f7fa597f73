-- ===== src/PacketState/Word.antt =====
-- The 16-bit headers of packet_state.rs: which numbers are headers, and of which kind and type.
use std.Equiv.{IsEquiv, Iso, iso_to_equiv}
use std.HLevel.{Σ_prop_path}
use native.Mathlib.Bridge.{le_prop}
use snowpack.Prelude.{ℕ, ◌/◌, ◌%◌, ◌<◌, ◌≡◌, refl, ap, ◌∙◌, ok, arith}
use snowpack.PacketState.Header.{
  PacketKind, PacketHeader, discriminant, from_u8, header_kind, header_type, pack_header,
}
use snowpack.PacketState.Bits.{
  header_kind-pack_header, header_type-pack_header, pack_header-add, discriminant-lt,
  from_u8-discriminant,
}
use snowpack.PacketState.Wire.{kind_at, pack_header-kind_at}

-- Headers of a 12-bit type, and the numbers below five times 2 ^ 12.
abbrev TypedHeader : Type 0
TypedHeader = (h : PacketHeader) × (h.msg_type < 4096)

abbrev HeaderWord : Type 0
HeaderWord = (w : ℕ) × (w < 20480)

pack_header-small : (k : PacketKind) (t : ℕ) → t < 4096 → pack_header k t < 20480
pack_header-small k t h = omega (arith, pack_header-add k t h, discriminant-lt k)

abbrev to_word : TypedHeader → HeaderWord
to_word (h, small) = (pack_header h.kind h.msg_type, pack_header-small h.kind h.msg_type small)

mod-small : (w : ℕ) → w % 4096 < 4096
mod-small w = omega arith

abbrev of_word : HeaderWord → TypedHeader
of_word (w, below) = (record { kind = kind_at (w / 4096); msg_type = w % 4096 }, mod-small w)

kind_at-discriminant : (k : PacketKind) → kind_at (discriminant k) ≡ k
unfolding kind_at discriminant
kind_at-discriminant PacketKind.sole = refl
kind_at-discriminant _ = refl

of_word-to_word : (h : TypedHeader) → of_word (to_word h) ≡ h
of_word-to_word (h, small) =
    let n = pack_header h.kind h.msg_type in
    let add = pack_header-add h.kind h.msg_type small in
    let up : n / 4096 ≡ discriminant h.kind = omega (arith, add, small) in
    let low : n % 4096 ≡ h.msg_type = omega (arith, add, small) in
    Σ_prop_path (λ x. le_prop) (rw (up, low, kind_at-discriminant h.kind) refl)

to_word-of_word : (w : HeaderWord) → to_word (of_word w) ≡ w
to_word-of_word (w, below) = Σ_prop_path (λ x. le_prop) (pack_header-kind_at w (omega arith))

abbrev words : Iso TypedHeader HeaderWord
words = record { fun = to_word; inv = of_word; rinv = to_word-of_word; linv = of_word-to_word }

-- Packing is an equivalence between the headers of a 12-bit type and the numbers below 20,480, so
-- that every such number is the packed header of exactly one kind and type; and from each packed
-- header the reader takes the kind and the type that were packed.
to_word-IsEquiv :
    IsEquiv to_word
    × ((h : TypedHeader)
        → (from_u8 (header_kind (to_word h).0) ≡ ok h.0.kind)
          × (header_type (to_word h).0 ≡ h.0.msg_type))
to_word-IsEquiv = (
  (iso_to_equiv words).1,
  λ h. (
    ap from_u8 (header_kind-pack_header h.0.kind h.0.msg_type h.1) ∙ from_u8-discriminant h.0.kind,
    header_type-pack_header h.0.kind h.0.msg_type h.1,
  ),
)
