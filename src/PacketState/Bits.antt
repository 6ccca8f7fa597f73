-- ===== src/PacketState/Bits.antt =====
-- The bit operations of the packet header of packet_state.rs, as arithmetic.
use snowpack.Prelude.{
  ℕ, ◌+◌, ◌*◌, ◌/◌, ◌%◌, ◌^◌, ◌<◌, ◌≡◌, refl, Bool, true, ◌&&◌, bit_and, bit_or, ◌==◌, ==_iff,
  arith, full_table, full_table-entry, Bytes, ◌∷◌, ◌++◌, ok,
}
use snowpack.PacketState.Header.{
  PacketKind, discriminant, pack_header, header_kind, header_type, from_u8, to_be_bytes,
  from_be_bytes, kind_mask, type_mask, kind_shift,
}

mask_test : ℕ → Bool
mask_test h =
    (bit_and h kind_mask / 2 ^ kind_shift % 256 == h / 4096) && (bit_and h type_mask == h % 4096)

mask_table : full_table mask_test 65536 ≡ true
unfolding full_table mask_test
mask_table = refl

join_test : ℕ → ℕ → Bool
join_test k t = bit_or (k * 2 ^ kind_shift % 2 ^ 16) t == k * 4096 + t

join_table : full_table (λ k. full_table (join_test k) 4096) 5 ≡ true
unfolding full_table join_test
join_table = refl

header_fields : (h : ℕ) → h < 65536 → mask_test h ≡ true
header_fields h p = full_table-entry mask_test 65536 h p mask_table

pub header_kind-div : (h : ℕ) → h < 65536 → header_kind h ≡ h / 4096
unfolding header_kind mask_test
header_kind-div h p = ground (arith, header_fields h p)

pub header_type-mod : (h : ℕ) → h < 65536 → header_type h ≡ h % 4096
unfolding header_type mask_test
header_type-mod h p = ground (arith, header_fields h p)

pub discriminant-lt : (k : PacketKind) → discriminant k < 5
unfolding discriminant
discriminant-lt PacketKind.sole = omega arith
discriminant-lt _ = omega arith

join-add : (k t : ℕ) → k < 5 → t < 4096 → join_test k t ≡ true
join-add k t hk ht =
    full_table-entry (join_test k) 4096 t ht
      (full_table-entry (λ n. full_table (join_test n) 4096) 5 k hk join_table)

pub pack_header-add :
    (k : PacketKind) (t : ℕ) → t < 4096 → pack_header k t ≡ discriminant k * 4096 + t
unfolding pack_header join_test
pack_header-add k t h = (==_iff _ _).0 (join-add (discriminant k) t (discriminant-lt k) h)

pub pack_header-lt : (k : PacketKind) (t : ℕ) → t < 4096 → pack_header k t < 65536
pack_header-lt k t h = omega (arith, pack_header-add k t h, discriminant-lt k)

-- The kind and the type of a packed header are the ones that went in.
pub header_kind-pack_header :
    (k : PacketKind) (t : ℕ) → t < 4096 → header_kind (pack_header k t) ≡ discriminant k
header_kind-pack_header k t h = omega (
  arith,
  header_kind-div (pack_header k t) (pack_header-lt k t h),
  pack_header-add k t h,
  discriminant-lt k,
)

pub header_type-pack_header :
    (k : PacketKind) (t : ℕ) → t < 4096 → header_type (pack_header k t) ≡ t
header_type-pack_header k t h = omega (
  arith,
  header_type-mod (pack_header k t) (pack_header-lt k t h),
  pack_header-add k t h,
  discriminant-lt k,
)

pub from_u8-discriminant : (k : PacketKind) → from_u8 (discriminant k) ≡ ok k
unfolding from_u8 discriminant
from_u8-discriminant PacketKind.sole = refl
from_u8-discriminant _ = refl

-- The two bytes of a 16-bit number give it back.
pub from_be_bytes-to_be_bytes : (n : ℕ) → n < 65536 → from_be_bytes (n / 256 % 256) (n % 256) ≡ n
unfolding from_be_bytes
from_be_bytes-to_be_bytes n h = omega arith

-- The reader's view of a packet that the builder wrote.
pub header_bytes :
    (k : PacketKind) (t : ℕ) (payload : Bytes)
    → t < 4096
    → (hi lo : ℕ) × (to_be_bytes (pack_header k t) ++ payload ≡ hi ∷ lo ∷ payload)
      × (from_u8 (header_kind (from_be_bytes hi lo)) ≡ ok k)
      × (header_type (from_be_bytes hi lo) ≡ t)
unfolding to_be_bytes
header_bytes k t payload h =
    let n = pack_header k t in
    let back = from_be_bytes-to_be_bytes n (pack_header-lt k t h) in
    (
      n / 256 % 256,
      n % 256,
      refl,
      rw back (rw (header_kind-pack_header k t h) (from_u8-discriminant k)),
      rw back (header_type-pack_header k t h),
    )
