-- ===== src/NodeId/Laws.antt =====
-- Which byte strings are node ids, and that integers keep apart (node_id.rs).
use snowpack.Prelude.{
  ℕ, zero, suc, ◌^◌, ◌*◌, ◌+◌, ◌<◌, ◌≤◌, ◌≡◌, ◌≢◌, ◌⊎◌, refl, ap, sym, ◌∙◌, [], ◌∷◌, Bytes, ok, err,
  length, arith,
}
use snowpack.NodeId.{
  NodeId, max_node_id_len, try_from_bytes, be_bytes, from_u64, from_u32, too_long, as_bytes,
}

-- Exactly the byte strings of at most 512 bytes are accepted as node ids, unchanged, and the
-- others are refused with their length.
pub try_from_bytes_lem :
    (bytes : Bytes)
    → ((length bytes ≤ max_node_id_len) × (try_from_bytes bytes ≡ ok (record { bytes = bytes })))
      ⊎ ((max_node_id_len < length bytes) × (try_from_bytes bytes ≡ err (too_long (length bytes))))
unfolding try_from_bytes
try_from_bytes_lem bytes = ground arith

pub length-be_bytes : (n v : ℕ) → length (be_bytes n v) ≡ n
unfolding be_bytes
length-be_bytes zero v = refl
length-be_bytes (suc n) v = ap suc (length-be_bytes n v)

-- The number that big-endian bytes stand for.
unfoldable pub be_value : ℕ → Bytes → ℕ
be_value acc [] = acc
be_value acc (b ∷ bs) = be_value (acc * 256 + b) bs

-- Big-endian bytes determine a number of that width.
u32_value : (v : ℕ) → v < 2 ^ 32 → be_value 0 (be_bytes 4 v) ≡ v
unfolding be_value be_bytes
u32_value v h = omega arith

u64_value : (v : ℕ) → v < 2 ^ 64 → be_value 0 (be_bytes 8 v) ≡ v
unfolding be_value be_bytes
u64_value v h = omega arith

accepted : (n v : ℕ) → n ≤ 8 → try_from_bytes (be_bytes n v) ≡ ok (record { bytes = be_bytes n v })
unfolding try_from_bytes
accepted n v h = ground (arith, length-be_bytes n v)

-- The integers that convert into a node id, `From<u32>` and `From<u64>`.
pub data IntId : Type 0 where
  u32 : ℕ → IntId
  u64 : ℕ → IntId

abbrev pub InRange : IntId → Type 0
InRange (u32 v) = v < 2 ^ 32
InRange (u64 v) = v < 2 ^ 64

unfoldable pub into : IntId → NodeId
unfolding from_u32 from_u64
into (u32 v) = from_u32 v
into (u64 v) = from_u64 v

width : (n m v w : ℕ) → n ≢ m → be_bytes n v ≢ be_bytes m w
width n m v w ne e = ne (omega (arith, length-be_bytes n v, length-be_bytes m w, ap length e))

-- Integers of 32 or 64 bits give the same node id only if they are the same integer of the same
-- width, and every such node id is one that try_from_bytes accepts.
pub into-injective :
    (a b : IntId)
    → InRange a
    → InRange b
    → (into a ≡ into b → a ≡ b) × (try_from_bytes (as_bytes (into a)) ≡ ok (into a))
unfolding into
into-injective (u32 v) (u32 w) ha hb = (
  λ e. ap u32 (sym (u32_value v ha) ∙ ap (be_value 0) (ap (λ id. id.bytes) e) ∙ u32_value w hb),
  accepted 4 v (omega arith),
)
into-injective (u64 v) (u64 w) ha hb = (
  λ e. ap u64 (sym (u64_value v ha) ∙ ap (be_value 0) (ap (λ id. id.bytes) e) ∙ u64_value w hb),
  accepted 8 v (omega arith),
)
into-injective (u32 v) (u64 w) ha hb =
    (λ e. absurd (width 4 8 v w (omega arith) (ap (λ id. id.bytes) e)), accepted 4 v (omega arith))
into-injective (u64 v) (u32 w) ha hb =
    (λ e. absurd (width 8 4 v w (omega arith) (ap (λ id. id.bytes) e)), accepted 8 v (omega arith))
