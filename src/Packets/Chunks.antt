-- ===== src/Packets/Chunks.antt =====
-- The chunks of a slice, which `send_slice` of packets.rs sends one by one.
use snowpack.Prelude.{
  ℕ, zero, suc, ◌<◌, ◌≤◌, ◌≡◌, refl, ap, ◌∙◌, ◌++◌, [], ◌∷◌, List, Bytes, length, take, drop,
  take-append-drop, length-take, length-drop, arith,
}
use snowpack.PacketState.Header.{max_packet_size}
use snowpack.Packets.Tx.{chunks, chunks_loop}
use snowpack.Packets.Sending.{AllSmall}

abbrev pub concat : List Bytes → Bytes
concat [] = []
concat (c ∷ cs) = c ++ concat cs

concat-chunks_loop :
    (fuel size : ℕ) (bs : Bytes)
    → 0 < size
    → length bs ≤ fuel
    → concat (chunks_loop fuel size bs) ≡ bs
unfolding chunks_loop
concat-chunks_loop zero size [] h f = refl
concat-chunks_loop zero size (b ∷ bs) h f = absurd (omega arith)
concat-chunks_loop (suc fuel) size [] h f = refl
concat-chunks_loop (suc fuel) size (b ∷ bs) h f =
    ap (λ r. take size (b ∷ bs) ++ r)
      (concat-chunks_loop fuel size (drop size (b ∷ bs)) h
        (omega (arith, length-drop size (b ∷ bs))))
    ∙ take-append-drop size (b ∷ bs)

pub concat-chunks : (bs : Bytes) → concat (chunks max_packet_size bs) ≡ bs
unfolding chunks
concat-chunks bs = concat-chunks_loop (length bs) max_packet_size bs (omega arith) (omega arith)

AllSmall-chunks_loop : (fuel : ℕ) (bs : Bytes) → AllSmall (chunks_loop fuel max_packet_size bs)
unfolding chunks_loop
AllSmall-chunks_loop zero bs = tt
AllSmall-chunks_loop (suc fuel) [] = tt
AllSmall-chunks_loop (suc fuel) (b ∷ bs) = (
  omega (arith, length-take max_packet_size (b ∷ bs)),
  AllSmall-chunks_loop fuel (drop max_packet_size (b ∷ bs)),
)

pub AllSmall-chunks : (bs : Bytes) → AllSmall (chunks max_packet_size bs)
unfolding chunks
AllSmall-chunks bs = AllSmall-chunks_loop (length bs) bs

-- The payloads of the packets of a slice: its chunks, or one empty payload for an empty slice.
abbrev pub or_empty : List Bytes → List Bytes
or_empty [] = [] ∷ []
or_empty (c ∷ cs) = c ∷ cs

unfoldable pub payloads : Bytes → List Bytes
payloads bs = or_empty (chunks max_packet_size bs)

concat-or_empty : (cs : List Bytes) → concat (or_empty cs) ≡ concat cs
concat-or_empty [] = refl
concat-or_empty (c ∷ cs) = refl

pub concat-payloads : (bs : Bytes) → concat (payloads bs) ≡ bs
unfolding payloads
concat-payloads bs = concat-or_empty (chunks max_packet_size bs) ∙ concat-chunks bs

AllSmall-or_empty : (cs : List Bytes) → AllSmall cs → AllSmall (or_empty cs)
AllSmall-or_empty [] h = (omega arith, tt)
AllSmall-or_empty (c ∷ cs) h = h

pub AllSmall-payloads : (bs : Bytes) → AllSmall (payloads bs)
unfolding payloads
AllSmall-payloads bs = AllSmall-or_empty (chunks max_packet_size bs) (AllSmall-chunks bs)
