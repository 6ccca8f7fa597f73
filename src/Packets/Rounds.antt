-- ===== src/Packets/Rounds.antt =====
-- The packets that the loop of `send_reader` of packets.rs makes of what it reads.
use snowpack.Prelude.{
  ℕ, zero, suc, ◌%◌, ◌<◌, ◌≤◌, ◌≡◌, refl, ap, ◌∙◌, sym, ◌++◌, [], ◌∷◌, List, Bytes, Bool, true,
  false, not, ◌&&◌, length, take, drop, ◌==◌, if◌then◌else◌, append-nil, length-append, length-drop,
  take-append_of_length, drop-append_of_length, arith,
}
use snowpack.PacketState.Header.{max_packet_size}
use snowpack.PacketState.Builder.{packet_kind}
use snowpack.PacketState.Protocol.{packet}
use snowpack.Packets.Tx.{chunks, chunks_loop}
use snowpack.Packets.Sending.{message_packets}
use snowpack.Packets.Chunks.{payloads, or_empty}

-- Whether the last packet closes the message: not when the data fill every packet.
unfoldable pub closes : Bytes → Bool
closes bs = if length bs == 0 then true else not (length bs % max_packet_size == 0)

-- What is still to send of these data.
unfoldable pub streamed : (is_first sent_any : Bool) → ℕ → Bytes → List Bytes
streamed f any t bs =
    if any && (length bs == 0) then [] else message_packets f (closes bs) t (payloads bs)

unfoldable pub still_open : Bool → Bytes → Bool
still_open any bs = if any && (length bs == 0) then true else not (closes bs)

take_all : (n : ℕ) (bs : Bytes) → length bs ≤ n → take n bs ≡ bs
take_all zero [] h = refl
take_all zero (b ∷ bs) h = absurd (omega arith)
take_all (suc n) [] h = refl
take_all (suc n) (b ∷ bs) h = ap (λ r. b ∷ r) (take_all n bs (omega arith))

drop_all : (n : ℕ) (bs : Bytes) → length bs ≤ n → drop n bs ≡ []
drop_all zero [] h = refl
drop_all zero (b ∷ bs) h = absurd (omega arith)
drop_all (suc n) [] h = refl
drop_all (suc n) (b ∷ bs) h = drop_all n bs (omega arith)

chunks_loop-nil : (fuel size : ℕ) → chunks_loop fuel size [] ≡ []
unfolding chunks_loop
chunks_loop-nil zero size = refl
chunks_loop-nil (suc fuel) size = refl

chunks_loop_rounds :
    (n m size : ℕ) (bs : Bytes)
    → 0 < size
    → length bs ≤ n
    → length bs ≤ m
    → chunks_loop n size bs ≡ chunks_loop m size bs
unfolding chunks_loop
chunks_loop_rounds n m size [] h p q = chunks_loop-nil n size ∙ sym (chunks_loop-nil m size)
chunks_loop_rounds zero m size (b ∷ bs) h p q = absurd (omega arith)
chunks_loop_rounds (suc n) zero size (b ∷ bs) h p q = absurd (omega arith)
chunks_loop_rounds (suc n) (suc m) size (b ∷ bs) h p q =
    let fewer = length-drop size (b ∷ bs) in
    ap (λ r. take size (b ∷ bs) ∷ r)
      (chunks_loop_rounds n m size (drop size (b ∷ bs)) h (omega (arith, fewer))
        (omega (arith, fewer)))

chunks_loop-append :
    (size : ℕ) (c bs : Bytes)
    → 0 < size
    → length c ≡ size
    → chunks_loop (length (c ++ bs)) size (c ++ bs) ≡ c ∷ chunks_loop (length bs) size bs
unfolding chunks_loop
chunks_loop-append size [] bs h e = absurd (omega arith)
chunks_loop-append size (b ∷ c) bs h e =
    let longer = length-append c bs in
    rw (take-append_of_length size (b ∷ c) bs e, drop-append_of_length size (b ∷ c) bs e)
      (ap (λ r. (b ∷ c) ∷ r)
        (chunks_loop_rounds (length (c ++ bs)) (length bs) size bs h (omega (arith, longer))
          (omega arith)))

chunks_loop_short :
    (size : ℕ) (c : Bytes) → 0 < length c → length c ≤ size → chunks_loop (length c) size c ≡ c ∷ []
unfolding chunks_loop
chunks_loop_short size [] h p = absurd (omega arith)
chunks_loop_short size (b ∷ c) h p =
    rw (take_all size (b ∷ c) p, drop_all size (b ∷ c) p)
      (ap (λ r. (b ∷ c) ∷ r) (chunks_loop-nil (length c) size))

-- A full buffer in front is the first chunk, and data that fit a packet are the only one.
chunks-append :
    (c bs : Bytes)
    → length c ≡ max_packet_size
    → chunks max_packet_size (c ++ bs) ≡ c ∷ chunks max_packet_size bs
unfolding chunks
chunks-append c bs h = chunks_loop-append max_packet_size c bs (omega arith) h

chunks_short :
    (c : Bytes) → 0 < length c → length c ≤ max_packet_size → chunks max_packet_size c ≡ c ∷ []
unfolding chunks
chunks_short c h p = chunks_loop_short max_packet_size c h p

chunks_loop-cons :
    (size : ℕ) (bs : Bytes)
    → 0 < length bs
    → (d : Bytes) × (ds : List Bytes) × (chunks_loop (length bs) size bs ≡ d ∷ ds)
unfolding chunks_loop
chunks_loop-cons size [] h = absurd (omega arith)
chunks_loop-cons size (b ∷ bs) h = (_, _, refl)

chunks_cons :
    (bs : Bytes)
    → 0 < length bs
    → (d : Bytes) × (ds : List Bytes) × (chunks max_packet_size bs ≡ d ∷ ds)
unfolding chunks
chunks_cons bs h = chunks_loop-cons max_packet_size bs h

pub payloads_short : (c : Bytes) → 0 < length c → length c ≤ max_packet_size → payloads c ≡ c ∷ []
unfolding payloads
payloads_short c h p = rw (chunks_short c h p)

closes-full : (c : Bytes) → length c ≡ max_packet_size → closes c ≡ false
unfolding closes
closes-full c h = ground arith

closes-append :
    (c bs : Bytes) → length c ≡ max_packet_size → 0 < length bs → closes (c ++ bs) ≡ closes bs
unfolding closes
closes-append c bs h p = ground (arith, length-append c bs)

closes_short : (c : Bytes) → 0 < length c → length c < max_packet_size → closes c ≡ true
unfolding closes
closes_short c p h = ground arith

streamed_some :
    (f any : Bool) (t : ℕ) (bs : Bytes)
    → 0 < length bs
    → streamed f any t bs ≡ message_packets f (closes bs) t (payloads bs)
unfolding streamed
streamed_some f any t bs h =
    let filled : any && (length bs == 0) ≡ false = ground arith in rw filled

-- The same data, with and without the mark that something was read.
pub streamed-any :
    (f any : Bool) (t : ℕ) (bs : Bytes) → 0 < length bs → streamed f any t bs ≡ streamed f true t bs
streamed-any f any t bs h = streamed_some f any t bs h ∙ sym (streamed_some f true t bs h)

pub still_open-any :
    (any : Bool) (bs : Bytes) → 0 < length bs → still_open any bs ≡ still_open true bs
unfolding still_open
still_open-any any bs h = ground arith

more_packets :
    (f l : Bool) (t : ℕ) (c : Bytes) (cs : List Bytes) (d : Bytes) (ds : List Bytes)
    → cs ≡ d ∷ ds
    → message_packets f l t (c ∷ cs)
      ≡ packet (packet_kind f false) t c ∷ message_packets false l t (or_empty cs)
unfolding message_packets
more_packets f l t c cs d ds e = rw e

payloads-append :
    (c bs : Bytes) → length c ≡ max_packet_size → payloads (c ++ bs) ≡ c ∷ chunks max_packet_size bs
unfolding payloads
payloads-append c bs h = rw (chunks-append c bs h)

-- A full buffer goes out as a packet that does not close the message.
pub streamed-full :
    (f : Bool) (t : ℕ) (c bs : Bytes)
    → length c ≡ max_packet_size
    → streamed f true t (c ++ bs) ≡ packet (packet_kind f false) t c ∷ streamed false true t bs
unfolding streamed message_packets payloads
streamed-full f t c [] h = rw (append-nil c) (
    streamed_some f true t c (omega arith)
    ∙ rw (closes-full c h, payloads_short c (omega arith) (omega arith)))
streamed-full f t c (b ∷ bs) h =
    let some_bs : 0 < length (b ∷ bs) = omega arith in
    let (d, ds, e) = chunks_cons (b ∷ bs) some_bs in
    streamed_some f true t (c ++ b ∷ bs) (omega (arith, length-append c (b ∷ bs)))
    ∙ rw (closes-append c (b ∷ bs) h some_bs, payloads-append c (b ∷ bs) h)
        (more_packets f (closes (b ∷ bs)) t c (chunks max_packet_size (b ∷ bs)) d ds e
          ∙ ap (λ r. packet (packet_kind f false) t c ∷ r)
              (sym (streamed_some false true t (b ∷ bs) some_bs)))

pub still_open-full :
    (c bs : Bytes) → length c ≡ max_packet_size → still_open true (c ++ bs) ≡ still_open true bs
unfolding still_open closes
still_open-full c bs h = ground (arith, length-append c bs)

-- The end of the data, with less than a full buffer.
pub streamed-end :
    (f any : Bool) (t : ℕ) (c : Bytes)
    → length c < max_packet_size
    → 0 < length c
    → streamed f any t c ≡ packet (packet_kind f true) t c ∷ []
unfolding message_packets
streamed-end f any t c h p =
    streamed_some f any t c p ∙ rw (closes_short c p h, payloads_short c p (omega arith))

pub still_open-end :
    (any : Bool) (c : Bytes) → length c < max_packet_size → 0 < length c → still_open any c ≡ false
unfolding still_open closes
still_open-end any c h p = ground arith
