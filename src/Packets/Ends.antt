-- ===== src/Packets/Ends.antt =====
-- The loop of `send_reader` of packets.rs ends.
use snowpack.Prelude.{
  false, ℕ, suc, zero, ◌-◌, ◌<◌, ◌≡◌, refl, ap, inl, inr, [], ◌∷◌, Bytes, Bool-cases, some, Result,
  ok, err, length, ◌==◌, arith,
}
use snowpack.External.Net.{Net, IsFinite}
use snowpack.PacketState.Header.{max_packet_size}
use snowpack.Packets.Error.{Error}
use snowpack.Packets.Exec.{continue}
use snowpack.Packets.Tx.{
  PacketTx, Loop, Out, make_room, progress, read_more, after_read, after_room, reader_loop,
  send_packet, send_reader,
}

module _ (x : Net) (fin : IsFinite x) where
  open fin use {left}

  -- A call has a result.
  abbrev pub Returned : Out x → Type 0
  Returned o = (r : Result (Unit {0}) (Error x) × PacketTx x) × (o ≡ some r)

  emptied-source :
      (l l' : Loop x) (r : Result (Unit {0}) (Error x)) (tx : PacketTx x)
      → (continue r (λ done s. (ok (record l { filled = [] }), s)) tx).0 ≡ ok l'
      → l'.source ≡ l.source
  emptied-source l l' (ok done) tx e = ground arith
  emptied-source l l' (err f) tx e = absurd cc

  make_room-source :
      (l l' : Loop x) (tx : PacketTx x) → (make_room x l tx).0 ≡ ok l' → l'.source ≡ l.source
  unfolding make_room
  make_room-source l l' tx e = elim (Bool-cases (max_packet_size - length l.filled == 0)) [
    | inl full ↦
        emptied-source l l' (send_packet x l.filled false tx).0 (send_packet x l.filled false tx).1
          (rw full at e)
    | inr room ↦ let kept : ok l ≡ ok l' = rw room at e in ground arith
  ]

  progress-Returned :
      (fuel : ℕ) (l : Loop x) (r : Result Bytes x.IoError) (source : x.Source) (tx : PacketTx x)
      → x.read l.source (max_packet_size - length l.filled) ≡ (r, source)
      → left l.source < suc fuel
      → ((l' : Loop x) → left l'.source < fuel → Returned (reader_loop x fuel l' tx))
      → Returned (after_read x (reader_loop x fuel) (progress x l (r, source)) tx)
  unfolding progress after_read
  progress-Returned fuel l (err f) source tx e h again = (_, refl)
  progress-Returned fuel l (ok []) source tx e h again = (_, refl)
  progress-Returned fuel l (ok (b ∷ bs)) source tx e h again =
      again _ (omega (arith, fin.read-less l.source _ b bs source e))

  after_room-Returned :
      (fuel : ℕ) (l : Loop x) (r : Result (Loop x) (Error x)) (tx : PacketTx x)
      → ((l' : Loop x) → r ≡ ok l' → l'.source ≡ l.source)
      → left l.source < suc fuel
      → ((l' : Loop x) → left l'.source < fuel → Returned (reader_loop x fuel l' tx))
      → Returned (after_room x (reader_loop x fuel) r tx)
  unfolding after_room read_more
  after_room-Returned fuel l (err f) tx same h again = (_, refl)
  after_room-Returned fuel l (ok l') tx same h again =
      let at = ap left (same l' refl) in
      progress-Returned fuel l' _ _ tx refl (omega (arith, at)) again

  reader_loop-Returned :
      (fuel : ℕ) (l : Loop x) (tx : PacketTx x)
      → left l.source < fuel
      → Returned (reader_loop x fuel l tx)
  unfolding reader_loop
  reader_loop-Returned zero l tx h = absurd (omega arith)
  reader_loop-Returned (suc fuel) l tx h =
      after_room-Returned fuel l (make_room x l tx).0 (make_room x l tx).1
        (λ l' e. make_room-source l l' tx e) h
        (λ l' less. reader_loop-Returned fuel l' (make_room x l tx).1 less)

  -- Over any stream and any cipher, with a source that ends, send_reader with more rounds than the
  -- source has bytes left returns a result.
  pub send_reader-Returned :
      (fuel : ℕ) (source : x.Source) (tx : PacketTx x)
      → left source < fuel
      → Returned (send_reader x fuel source tx)
  unfolding send_reader
  send_reader-Returned fuel source tx h = reader_loop-Returned fuel _ tx h
