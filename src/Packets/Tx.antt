-- ===== src/Packets/Tx.antt =====
-- `PacketTx` of packets.rs: the sending half. Its `writer` holds the cipher that it shares with the
-- receiving half, as it is when the method is called.
use snowpack.Prelude.{
  ℕ, zero, suc, ◌-◌, ◌++◌, List, [], ◌∷◌, Bytes, Bool, true, false, not, ◌&&◌, Option, none, some,
  Result, ok, err, length, take, drop, ◌==◌, if◌then◌else◌,
}
use snowpack.External.Net.{Net}
use snowpack.PacketState.Header.{max_packet_size}
use snowpack.PacketState.Builder.{PacketBuilder, PacketBuildError, prepare, pack, abort}
use snowpack.Packets.Exec.{Exec, ◌>>◌, pure}
use snowpack.Packets.Error.{Error, io, packet_builder}
use snowpack.Packets.Frame.{Writer, write_packet}

-- `<[T]>::chunks` of a size that is not 0. Each round takes an element at least, so as many rounds as
-- there are elements are enough.
unfoldable pub chunks_loop : ℕ → ℕ → Bytes → List Bytes
chunks_loop zero size bs = []
chunks_loop (suc fuel) size [] = []
chunks_loop (suc fuel) size (b ∷ bs) =
    take size (b ∷ bs) ∷ chunks_loop fuel size (drop size (b ∷ bs))

unfoldable pub chunks : ℕ → Bytes → List Bytes
unfolding chunks_loop
chunks size bs = chunks_loop (length bs) size bs

module _ (x : Net) where
  pub record PacketTx : Type 0 where
    pub builder : PacketBuilder
    pub writer : Writer x

  abbrev pub Send : Type 0
  Send = Exec PacketTx (Error x) (Unit {0})

  unfoldable pub prepared : Result (Unit {0}) PacketBuildError → Result (Unit {0}) (Error x)
  prepared (ok done) = ok tt
  prepared (err e) = err (packet_builder e)

  unfoldable pub prepare_message : ℕ → Send
  unfolding prepared
  prepare_message msg_type tx =
      let (r, builder') = prepare tx.builder msg_type in
      (prepared r, record tx { builder = builder' })

  unfoldable pub write_out : Bytes → Send
  write_out plaintext tx =
      let (r, writer') = write_packet x plaintext tx.writer in (r, record tx { writer = writer' })

  unfoldable pub packed : Result Bytes PacketBuildError → Send
  unfolding write_out
  packed (ok plaintext) tx = write_out plaintext tx
  packed (err e) tx = (err (packet_builder e), tx)

  unfoldable pub send_packet : Bytes → Bool → Send
  unfolding packed
  send_packet payload is_last tx =
      let (r, builder') = pack tx.builder payload is_last in
      packed r (record tx { builder = builder' })

  -- The loop over the peekable chunks.
  unfoldable pub send_chunks : List Bytes → Bool → Send
  send_chunks [] last_slice = pure tt
  send_chunks (chunk ∷ []) last_slice = do send_packet chunk (true && last_slice); pure tt
  send_chunks (chunk ∷ next ∷ rest) last_slice = do
    send_packet chunk (false && last_slice)
    send_chunks (next ∷ rest) last_slice

  -- `chunks.peek().is_none()` on the fresh iterator.
  unfoldable pub send_slice_chunks : List Bytes → Bool → Send
  unfolding send_chunks
  send_slice_chunks [] last_slice = send_packet [] last_slice
  send_slice_chunks (chunk ∷ rest) last_slice = send_chunks (chunk ∷ rest) last_slice

  unfoldable pub send_slice : Bytes → Bool → Send
  unfolding send_slice_chunks
  send_slice slice last_slice = send_slice_chunks (chunks max_packet_size slice) last_slice

  unfoldable pub abort_packet : Option Bytes → Send
  unfolding write_out
  abort_packet none tx = (ok tt, tx)
  abort_packet (some plaintext) tx = write_out plaintext tx

  unfoldable pub abort_message : Send
  unfolding abort_packet
  abort_message tx =
      let (r, builder') = abort tx.builder in abort_packet r (record tx { builder = builder' })

-- `send_reader`. `none` means that the rounds ran out: each round but the last takes a byte from the
-- source, so one more than it holds is enough.
module _ (x : Net) where
  -- The filled part of the buffer, the source, and whether anything was read.
  pub record Loop : Type 0 where
    pub filled : Bytes
    pub source : x.Source
    pub sent_any : Bool

  unfoldable pub finish : Loop → Send x
  finish l =
      if not (length l.filled == 0)
      then send_packet x l.filled true
      else if not l.sent_any
      then send_packet x [] true
      else pure tt

  -- A full buffer is sent before the next read.
  unfoldable pub make_room : Loop → Exec (PacketTx x) (Error x) Loop
  make_room l =
      if max_packet_size - length l.filled == 0
      then (do send_packet x l.filled false; pure (record l { filled = [] }))
      else pure l

  -- What the read gave: the end, or more bytes.
  pub data Progress : Type 0 where
    failed : x.IoError → Progress
    ended : Loop → Progress
    more : Loop → Progress

  unfoldable pub progress : Loop → Result Bytes x.IoError × x.Source → Progress
  progress l (err e, source) = failed e
  progress l (ok [], source) = ended (record l { source = source })
  progress l (ok (b ∷ bs), source) =
      more (record { filled = l.filled ++ b ∷ bs; source = source; sent_any = true })

  unfoldable pub read_more : Loop → Progress
  unfolding progress
  read_more l = progress l (x.read l.source (max_packet_size - length l.filled))

  abbrev pub Out : Type 0
  Out = Option (Result (Unit {0}) (Error x) × PacketTx x)

  unfoldable pub after_read : (Loop → PacketTx x → Out) → Progress → PacketTx x → Out
  unfolding finish
  after_read again (failed e) tx = some (err (io e), tx)
  after_read again (ended l) tx = some (finish l tx)
  after_read again (more l) tx = again l tx

  unfoldable pub after_room : (Loop → PacketTx x → Out) → Result Loop (Error x) → PacketTx x → Out
  unfolding read_more after_read
  after_room again (err e) tx = some (err e, tx)
  after_room again (ok l) tx = after_read again (read_more l) tx

  unfoldable pub reader_loop : ℕ → Loop → PacketTx x → Out
  unfolding make_room after_room
  reader_loop zero l tx = none
  reader_loop (suc fuel) l tx = let (r, tx') = make_room l tx in after_room (reader_loop fuel) r tx'

  unfoldable pub send_reader : ℕ → x.Source → PacketTx x → Out
  unfolding reader_loop
  send_reader fuel source tx =
      reader_loop fuel (record { filled = []; source = source; sent_any = false }) tx
