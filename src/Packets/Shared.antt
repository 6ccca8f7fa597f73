-- ===== src/Packets/Shared.antt =====
-- The two halves of packets.rs around the transport state that they share behind a lock. The lock is
-- held while one packet is encrypted or decrypted.
pub mod Local
pub mod Apart
use snowpack.Prelude.{ℕ, List, [], ◌∷◌, Bytes, Bool, Result, ok, err}
use snowpack.External.Net.{Net}
use snowpack.PacketState.Header.{PacketHeader}
use snowpack.Packets.Error.{Error}
use snowpack.Packets.Tx.{PacketTx, Send, prepare_message, send_packet, abort_message}
use snowpack.Packets.Rx.{PacketRx, read_packet, payload}

module _ (x : Net) where
  abbrev pub with_tx : x.Cipher → PacketTx x → PacketTx x
  with_tx c tx = record tx { writer = record tx.writer { cipher = c } }

  abbrev pub with_rx : x.Cipher → PacketRx x → PacketRx x
  with_rx c rx = record rx { cipher = c }

  pub record Endpoint : Type 0 where
    pub tx : PacketTx x
    pub rx : PacketRx x

  -- What the owners of the halves do, packet by packet.
  pub data Event : Type 0 where
    prepares : ℕ → Event
    sends : (payload : Bytes) (last : Bool) → Event
    aborts : Event
    reads : Event

  -- What a call returned, with the payload behind a read.
  pub data Answer : Type 0 where
    sent : Result (Unit {0}) (Error x) → Answer
    got : Result (PacketHeader × Bytes) (Error x) → Answer

  unfoldable pub with_payload :
      Result PacketHeader (Error x) → PacketRx x → Result (PacketHeader × Bytes) (Error x)
  with_payload (err e) rx = err e
  with_payload (ok header) rx = ok (header, payload x rx)

  -- A call on one half leaves the shared state to the other.
  unfoldable pub shared_tx : Send x → Endpoint → Answer × Endpoint
  shared_tx m ep =
      let (r, tx') = m ep.tx in (sent r, record { tx = tx'; rx = with_rx tx'.writer.cipher ep.rx })

  unfoldable pub shared_rx : Endpoint → Answer × Endpoint
  shared_rx ep =
      let (r, rx') = read_packet x ep.rx in
      (got (with_payload r rx'), record { tx = with_tx rx'.cipher ep.tx; rx = rx' })

  unfoldable pub shared : Event → Endpoint → Answer × Endpoint
  unfolding shared_tx shared_rx
  shared (prepares t) ep = shared_tx (prepare_message x t) ep
  shared (sends payload last) ep = shared_tx (send_packet x payload last) ep
  shared aborts ep = shared_tx (abort_message x) ep
  shared reads ep = shared_rx ep

  -- Each half with a state of its own.
  unfoldable pub apart_tx : Send x → Endpoint → Answer × Endpoint
  apart_tx m ep = let (r, tx') = m ep.tx in (sent r, record ep { tx = tx' })

  unfoldable pub apart_rx : Endpoint → Answer × Endpoint
  apart_rx ep =
      let (r, rx') = read_packet x ep.rx in (got (with_payload r rx'), record ep { rx = rx' })

  unfoldable pub apart : Event → Endpoint → Answer × Endpoint
  unfolding apart_tx apart_rx
  apart (prepares t) ep = apart_tx (prepare_message x t) ep
  apart (sends payload last) ep = apart_tx (send_packet x payload last) ep
  apart aborts ep = apart_tx (abort_message x) ep
  apart reads ep = apart_rx ep

  unfoldable pub run_all :
      (Event → Endpoint → Answer × Endpoint) → List Event → Endpoint → List Answer × Endpoint
  run_all step [] ep = ([], ep)
  run_all step (event ∷ events) ep =
      let (answer, ep') = step event ep in
      let (answers, ep'') = run_all step events ep' in (answer ∷ answers, ep'')
