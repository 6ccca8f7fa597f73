-- ===== src/Examples/Ends.antt =====
-- Byte strings as streams that end.
use snowpack.Prelude.{
  ℕ, ◌<◌, ◌≤◌, ◌≡◌, refl, ap, [], ◌∷◌, Bytes, Result, ok, err, length, take, length-take,
  length-drop, arith,
}
use snowpack.External.Net.{IsFinite}
use snowpack.Packets.Error.{Error}
use snowpack.Packets.Tx.{send_reader}
use snowpack.Packets.Ends.{Returned, send_reader-Returned}
use snowpack.Messages.{MessageRx, returned, read_bytes, into_packets}
use snowpack.Messages.Packetwise.{drain}
use snowpack.Messages.Ends.{drain-returned}
use snowpack.Examples.Link.{plain_net, Fault, read_u16, read_exact}
use snowpack.Examples.Streams.{sender, source, waiting, has_read, handle, read_message-waiting}

read_u16-less : (i : Bytes) (n : ℕ) (i' : Bytes) → read_u16 i ≡ (ok n, i') → length i' < length i
read_u16-less [] n i' e = absurd cc
read_u16-less (a ∷ []) n i' e = absurd cc
read_u16-less (a ∷ b ∷ i) n i' e = omega (arith, ap (λ q. length q.1) e)

read_exact-le : (i buffer : Bytes) → length (read_exact i buffer).2 ≤ length i
read_exact-le i buffer = ground (arith, length-drop (length buffer) i)

abbrev given : Result Bytes Fault → Bytes
given (ok bs) = bs
given (err f) = []

read-less :
    (s : Bytes) (room b : ℕ) (bs s' : Bytes)
    → plain_net.read s room ≡ (ok (b ∷ bs), s')
    → length s' < length s
read-less s room b bs s' e =
    let taken : take room s ≡ b ∷ bs = ap (λ q. given q.0) e in
    omega (arith, ap length taken, ap (λ q. length q.1) e, length-take room s, length-drop room s)

abbrev plain_net-IsFinite : IsFinite plain_net
plain_net-IsFinite = record {
  remaining = length;
  read_u16-less = read_u16-less;
  read_exact-le = read_exact-le;
  left = length;
  read-less = read-less;
}

send_reader-Returned_example :
    Returned plain_net plain_net-IsFinite (send_reader plain_net 4 source sender)
send_reader-Returned_example =
    send_reader-Returned plain_net plain_net-IsFinite 4 source sender (omega arith)

drain-returned_example :
    (r : Result Bytes (Error plain_net)) × (rx : MessageRx plain_net) × (read_bytes plain_net 1
        handle has_read
      ≡ returned r rx)
    × (drain plain_net 3 [] (into_packets plain_net handle has_read) ≡ returned r rx.packets)
drain-returned_example =
    drain-returned plain_net plain_net-IsFinite 1 waiting has_read handle refl read_message-waiting
      (omega arith)
