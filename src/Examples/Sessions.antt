-- ===== src/Examples/Sessions.antt =====
-- Messages over the connection of two concrete peers, in either direction.
use snowpack.Prelude.{◌≡◌, ◌≤◌, refl, ◌++◌, [], ◌∷◌, Bytes, false, ok, arith}
use snowpack.Auth.{into_details}
use snowpack.Packets.Tx.{PacketTx}
use snowpack.Messages.{MessageRx}
use snowpack.Packets.Tx.{chunks, chunks_loop}
use snowpack.Packets.Chunks.{payloads}
use snowpack.Messages.Conversation.{total_packets, send_all, ReadsAll}
use snowpack.Handshake.Complete.Session.{ReadsAll-connect}
use snowpack.Handshake.Complete.Answers.{ReadsAll-accept}
use snowpack.Examples.Messages.{letters, letters-AllReadable}
use snowpack.Handshake.Entry.{accept, connect}
use snowpack.Handshake.Complete.Exchange.{i_end, r_end}
use snowpack.Examples.Crypto.{toy_ed25519}
use snowpack.Examples.Frames.{toy_yatlv}
use snowpack.Examples.Link.{plain_net, plain_net-IsHealthy}
use snowpack.Examples.Auth.{cluster_keys, header}
use snowpack.Examples.Honest.{open_noise, open_noise-IsHonest}
use snowpack.Examples.Connecting.{
  key_a, key_b, local_a, local_b, header_b, hello_frame, reply_frame, last_frame, pair-Honest,
  to_read,
}

nonces : total_packets letters ≤ plain_net-IsHealthy.left 10
unfolding payloads chunks chunks_loop plain_net-IsHealthy
nonces = omega arith

cipher_a :
    open_noise-IsHonest.transport (
      i_end plain_net plain_net-IsHealthy open_noise open_noise-IsHonest key_a.bytes key_b.bytes
        local_a.bytes local_b.bytes)
    ≡ 10
unfolding open_noise-IsHonest
cipher_a = refl

ReadsAll-connect_example :
    (tx : PacketTx plain_net) × (rx : MessageRx plain_net) × (tx' : PacketTx plain_net)
    × (wire : Bytes) × (connect plain_net open_noise toy_ed25519 toy_yatlv false
          (reply_frame ++ 1 ∷ [])
          []
          key_a
          local_a
          cluster_keys.public
        ≡ ok ((tx, rx), into_details header_b))
    × (send_all plain_net letters tx ≡ (ok tt, tx'))
    × (plain_net-IsHealthy.written tx'.writer.write
        ≡ ((plain_net-IsHealthy.written [] ++ hello_frame) ++ last_frame) ++ wire)
    × ((read_b write_b rest_b : Bytes)
        → plain_net-IsHealthy.pending read_b ≡ hello_frame ++ (last_frame ++ (wire ++ rest_b))
        → (tx_b : PacketTx plain_net) × (rx_b : MessageRx plain_net) × (rx_b' : MessageRx plain_net)
          × (accept plain_net open_noise toy_ed25519 toy_yatlv false read_b write_b key_b local_b
                cluster_keys.public
              ≡ ok ((tx_b, rx_b), into_details header))
          × ReadsAll plain_net plain_net-IsHealthy 2 letters rx_b rx_b')
ReadsAll-connect_example =
    ReadsAll-connect plain_net plain_net-IsHealthy open_noise open_noise-IsHonest toy_ed25519
      toy_yatlv key_a key_b local_a local_b cluster_keys.public cluster_keys.public header header_b
      2 letters (reply_frame ++ 1 ∷ []) [] (1 ∷ []) pair-Honest letters-AllReadable
      (rw cipher_a nonces) (to_read _)

cipher_b :
    open_noise-IsHonest.transport (
      r_end plain_net plain_net-IsHealthy open_noise open_noise-IsHonest key_a.bytes key_b.bytes
        local_a.bytes local_b.bytes)
    ≡ 10
unfolding open_noise-IsHonest
cipher_b = refl

ReadsAll-accept_example :
    (tx : PacketTx plain_net) × (rx : MessageRx plain_net) × (tx' : PacketTx plain_net)
    × (wire : Bytes) × (accept plain_net open_noise toy_ed25519 toy_yatlv false
          (hello_frame ++ (last_frame ++ 2 ∷ []))
          []
          key_b
          local_b
          cluster_keys.public
        ≡ ok ((tx, rx), into_details header))
    × (send_all plain_net letters tx ≡ (ok tt, tx'))
    × (plain_net-IsHealthy.written tx'.writer.write
        ≡ (plain_net-IsHealthy.written [] ++ reply_frame) ++ wire)
    × ((read_a write_a rest_a : Bytes)
        → plain_net-IsHealthy.pending read_a ≡ reply_frame ++ (wire ++ rest_a)
        → (tx_a : PacketTx plain_net) × (rx_a : MessageRx plain_net) × (rx_a' : MessageRx plain_net)
          × (connect plain_net open_noise toy_ed25519 toy_yatlv false read_a write_a key_a local_a
                cluster_keys.public
              ≡ ok ((tx_a, rx_a), into_details header_b))
          × ReadsAll plain_net plain_net-IsHealthy 2 letters rx_a rx_a')
ReadsAll-accept_example =
    ReadsAll-accept plain_net plain_net-IsHealthy open_noise open_noise-IsHonest toy_ed25519
      toy_yatlv key_a key_b local_a local_b cluster_keys.public cluster_keys.public header header_b
      2 letters (hello_frame ++ (last_frame ++ 2 ∷ [])) [] (2 ∷ []) pair-Honest letters-AllReadable
      (rw cipher_b nonces) (to_read _)
