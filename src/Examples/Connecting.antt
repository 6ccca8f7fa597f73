-- ===== src/Examples/Connecting.antt =====
-- Two concrete peers that connect, and an initiator with one or another header.
use snowpack.Prelude.{◌≡◌, refl, ◌⊎◌, ◌++◌, [], ◌∷◌, Bytes, none, false, ok, replicate, arith}
use snowpack.External.Yatlv.{Fits}
use snowpack.Noise.{TransportPrivateKey}
use snowpack.Sign
use snowpack.Auth.{
  SignedAuthHeader, AuthHeader, verify_raw, verify, sign, to_yatlv, fields, into_details,
}
use snowpack.Auth.Header.{IsValid}
use snowpack.Auth.Credential.{verify-sign}
use snowpack.Packets.Framing.{framed}
use snowpack.Packets.Tx.{PacketTx}
use snowpack.Messages.{MessageRx}
use snowpack.Messages.Conversation.{Connected}
use snowpack.Handshake.{HandshakeContext, send}
use snowpack.Handshake.Entry.{accept, connect, connect_steps}
use snowpack.Handshake.Peer.{Authenticated}
use snowpack.Handshake.Disclosure.{connect_steps_blind}
use snowpack.Handshake.Complete.Exchange.{hello, reply, last, Honest}
use snowpack.Handshake.Complete.Connect.{connect-accept}
use snowpack.Examples.Crypto.{toy_ed25519, toy_ed25519-IsLawful}
use snowpack.Examples.Frames.{toy_yatlv, toy_yatlv-IsLawful}
use snowpack.Examples.Link.{plain_net, plain_net-IsHealthy}
use snowpack.Examples.Auth.{secret, cluster_keys, header, raw, verify_raw_ok, generate_cluster}
use snowpack.Examples.Handshake.{toy_noise, local}
use snowpack.Examples.Honest.{open_noise, open_noise-IsHonest}

abbrev pub key_a : TransportPrivateKey
key_a = record { bytes = replicate 32 3 }

abbrev pub key_b : TransportPrivateKey
key_b = record { bytes = replicate 32 6 }

abbrev pub local_a : SignedAuthHeader
local_a = record { bytes = raw }

abbrev pub header_b : AuthHeader
header_b = record {
  node_id = record { bytes = 8 ∷ [] };
  role = none;
  public_key = record { bytes = key_b.bytes };
}

abbrev pub local_b : SignedAuthHeader
local_b = sign toy_ed25519 toy_yatlv header_b cluster_keys.private

header_b-IsValid : IsValid header_b
header_b-IsValid = record { short = omega arith; key_length = refl }

header_b-Fits : Fits toy_yatlv (fields header_b)
unfolding fields
header_b-Fits = (omega arith, (omega arith, tt))

verify_raw_b : verify_raw toy_ed25519 toy_yatlv cluster_keys.public local_b.bytes ≡ ok header_b
unfolding verify
verify_raw_b =
    verify-sign toy_ed25519 toy_ed25519-IsLawful toy_yatlv toy_yatlv-IsLawful secret header_b
      cluster_keys generate_cluster header_b-Fits header_b-IsValid

pub pair-Honest :
    Honest plain_net plain_net-IsHealthy open_noise open_noise-IsHonest toy_ed25519 toy_yatlv key_a
      key_b local_a local_b cluster_keys.public cluster_keys.public header header_b
unfolding open_noise-IsHonest sign Sign.sign to_yatlv fields
pair-Honest = record {
  length_a = refl;
  length_b = refl;
  fits_hello = omega arith;
  fits_b = omega arith;
  fits_a = omega arith;
  verified_a = verify_raw_ok;
  verified_b = verify_raw_b;
  own_a = refl;
  own_b = refl;
}

abbrev pub hello_frame : Bytes
hello_frame =
    framed (hello plain_net plain_net-IsHealthy open_noise open_noise-IsHonest key_a.bytes)

abbrev pub reply_frame : Bytes
reply_frame = framed (
    reply plain_net plain_net-IsHealthy open_noise open_noise-IsHonest key_a.bytes key_b.bytes
      local_b.bytes)

abbrev pub last_frame : Bytes
last_frame = framed (
    last plain_net plain_net-IsHealthy open_noise open_noise-IsHonest key_a.bytes key_b.bytes
      local_a.bytes local_b.bytes)

pub to_read : (bs : Bytes) → plain_net-IsHealthy.pending bs ≡ bs
unfolding plain_net-IsHealthy
to_read bs = refl

connect-accept_example :
    (tx_a : PacketTx plain_net) × (rx_a : MessageRx plain_net) × (tx_b : PacketTx plain_net)
    × (rx_b : MessageRx plain_net) × (connect plain_net open_noise toy_ed25519 toy_yatlv false
          (reply_frame ++ 1 ∷ [])
          []
          key_a
          local_a
          cluster_keys.public
        ≡ ok ((tx_a, rx_a), into_details header_b))
    × (accept plain_net open_noise toy_ed25519 toy_yatlv false
          (hello_frame ++ (last_frame ++ 2 ∷ []))
          []
          key_b
          local_b
          cluster_keys.public
        ≡ ok ((tx_b, rx_b), into_details header))
    × (plain_net-IsHealthy.written tx_a.writer.write
        ≡ (plain_net-IsHealthy.written [] ++ hello_frame) ++ last_frame)
    × (plain_net-IsHealthy.written tx_b.writer.write
        ≡ plain_net-IsHealthy.written [] ++ reply_frame)
    × Connected plain_net plain_net-IsHealthy tx_a (2 ∷ []) rx_b
    × Connected plain_net plain_net-IsHealthy tx_b (1 ∷ []) rx_a
connect-accept_example =
    connect-accept plain_net plain_net-IsHealthy open_noise open_noise-IsHonest toy_ed25519
      toy_yatlv key_a key_b local_a local_b cluster_keys.public cluster_keys.public header header_b
      (reply_frame ++ 1 ∷ []) (hello_frame ++ (last_frame ++ 2 ∷ [])) [] [] (1 ∷ []) (2 ∷ [])
      pair-Honest (to_read _) (to_read _)

abbrev waiting : HandshakeContext plain_net toy_noise
waiting = record {
  handshake = replicate 32 3;
  frame = [];
  noise_buf = 0 ∷ 0 ∷ [];
  read = 0 ∷ 1 ∷ 5 ∷ [];
  write = [];
}

connect_steps_blind_example :
    ((h : AuthHeader) × (hs₀ : HandshakeContext plain_net toy_noise) × (hs₁ : HandshakeContext
        plain_net toy_noise)
      × (send plain_net toy_noise [] waiting ≡ (ok tt, hs₀))
      × Authenticated plain_net toy_noise toy_ed25519 toy_yatlv cluster_keys.public h hs₀ hs₁)
    ⊎ (connect_steps plain_net toy_noise toy_ed25519 toy_yatlv local cluster_keys.public waiting
        ≡ connect_steps plain_net toy_noise toy_ed25519 toy_yatlv local_b cluster_keys.public
            waiting)
connect_steps_blind_example =
    connect_steps_blind plain_net toy_noise toy_ed25519 toy_yatlv cluster_keys.public waiting local
      local_b
