-- ===== src/Examples/Handshake.antt =====
-- A concrete handshake: messages in the clear, and a peer whose static key is known from the start.
use snowpack.Prelude.{◌∷◌, [], ◌++◌, Bytes, false, some, ok, ◌≡◌, refl, length, replicate}
use snowpack.External.Noise.{Noise}
use snowpack.NodeId.{try_from_bytes}
use snowpack.Keys.{try_into}
use snowpack.Noise.{TransportPrivateKey}
use snowpack.Sign
use snowpack.Sign.{verify_payload}
use snowpack.Auth
use snowpack.Auth.{
  SignedAuthHeader, AuthHeader, AuthDetails, verify_raw, from_yatlv, to_yatlv, fields,
  validate_public_key, into_details,
}
use snowpack.Auth.Header.{IsValid}
use snowpack.PacketState.Header.{to_be_bytes}
use snowpack.PacketState.Builder
use snowpack.PacketState.Reader
use snowpack.Packets.Frame.{read_frame, read_body, flush_frame}
use snowpack.Packets.Tx.{PacketTx}
use snowpack.Messages.{MessageRx}
use snowpack.Handshake
use snowpack.Handshake.{
  HandshakeContext, recv, send, into_split, new_noise_buf, new_responder, new_initiator,
  new_context, remote_static,
}
use snowpack.Handshake.Entry.{
  accept, connect, accept_packets, connect_packets, accept_steps, connect_steps, check_peer,
  validated, hand_over, within, run, with_messages,
}
use snowpack.Handshake.Peer.{Authenticated}
use snowpack.Handshake.Sound.{Authenticated-accept, Authenticated-connect}
use snowpack.Examples.Crypto.{toy_ed25519}
use snowpack.Examples.Frames.{toy_yatlv}
use snowpack.Examples.Link.{plain_net}
use snowpack.Examples.Auth.{header, cluster_keys, raw}

abbrev pub toy_noise : Noise plain_net
toy_noise = record {
  Handshake = Bytes;
  build_initiator = λ key. ok (replicate 32 3);
  build_responder = λ key. ok (replicate 32 3);
  write_message = λ h payload buffer. (ok (length payload), payload, h);
  read_message = λ h message buffer. (ok (length message), message ++ 0 ∷ 0 ∷ [], h);
  get_remote_static = λ h. some h;
  into_transport_mode = λ h. ok 10;
}

abbrev pub local : SignedAuthHeader
local = record { bytes = 9 ∷ [] }

abbrev pub private : TransportPrivateKey
private = record { bytes = replicate 32 1 }

abbrev pub header_frame : Bytes
header_frame = 0 ∷ 108 ∷ raw

abbrev pub sender : Bytes → PacketTx plain_net
sender written = record {
  builder = Builder.new;
  writer = record { cipher = 10; write = written; write_buf = [] };
}

abbrev pub receiver : Bytes → MessageRx plain_net
receiver buffer = record {
  packets = record {
    cipher = 10;
    packet_reader = Reader.new;
    input = [];
    ciphertext_buf = raw;
    plaintext_buf = buffer;
    payload_end = 0;
  };
  read_buf = [];
}

abbrev pub details : AuthDetails
details = record { node_id = header.node_id; role = header.role }

accepted :
    accept plain_net toy_noise toy_ed25519 toy_yatlv false
      (0 ∷ 0 ∷ header_frame)
      []
      private
      local
      cluster_keys.public
    ≡ ok ((sender (0 ∷ 1 ∷ 9 ∷ []), receiver (raw ++ 0 ∷ 0 ∷ [])), details)
unfolding accept accept_packets with_messages within run new_responder new_context new_noise_buf
    accept_steps check_peer validated hand_over recv Handshake.received Handshake.opened send
    Handshake.sealed remote_static into_split read_frame read_body flush_frame to_be_bytes
    verify_raw verify_payload from_yatlv try_from_bytes try_into validate_public_key into_details
    Auth.sign Sign.sign to_yatlv fields
accepted = refl

pub connected :
    connect plain_net toy_noise toy_ed25519 toy_yatlv false header_frame [] private local
      cluster_keys.public
    ≡ ok ((sender (0 ∷ 0 ∷ 0 ∷ 1 ∷ 9 ∷ []), receiver (0 ∷ 1 ∷ 9 ∷ [])), details)
unfolding connect connect_packets with_messages within run new_initiator new_context new_noise_buf
    connect_steps check_peer validated hand_over recv Handshake.received Handshake.opened send
    Handshake.sealed remote_static into_split read_frame read_body flush_frame to_be_bytes
    verify_raw verify_payload from_yatlv try_from_bytes try_into validate_public_key into_details
    Auth.sign Sign.sign to_yatlv fields
connected = refl

abbrev Context : Type 0
Context = HandshakeContext plain_net toy_noise

Authenticated-accept_example :
    (h : AuthHeader) × (hs₀ : Context) × (hs₁ : Context) × Authenticated plain_net toy_noise
      toy_ed25519 toy_yatlv cluster_keys.public h hs₀ hs₁
    × IsValid h
    × (details ≡ into_details h)
    × (into_split plain_net toy_noise hs₁
        ≡ ok (sender (0 ∷ 1 ∷ 9 ∷ []), (receiver (raw ++ 0 ∷ 0 ∷ [])).packets))
    × ((receiver (raw ++ 0 ∷ 0 ∷ [])).read_buf ≡ [])
    × (false ≡ false)
Authenticated-accept_example =
    Authenticated-accept plain_net toy_noise toy_ed25519 toy_yatlv cluster_keys.public false
      (0 ∷ 0 ∷ header_frame) [] private local (sender (0 ∷ 1 ∷ 9 ∷ []))
      (receiver (raw ++ 0 ∷ 0 ∷ [])) details accepted

Authenticated-connect_example :
    (h : AuthHeader) × (hs₀ : Context) × (hs₁ : Context) × (hs₂ : Context) × Authenticated plain_net
      toy_noise toy_ed25519 toy_yatlv cluster_keys.public h hs₀ hs₁
    × IsValid h
    × (details ≡ into_details h)
    × (send plain_net toy_noise local.bytes hs₁ ≡ (ok tt, hs₂))
    × (into_split plain_net toy_noise hs₂
        ≡ ok (sender (0 ∷ 0 ∷ 0 ∷ 1 ∷ 9 ∷ []), (receiver (0 ∷ 1 ∷ 9 ∷ [])).packets))
    × ((receiver (0 ∷ 1 ∷ 9 ∷ [])).read_buf ≡ [])
    × (false ≡ false)
Authenticated-connect_example =
    Authenticated-connect plain_net toy_noise toy_ed25519 toy_yatlv cluster_keys.public false
      header_frame [] private local (sender (0 ∷ 0 ∷ 0 ∷ 1 ∷ 9 ∷ [])) (receiver (0 ∷ 1 ∷ 9 ∷ []))
      details connected
