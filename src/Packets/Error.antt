-- ===== src/Packets/Error.antt =====
-- `ConnectionError` of packets.rs.
use Prim.Native.String.{String}
use snowpack.External.Net.{Net}
use snowpack.PacketState.Header.{PacketReadError}
use snowpack.PacketState.Builder.{PacketBuildError}
use snowpack.Auth.{BadAuth}

pub data ConnectionError (Io Snow : Type 0) : Type 0 where
  io : Io → ConnectionError Io Snow
  noise : Snow → ConnectionError Io Snow
  packet : PacketReadError → ConnectionError Io Snow
  packet_builder : PacketBuildError → ConnectionError Io Snow
  packet_overflow : ConnectionError Io Snow
  missing_remote_static : ConnectionError Io Snow
  remote_static_key_length : ConnectionError Io Snow
  handshake_timeout : ConnectionError Io Snow
  invalid_node_id : String → ConnectionError Io Snow
  bad_auth : BadAuth → ConnectionError Io Snow
  message_aborted : ConnectionError Io Snow

abbrev pub Error : Net → Type 0
Error x = ConnectionError x.IoError x.SnowError
