-- ===== src/Pool/Connector.antt =====
-- `TcpConnector` of pool.rs: the stream on which the handshake is performed.
use Prim.Native.String.{String}
use snowpack.Prelude.{ℕ, true, Result, ok, ◌>>=◌, map_err}
use snowpack.External.Net.{Net}
use snowpack.External.Tcp.{Tcp}
use snowpack.Packets.Error.{Error, io}

pub record TcpConnector : Type 0 where
  pub hostname : String
  pub port : ℕ

module _ (x : Net) (t : Tcp x) where
  -- A stream on which the small packets are not held back.
  unfoldable pub connect_tcp : TcpConnector → Result t.Stream (Error x)
  connect_tcp connector = do
    stream ← map_err io (t.connect connector.hostname connector.port)
    done ← map_err io (t.set_nodelay stream true)
    ok stream
