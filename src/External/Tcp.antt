-- ===== src/External/Tcp.antt =====
-- `tokio::net::TcpStream`.
use Prim.Native.String.{String}
use snowpack.Prelude.{ℕ, Bool, Result}
use snowpack.External.Net.{Net}

-- `connect` to a host and a port, and `set_nodelay` on a stream.
pub record Tcp (x : Net) : Type 1 where
  pub Stream : Type 0
  pub connect : String → ℕ → Result Stream x.IoError
  pub set_nodelay : Stream → Bool → Result (Unit {0}) x.IoError
