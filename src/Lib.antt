-- ===== src/Lib.antt =====
-- Snowpack: messages over Noise connections between authenticated peers.
--
-- The crate has, from the bottom up: keys and node ids, auth headers that a cluster key signs, the
-- packet state machine, packets over an encrypted stream, messages over packets, and a pool of
-- connections. The files:
--
-- - NodeId (src/node_id.rs): node ids from bytes and from integers.
-- - Keys (src/lib.rs), Noise (src/noise.rs), Sign (src/sign.rs): transport keys, cluster keys and
--   signed records. A key is the list of its bytes. Randomness is an argument: `generate` takes the
--   secret, or the key pair that the Noise library made.
-- - Auth (src/auth.rs): auth headers, their frames, their signed form and the checks on a peer.
-- - PacketState (src/packet_state.rs): Header has kinds, header bits and sizes, Builder and Reader
--   the two state machines. A method takes the machine and returns its result and the new machine,
--   errors included, so that an error that leaves a machine changed or unchanged shows. Protocol
--   has the packet protocol as a step relation, Wire what becomes of any bytes, Word which numbers
--   are headers; Sync has the relation between a builder and the reader that is fed with its
--   packets, and Feed whole runs of the two.
-- - Packets (src/packets.rs): Exec has methods that may fail after a change of state, Frame frames,
--   Tx and Rx the two halves. Framing, Wire, Sending, Chunks, Rounds, Closing, Streaming and
--   Receiving are about what they do on a healthy connection, Ends about `send_reader` on any.
--   Shared has the two halves around the transport state that they share, with Local about one call
--   and Apart about runs. Checked has the calls with every slice and every cast checked.
-- - Messages (src/messages.rs): the message interface; a panic is an outcome. Sending, Delivery and
--   Conversation follow messages from one end to the other, Streaming messages from a reader, Abort
--   abandoned ones, with Abandoning and Aborted for its two ends. Safety is about any stream, Ends
--   about any stream that ends, Packetwise about callers of `MessagePackets::next`, Unconsumed
--   about handles that are dropped, Checked has the receiving methods with every slice checked.
-- - Handshake (src/packets.rs, src/lib.rs): the handshake context; Entry has `accept` and `connect`
--   of both files, Peer and Sound whom they return, Disclosure what a peer that is not verified
--   learns, Checked the steps with every slice and cast checked, Complete the handshake of two
--   honest peers and the messages over it in either direction. That the time limit passed first is
--   an argument.
-- - Pool (src/pool.rs): the link to one peer; Steps has what may happen to it in any order,
--   Invariant what holds of it, Lineage where its connection comes from, Tasks the tasks on the
--   way, Fresh a link after a guard was dropped, Backoff the waits of `reconnect_task`, Connector
--   `TcpConnector`, Target `try_connect` and `ConnectionPool::peer`, Peers repeated calls of the
--   latter, Waiting `wait_connected` next to all that happens to the link, and Waiting/Told and
--   Waiting/Awake its wake-ups. The lock is held across operations by a guard only.
-- - External: what the crates hex, serde, ed25519_dalek, yatlv, snow and tokio are used for, as
--   records of operations, with their documented laws as records of hypotheses (InBounds: of the
--   buffers). Examples has an instance of each that has laws, which it satisfies, and applications
--   of the theorems.
--
-- Bounds and fuel. Numbers are natural; the header keeps its 16 bits written out, a frame's length
-- its two bytes. The loop of `chunks` has as many rounds as the slice has bytes, and takes a byte
-- at least in each. The loops of `read_bytes` and `send_reader` take a number of rounds; running
-- out is an outcome of its own, never a result, and the theorems that promise a result say how many
-- rounds are enough.
--
-- The cipher state that the two halves share behind a lock is a field of each half, and stands for
-- its content when the method is called. Packets/Shared has the halves around the one state, next
-- to halves with a state each.
--
-- Not modelled: derived Debug output, metrics and logging, zeroing of secrets, and the benchmarks.
pub mod Prelude
pub mod PacketState
pub mod External
pub mod NodeId
pub mod Keys
pub mod Noise
pub mod Sign
pub mod Auth
pub mod Packets
pub mod Messages
pub mod Handshake
pub mod Pool
pub mod Examples
