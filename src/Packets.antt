-- ===== src/Packets.antt =====
-- packets.rs: connection errors, frames, and the packet halves of a connection. A method takes and
-- returns the state that it changes: the cipher, which the two halves of a connection share behind
-- `Arc<Mutex<_>>`, and the half itself. An `.await` is a call that returns.
pub mod Exec
pub mod Error
pub mod Frame
pub mod Framing
pub mod Tx
pub mod Rx
pub mod Wire
pub mod Sending
pub mod Chunks
pub mod Rounds
pub mod Closing
pub mod Streaming
pub mod Ends
pub mod Shared
pub mod Checked
pub mod Receiving
