-- ===== src/Handshake/Complete.antt =====
-- The handshake of packets.rs between two honest peers, as far as their connection.
pub mod Steps
pub mod Check
pub mod Exchange
pub mod Connect
pub mod Sent
pub mod Session
pub mod Answers
