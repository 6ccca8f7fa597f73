-- ===== src/PacketState.antt =====
-- packet_state.rs: the packet header, the packet builder and the packet reader.
pub mod Header
pub mod Bits
pub mod Builder
pub mod Reader
pub mod Protocol
pub mod Wire
pub mod Word
pub mod Sync
pub mod Feed
