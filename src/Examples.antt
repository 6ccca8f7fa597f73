-- ===== src/Examples.antt =====
-- Concrete parameters, and runs of the theorems at concrete inputs.
mod Hex
mod Crypto
mod Frames
mod Link
mod PacketState
mod Keys
mod Auth
mod Messages
mod Streams
mod Ends
mod Duplex
mod Slices
mod Honest
mod Connecting
mod Sessions
mod Handshaking
mod Handshake
mod Pool
