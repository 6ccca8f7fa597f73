-- ===== src/External.antt =====
-- The third-party code that snowpack calls, as parameters of the model: for each crate a record of
-- the operations in use and, beside it, a record of the documented laws that a theorem may assume.
pub mod Text
pub mod Ed25519
pub mod Yatlv
pub mod Net
pub mod Duplex
pub mod InBounds
pub mod Noise
pub mod Notify
pub mod Tcp
