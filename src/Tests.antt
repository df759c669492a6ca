-- ===== src/Tests.antt =====
-- The theorems at concrete inputs.
pub mod Acks
pub mod Tokens
pub mod Sets
pub mod Ciphers
pub mod Limits
pub mod Frames
pub mod Commands
pub mod Transfers
