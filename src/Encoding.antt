-- ===== src/Encoding.antt =====
-- The wire encodings of package `encoding` (internal/filexfer/encoding).
pub mod Path
pub mod Hash
pub mod Frame
pub mod Body
