-- ===== src/Ftcp.antt =====
-- The server's side of the protocol: internal/filexfer/ftcp.
pub mod Verb
pub mod Cursor
pub mod Params
pub mod Request
pub mod Items
pub mod Ack
