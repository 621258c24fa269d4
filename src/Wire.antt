-- ===== src/Wire.antt =====
-- The framing of the TCP connection between client and ChatServer: a four-byte header with the
-- message id and the body length, both big-endian, and the body.
pub mod Node
pub mod Encode
pub mod Read
pub mod Receive
