-- ===== src/H2.antt =====
-- xhttp/h2_conn.go: the adapter that rewrites the frames of a cleartext HTTP/2 client.
pub mod Frame
pub mod VarInt
pub mod HeaderOrder
pub mod Settings
pub mod Streams
pub mod HeaderBlock
pub mod Transform
pub mod WriteAll
pub mod Conn
pub mod Observe
mod Tests
