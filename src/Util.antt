-- ===== src/Util.antt =====
-- The crate util: byte classes and the read buffer.
pub mod Parse
pub mod Async
pub mod Sends
pub mod IoBuffer
