-- ===== src/HttpMessage.antt =====
-- The crate http-message.
pub mod Version
pub mod Framing
pub mod Header
pub mod Connection
pub mod Message
pub mod Heads
pub mod Parse
pub mod Builder
