-- ===== src/Body.antt =====
-- The crate body: readers and writers of message bodies.
pub mod Error
pub mod Reader
pub mod Writer
