-- ===== src/Backend.antt =====
-- The crate backend.
pub mod Error
pub mod Writer
pub mod Reader
