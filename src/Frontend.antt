-- ===== src/Frontend.antt =====
-- The crate frontend.
pub mod Error
pub mod Writer
pub mod Reader
