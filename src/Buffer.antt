-- ===== src/Buffer.antt =====
-- The circular buffer (packages/circular_buffer/src/lib.rs, error.rs).
pub mod Manager
pub mod Staged
pub mod History
pub mod Session
mod Tests
