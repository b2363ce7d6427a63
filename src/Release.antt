-- ===== src/Release.antt =====
-- internal/releaseactivation: the lifecycle of the one local release slot.
pub mod Types
pub mod Text
pub mod Validate
pub mod Decide
pub mod Manager
mod Tests
