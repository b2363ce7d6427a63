-- ===== src/Fsx.antt =====
-- internal/fsx: the vault's file system layer.
pub mod Protocol
pub mod Normalize
mod TextCodec
mod Tests
mod PathTests
