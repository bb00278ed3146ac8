-- ===== src/Extension.antt =====
-- The extension runtime: crates/folk-ext/src/runtime.rs.
pub mod Handle
pub mod Thread
pub mod Link
pub mod Spawn
pub mod Warmup
pub mod Execute
