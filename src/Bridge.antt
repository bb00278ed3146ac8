-- ===== src/Bridge.antt =====
-- crates/folk-ext/src/bridge.rs: the thread-local state of a PHP worker and the native functions
-- over it, by what they serve.
pub mod State
pub mod Response
pub mod Body
pub mod Multipart
pub mod Dispatch
