-- ===== src/Pool.antt =====
-- crates/folk-core/src/worker_pool.rs, by the tasks that it runs.
pub mod Supervisor
pub mod Router
pub mod Stream
pub mod Flow
pub mod Executor
