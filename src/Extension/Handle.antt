-- ===== src/Extension/Handle.antt =====
-- `ChannelWorkerHandle` of crates/folk-ext/src/runtime.rs. Channels and threads are numbers.
use folk_core.Base.{ℕ, Bool, Option, is_some}

pub record WorkerTxSide : Type 0 where
  pub task_tx : ℕ
  pub ready_rx : ℕ

pub record ChannelWorkerHandle : Type 0 where
  pub worker_id : ℕ
  pub task_tx : Option ℕ
  pub ready_rx : Option ℕ
  pub thread_handle : Option ℕ

unfoldable pub is_recyclable : ChannelWorkerHandle → Bool
is_recyclable h = is_some h.thread_handle
