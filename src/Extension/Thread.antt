-- ===== src/Extension/Thread.antt =====
-- `run_zts_worker` of crates/folk-ext/src/worker.rs: the life of a worker thread. What the PHP engine
-- does is a parameter: how the start of a request ends, and what the script does to the bridge.
pub mod Sequence
use folk_core.Base.{ℕ, Bool, true, false, List, [], ◌∷◌, ◌++◌}
use folk_core.Bridge.State.{TaskRequest, Bridge, init_worker_state, cleanup_worker_state}

-- The calls into the engine; the guard registers the thread, and frees it when it is dropped.
pub data EngineCall : Type 0 where
  registered request_started script_executed request_shut_down freed : EngineCall

-- The engine: whether `request_startup` succeeds, and what the script does to the bridge. A script
-- that fails is a log line. A panic unwinds to `spawn_zts_worker`, and is not seen here.
pub record Engine : Type 0 where
  pub request_startup : Bool
  pub execute_script : Bridge → Bridge

unfoldable pub run_zts_worker : Engine → ℕ → List TaskRequest → Bridge → List EngineCall × Bridge
run_zts_worker engine worker_id task_rx b = elim engine.request_startup [
  | false ↦ (registered ∷ request_started ∷ freed ∷ [], b)
  | true ↦
      let working = engine.execute_script (init_worker_state worker_id task_rx b) in
      (
        registered ∷ request_started ∷ script_executed ∷ request_shut_down ∷ freed ∷ [],
        cleanup_worker_state working,
      )
]
