-- ===== src/Extension/Thread/Sequence.antt =====
-- What a worker thread of worker.rs that runs the dispatch loop of bridge.rs leaves behind.
use folk_core.Base.{ℕ, ◌≡◌, refl, true, false, List, [], ◌∷◌, ◌++◌}
use folk_core.Bridge.State.{
  TaskRequest, Event, ready, Bridge, init_worker_state, cleanup_worker_state, has_worker_state,
}
use folk_core.Bridge.Dispatch.{Externals, Php, run_dispatch_loop, directory_events}
use folk_core.Bridge.Dispatch.Contract.{Responses, join_events, run_dispatch_loop-Responses}
use folk_core.Extension.Thread.{Engine, run_zts_worker}

-- The engine with a script that runs the dispatch loop.
abbrev pub looping : Externals → (TaskRequest → Php) → Engine
looping x handler = record {
  request_startup = true;
  execute_script = λ b. (run_dispatch_loop x handler b).1;
}

-- A worker thread whose script runs the dispatch loop tells that it is ready, and restores the
-- directory; then answers each request of its channel in order, once, with at most one returned
-- value or error; and leaves the thread without a worker state behind.
pub run_zts_worker-Responses :
    (x : Externals) (handler : TaskRequest → Php) (worker_id : ℕ) (reqs : List TaskRequest)
    (b : Bridge)
    → let after = (run_zts_worker (looping x handler) worker_id reqs b).1 in
      (events : List Event) × (after.log
        ≡ b.log ++ ready ∷ [] ++ directory_events x.project_root ++ events ++ join_events worker_id)
      × Responses reqs events
      × (has_worker_state after ≡ false)
unfolding run_zts_worker cleanup_worker_state init_worker_state has_worker_state
run_zts_worker-Responses x handler worker_id reqs b =
    let (events, fine, logged, each) =
      run_dispatch_loop-Responses x handler (init_worker_state worker_id reqs b) _ refl in
    (events, logged, each, refl)
