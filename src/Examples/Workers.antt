-- ===== src/Examples/Workers.antt =====
-- Examples for the supervisor of a slot in crates/folk-core/src/worker_pool.rs.
use folk_core.Base.{
  map, ℕ, ◌≡◌, ◌≢◌, refl, true, false, none, some, List, [], ◌∷◌, ◌++◌, All, arith,
}
use folk_core.Config.{WorkersConfig, default_workers}
use folk_core.Slot.{debug, SlotState, new, mark_ready, mark_busy, mark_idle, should_recycle}
use folk_core.Pool.Supervisor.{
  Handle, Round, Supervisor, Message, request, Exec, exec_ok, exec_err, exec_timeout, exec_panic,
  ready_ok, ready_err, continues, panics, run, start, iteration, serve, boot_and_serve, boot_worker,
}
use folk_core.Pool.Supervisor.Invariant.{
  Chronological, SlotFits, HasJobsLeft, run-ne-panics, run-jobs_left,
}
use folk_core.Pool.Supervisor.Reloads.{succeeded, run-succeeded}
use folk_core.Pool.Supervisor.Turns.{InTurn, run-InTurn}
use folk_core.Pool.Supervisor.Freshness.{IsFreshCall, run-fresh}
use folk_core.Pool.Supervisor.Balance.{receipts, releases, spawns, stops, held, spawns-run}
use folk_core.Pool.Supervisor.Served.{served, left}
use folk_core.Pool.Supervisor.Refines.{slot_actions, end_actions, ended, run-refines}
use folk_core.Pool.Flow.{PoolSlot, PoolState, run_actions}

-- Workers that retire after two requests.
abbrev two_jobs : WorkersConfig
two_jobs = record default_workers { max_jobs = 2 }

abbrev spare : ℕ → Handle
spare id = record { id = id; recyclable = true }

-- A round in which the reload channel stays at generation `g`.
abbrev round_at : ℕ → ℕ → Message → Exec → Round
round_at g worker message exec = record {
  boot_seen = g;
  boot = record { spawn = some (spare worker); ready = ready_ok };
  poll_seen = g;
  sender_dropped = false;
  borrow_seen = g;
  message = message;
  exec = exec;
  done_seen = g;
  now = 10;
}

-- Worker 2 serves two requests, of which one fails, and retires; worker 3 serves one, and leaves at
-- a reload; worker 5, after a failed boot of worker 4, serves one, which times out, and another.
abbrev busy_day : List Round
busy_day =
    round_at 0 2 (request 70) exec_ok
    ∷ round_at 0 2 (request 71) exec_err
    ∷ round_at 0 3 (request 72) exec_ok
    ∷ round_at 1 3 (request 73) exec_ok
    ∷ record (round_at 1 4 (request 73) exec_ok) {
      boot = record { spawn = some (spare 4); ready = ready_err };
    }
    ∷ round_at 1 5 (request 73) exec_timeout
    ∷ []

in_order : Chronological 0 busy_day
in_order = ground arith

abbrev after_busy_day : Supervisor
after_busy_day = record {
  slot = record { state = SlotState.idle; pid = some 5; jobs_handled = 1; created_at = 10 };
  worker = some (spare 5);
  boot_generation = 1;
  seen = 1;
}

busy_day_end : (run debug two_jobs busy_day (start 0 0)).0 ≡ continues after_busy_day
unfolding run iteration serve boot_and_serve boot_worker start new mark_ready mark_busy mark_idle
    should_recycle
busy_day_end = refl

run-ne-panics_example : (run debug two_jobs busy_day (start 0 0)).0 ≢ panics
run-ne-panics_example =
    run-ne-panics debug two_jobs busy_day 0 0 (omega arith) in_order (ground arith)

run-jobs_left_example :
    SlotFits (some (spare 5)) after_busy_day.slot
    × HasJobsLeft two_jobs (some (spare 5)) after_busy_day.slot
run-jobs_left_example =
    run-jobs_left debug two_jobs busy_day 0 0 after_busy_day (omega arith) in_order busy_day_end

run-fresh_example : All IsFreshCall (run debug two_jobs busy_day (start 0 0)).1
run-fresh_example = run-fresh debug two_jobs busy_day 0 0 (omega arith) in_order

run-succeeded_example :
    run debug two_jobs (map succeeded busy_day) (start 0 0)
    ≡ run debug two_jobs busy_day (start 0 0)
run-succeeded_example = run-succeeded debug two_jobs busy_day (start 0 0) (ground arith)

-- A slot that still holds the requests of that day, and one more.
abbrev waiting_slot : PoolSlot
waiting_slot = record { inbox = 70 ∷ 71 ∷ 72 ∷ 73 ∷ 74 ∷ 99 ∷ []; is_open = true; running = none }

abbrev waiting_pool : PoolState
waiting_pool = record {
  permits = 1;
  holding = [];
  queue = [];
  router = record { next = 0; dead = false ∷ [] };
  slots = waiting_slot ∷ [];
  acquired = [];
  released = [];
}

abbrev last_day : List Round
last_day = busy_day ++ record (round_at 1 6 (request 74) exec_panic) { done_seen = 1 } ∷ []

waiting_requests :
    waiting_slot.inbox ≡ receipts (run debug two_jobs last_day (start 0 0)).1 ++ 99 ∷ []
unfolding run iteration serve boot_and_serve boot_worker start new mark_ready mark_busy mark_idle
    should_recycle
waiting_requests = refl

run-refines_example :
    run_actions
      (slot_actions 0 (run debug two_jobs last_day (start 0 0)).1
        ++ end_actions 0 (run debug two_jobs last_day (start 0 0)).0)
      waiting_pool
    ≡ ended 0
        (run debug two_jobs last_day (start 0 0)).0
        (left (99 ∷ []) waiting_slot)
        (served (receipts (run debug two_jobs last_day (start 0 0)).1) waiting_pool)
run-refines_example =
    run-refines debug two_jobs last_day (start 0 0) 0 (99 ∷ []) waiting_pool waiting_slot refl refl
      refl waiting_requests

run-InTurn_example : InTurn none (run debug two_jobs busy_day (start 0 0)).1
run-InTurn_example = run-InTurn debug two_jobs busy_day (start 0 0)

spawns-run_example :
    spawns (run debug two_jobs busy_day (start 0 0)).1
    ≡ stops (run debug two_jobs busy_day (start 0 0)).1
      ++ held (run debug two_jobs busy_day (start 0 0)).0
spawns-run_example = spawns-run debug two_jobs busy_day 0 0 run-ne-panics_example

served_on_busy_day : releases (run debug two_jobs busy_day (start 0 0)).1 ≡ 70 ∷ 71 ∷ 72 ∷ 73 ∷ []
unfolding run iteration serve boot_and_serve boot_worker start new mark_ready mark_busy mark_idle
    should_recycle
served_on_busy_day = refl
