-- ===== src/Examples/Calls.antt =====
-- Examples for the calls that go through several parts: from `Executor` of
-- crates/folk-core/src/worker_pool.rs to the PHP handler, and back.
use folk_core.Base.{◌≡◌, refl, true, false, none, some, [], ◌∷◌, All}
use folk_core.Json.{Value}
use folk_core.Pool.Executor.{DispatchRequest, execute_value, execute_value_traced, of_collected}
use folk_core.Pool.Executor.EndToEnd.{
  task_request, traced, connected, request_of, begun, execute_value_traced-outcome,
}
use folk_core.Bridge.State.{TaskRequest, WorkerState, accept, current_request_id}
use folk_core.Bridge.Response.{do_write_end, write_end_step}
use folk_core.Bridge.Dispatch.{
  Php, stop, call, call_request_id, call_write_end, value, run_php, perform, serve_request,
}
use folk_core.Bridge.Dispatch.Collected.{outcome}
use folk_core.Entry.{folk_request_id}
use folk_core.Entry.Correlation.{IsTold, told, serve_request-ids}
use folk_core.Examples.Streams.{from_utf8_lossy, externals, a_request, worker_with}

-- The handler asks for its request's identifier, and answers; the other one ends the response first.
abbrev asking : TaskRequest → Php
asking req = call call_request_id (λ r. stop (value req.payload))

abbrev asking_late : Php
asking_late =
    call call_request_id
      (λ r. call call_write_end (λ r. call call_request_id (λ r. stop (value Value.null))))

abbrev idle_worker : WorkerState
idle_worker = worker_with 2 [] none

-- The identifiers that the late handler is told.
late_ids :
    told externals asking_late
      (record { worker = some (accept (a_request 3 none) [] idle_worker); log = [] })
    ≡ (true, "id") ∷ (false, "") ∷ []
unfolding told folk_request_id current_request_id perform accept do_write_end write_end_step
late_ids = refl

serve_request-ids_example :
    (folk_request_id (record { worker = some (accept (a_request 3 none) [] idle_worker); log = [] })
      ≡ "id")
    × All (IsTold "id") (
        told externals asking_late
          (record { worker = some (accept (a_request 3 none) [] idle_worker); log = [] }))
    × (folk_request_id (serve_request externals asking_late (a_request 3 none) [] idle_worker [])
        ≡ "")
serve_request-ids_example =
    serve_request-ids externals asking_late (a_request 3 none) [] idle_worker []

abbrev a_job : DispatchRequest
a_job = request_of "0190" 5 "jobs" Value.null

abbrev after_asking : WorkerState
after_asking = record idle_worker {
  current_request_id = some "0190";
  current_stream_tx = some 5;
  current_done_tx = some 6;
}

asking_run :
    run_php externals
      (asking (task_request 6 a_job))
      (begun externals asking 6 [] idle_worker a_job)
    ≡ (value Value.null, record { worker = some after_asking; log = [] })
unfolding run_php perform accept task_request
asking_run = refl

execute_value_traced-outcome_example :
    (execute_value from_utf8_lossy
        (connected externals asking 6 [] idle_worker "0190" 5)
        "jobs"
        Value.null
      ≡ (of_collected (outcome externals (value Value.null)), a_job ∷ []))
    × (execute_value_traced from_utf8_lossy
          (connected externals asking 6 [] idle_worker "0190" 5)
          "jobs"
          Value.null
        ≡ (traced "0190" (outcome externals (value Value.null)), a_job ∷ []))
    × (folk_request_id (begun externals asking 6 [] idle_worker a_job) ≡ "0190")
    × All (IsTold "0190") (
        told externals
          (asking (task_request 6 a_job))
          (begun externals asking 6 [] idle_worker a_job))
execute_value_traced-outcome_example =
    execute_value_traced-outcome externals asking 6 [] idle_worker from_utf8_lossy "0190" 5 "jobs"
      Value.null after_asking (value Value.null) asking_run refl refl
