-- ===== src/Examples/Php.antt =====
-- Examples for what PHP sees: crates/folk-ext/src/lib.rs, crates/folk-ext/src/worker.rs, and the end
-- of a handler in crates/folk-ext/src/bridge.rs.
use folk_core.Base.{
  ◌≤◌, ◌≡◌, ◌⊎◌, refl, String, true, false, Option, none, some, List, [], ◌∷◌, ◌++◌,
}
use folk_core.Json.{Value}
use folk_core.Api.{Headers, RequestBody}
use folk_core.Bridge.Body.{do_read}
use folk_core.Bridge.State.{
  TaskRequest, WorkerState, Bridge, Event, ready, accept, has_worker_state,
}
use folk_core.Bridge.Response.{do_write_head, write_head_step}
use folk_core.Bridge.Dispatch.{
  Php, stop, call, call_write_head, call_read, value, failed, run_php, perform, serve_request,
  directory_events,
}
use folk_core.Bridge.Dispatch.Contract.{Answered, Responses, join_events}
use folk_core.Bridge.Dispatch.Decided.{writes_head}
use folk_core.Bridge.Dispatch.Streamed.{returning, serve_request-returning}
use folk_core.Entry.{pos, folk_write_head}
use folk_core.Extension.Link.{
  LinkEvent, execute, time_out, take_task, finish_task, leave, blocked, new_link, run_link,
  step_link, execute_streaming, on_time_out, on_take, on_finish, on_leave, terminate, has_returned,
}
use folk_core.Extension.Link.Backlog.{run_link-blocked}
use folk_core.Extension.Link.Join.{
  tasks, run_finished, ending, closed_after, waits_after, terminate-joins,
}
use folk_core.Extension.Thread.{run_zts_worker}
use folk_core.Extension.Thread.Sequence.{looping, run_zts_worker-Responses}
use folk_core.Examples.Streams.{externals, a_request, worker_with, handler, three_requests, at_work}

abbrev answering : WorkerState
answering = worker_with 2 [] none

abbrev no_headers : String → Option Headers
no_headers json = some []

abbrev headed : Bridge
headed = (folk_write_head no_headers true (pos 404) "{}" (at_work answering)).1

run_zts_worker-Responses_example :
    (events : List Event) × ((run_zts_worker
        (looping externals handler)
        2
        three_requests
        (record { worker = none; log = [] })).1.log
      ≡ [] ++ ready ∷ [] ++ directory_events (some "/srv/app") ++ events ++ join_events 2)
    × Responses three_requests events
    × (has_worker_state
          (run_zts_worker
            (looping externals handler)
            2
            three_requests
            (record { worker = none; log = [] })).1
        ≡ false)
run_zts_worker-Responses_example =
    run_zts_worker-Responses externals handler 2 three_requests (record { worker = none; log = [] })

-- The handler writes a head, and returns a value.
abbrev head_only : Php
head_only = call (call_write_head true 200 []) (λ r. stop (value Value.null))

abbrev told_ready : WorkerState
told_ready = record answering { ready_tx = none }

head_only_writes :
    writes_head externals head_only
      (record { worker = some (accept (a_request 1 none) [] told_ready); log = [] })
    ≡ true
unfolding writes_head perform do_write_head write_head_step accept
head_only_writes = refl

serve_request-returning_example :
    (serve_request externals
        (returning (failed "fatal") head_only)
        (a_request 1 none)
        []
        told_ready
        []
      ≡ serve_request externals head_only (a_request 1 none) [] told_ready [])
    × Answered [] (a_request 1 none).stream_tx (a_request 1 none).done_tx told_ready.worker_id (
        serve_request externals
          (returning (failed "fatal") head_only)
          (a_request 1 none)
          []
          told_ready
          [])
serve_request-returning_example =
    serve_request-returning externals (failed "fatal") head_only (a_request 1 none) [] told_ready []
      refl head_only_writes

-- Eight calls run out of time on a worker that hangs before it takes the first task.
abbrev hanging : List LinkEvent
hanging =
    execute 1
    ∷ time_out
    ∷ execute 2
    ∷ time_out
    ∷ execute 3
    ∷ time_out
    ∷ execute 4
    ∷ time_out
    ∷ execute 5
    ∷ time_out
    ∷ execute 6
    ∷ time_out
    ∷ execute 7
    ∷ time_out
    ∷ execute 8
    ∷ time_out
    ∷ []

hanging_end :
    ((run_link hanging new_link).awaited ≡ none)
    × ((execute_streaming 9 (run_link hanging new_link)).0 ≡ blocked)
unfolding run_link step_link execute_streaming on_time_out
hanging_end = (refl, refl)

run_link-blocked_example : 8 ≤ (run_link hanging new_link).timeouts
run_link-blocked_example = run_link-blocked hanging 9 hanging_end.0 hanging_end.1

-- A worker that is terminated while PHP runs task 1, whose call has run out of time, and task 2 is in
-- the channel.
abbrev given_up : List LinkEvent
given_up = execute 1 ∷ take_task ∷ time_out ∷ execute 2 ∷ time_out ∷ []

-- PHP gets through task 1 and takes task 2.
abbrev going_on : List LinkEvent
going_on = leave ∷ finish_task ∷ take_task ∷ leave ∷ []

still_there :
    ((run_link going_on (closed_after given_up)).alive ≡ true)
    × (tasks (closed_after given_up) ≡ 1 ∷ 2 ∷ [])
    × (run_finished going_on (closed_after given_up) ≡ 1 ∷ [])
    × (ending (run_link going_on (closed_after given_up)) ≡ finish_task ∷ leave ∷ [])
unfolding run_link step_link execute_streaming terminate on_time_out on_take on_finish on_leave
    run_finished
still_there = (refl, refl, refl, refl)

terminate-joins_example :
    (run_finished going_on (closed_after given_up)
        ++ tasks (run_link going_on (closed_after given_up))
      ≡ tasks (closed_after given_up))
    × ((has_returned (waits_after given_up) (run_link going_on (closed_after given_up)) ≡ false)
        ⊎ (run_finished going_on (closed_after given_up) ≡ tasks (closed_after given_up)))
    × (has_returned (waits_after given_up) (
          run_link
            (ending (run_link going_on (closed_after given_up)))
            (run_link going_on (closed_after given_up)))
        ≡ true)
    × (run_finished
          (ending (run_link going_on (closed_after given_up)))
          (run_link going_on (closed_after given_up))
        ≡ tasks (run_link going_on (closed_after given_up)))
terminate-joins_example =
    terminate-joins given_up going_on (refl, (refl, (refl, (refl, (refl, tt)))))
      (refl, (refl, (refl, (refl, tt))))

-- The handler reads two bytes, and answers.
abbrev reading : Php
reading = call (call_read 2) (λ r. stop (value (Value.bool true)))

abbrev upload : TaskRequest
upload = a_request 3 (some (RequestBody.raw ((1 ∷ 2 ∷ 3 ∷ []) ∷ [])))

abbrev after_reading : WorkerState
after_reading = record (accept upload [] answering) {
  current_body = some (RequestBody.raw []);
  current_body_leftover = 3 ∷ [];
}

reading_run :
    run_php externals reading (record { worker = some (accept upload [] answering); log = [] })
    ≡ (value (Value.bool true), record { worker = some after_reading; log = [] })
unfolding run_php perform do_read accept
reading_run = refl
