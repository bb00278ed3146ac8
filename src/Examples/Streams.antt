-- ===== src/Examples/Streams.antt =====
-- Examples for crates/folk-ext/src/bridge.rs and for the loops that collect a stream of chunks.
use folk_core.Base.{
  ℕ, zero, suc, String, ◌≡◌, refl, true, false, Option, none, some, List, [], ◌∷◌, ◌++◌, arith,
  take,
}
use folk_core.Json.{Value}
use folk_core.Api.{Bytes, ResponseChunk, PartHead, RequestBody}
use folk_core.Pool.Stream.{ok, legacy, collect_stream, collect_stream_to_value}
use folk_core.Pool.Stream.Meaning.{
  collect_stream-meaning, collect_stream-to_value, collect_stream_cut,
}
use folk_core.Bridge.State.{TaskRequest, PartState, WorkerState, Event, Bridge, Result}
use folk_core.Bridge.Response.{parsed}
use folk_core.Bridge.Body.{do_read_all}
use folk_core.Bridge.Body.Reading.{reads, unread_by, reads-do_read_all}
use folk_core.Bridge.Multipart.Standing.{Part, encode, first}
use folk_core.Bridge.Multipart.Cursor.{Visit, visit, AllSeen, visit-AllSeen}
use folk_core.Bridge.Dispatch.{
  Externals, Php, stop, call, call_write_head, call_write, call_write_end, value, failed,
  run_dispatch_loop, directory_events,
}
use folk_core.Bridge.Dispatch.Contract.{
  Responses, ready_events, join_events, run_dispatch_loop-Responses,
}

-- A decoder for texts of one kind.
abbrev pub from_utf8_lossy : Bytes → String
from_utf8_lossy bytes = "text"

abbrev two_bodies : List ResponseChunk
two_bodies =
    ResponseChunk.headers 201 (("a", "b") ∷ [])
    ∷ ResponseChunk.body (1 ∷ [])
    ∷ ResponseChunk.body (2 ∷ 3 ∷ [])
    ∷ ResponseChunk.finish
    ∷ ResponseChunk.body (4 ∷ [])
    ∷ []

collect_stream-meaning_example :
    collect_stream from_utf8_lossy two_bodies
    ≡ ok (legacy from_utf8_lossy 201 (("a", "b") ∷ []) (1 ∷ 2 ∷ 3 ∷ []))
collect_stream-meaning_example = collect_stream-meaning from_utf8_lossy two_bodies

collect_stream-to_value_example :
    collect_stream from_utf8_lossy two_bodies ≡ collect_stream_to_value from_utf8_lossy two_bodies
collect_stream-to_value_example = collect_stream-to_value from_utf8_lossy two_bodies (omega arith)

collect_stream_cut_example :
    (v : Value) × (collect_stream from_utf8_lossy (take 2 two_bodies) ≡ ok v)
    × (collect_stream from_utf8_lossy (take 2 two_bodies ++ ResponseChunk.finish ∷ []) ≡ ok v)
collect_stream_cut_example = collect_stream_cut from_utf8_lossy two_bodies 2 refl

abbrev pub externals : Externals
externals = record {
  new_error = λ message. record { message = message; exception_class = none; stacktrace = none };
  from_slice = λ bytes. parsed Value.null;
  to_string = λ v. "value";
  project_root = some "/srv/app";
}

abbrev pub a_request : ℕ → Option RequestBody → TaskRequest
a_request n body = record {
  request_id = "id";
  method = "http.handle";
  payload = Value.null;
  stream_tx = n;
  done_tx = n;
  request_body = body;
}

abbrev pub worker_with : ℕ → List TaskRequest → Option RequestBody → WorkerState
worker_with id reqs body = record {
  worker_id = id;
  task_rx = reqs;
  ready_tx = some tt;
  current_stream_tx = some 1;
  current_done_tx = some 1;
  stream_started = false;
  current_request_id = some "id";
  current_body = body;
  current_body_leftover = [];
  current_part_state = PartState.before_first;
}

-- The first handler streams; the second one fails after the head, the others return a value.
abbrev pub handler : TaskRequest → Php
handler req = elim req.stream_tx [
  | suc zero ↦ call (call_write_head true 200 []) (λ r.
      call (call_write true (7 ∷ [])) (λ r. call call_write_end (λ r. stop (value Value.null))))
  | suc (suc zero) ↦ call (call_write_head false 200 []) (λ r. stop (failed "fatal"))
  | _ ↦ stop (value (Value.bool true))
]

abbrev pub three_requests : List TaskRequest
three_requests = a_request 1 none ∷ a_request 2 none ∷ a_request 3 none ∷ []

abbrev pub main_worker : WorkerState
main_worker = worker_with 1 three_requests none

abbrev pub at_work : WorkerState → Bridge
at_work s = record { worker = some s; log = [] }

run_dispatch_loop-Responses_example :
    (events : List Event) × ((run_dispatch_loop externals handler (at_work main_worker)).0
      ≡ Result.ok tt)
    × ((run_dispatch_loop externals handler (at_work main_worker)).1.log
        ≡ []
          ++ ready_events (some tt)
          ++ directory_events (some "/srv/app")
          ++ events
          ++ join_events 1)
    × Responses three_requests events
run_dispatch_loop-Responses_example =
    run_dispatch_loop-Responses externals handler (at_work main_worker) main_worker refl

abbrev uploading : Bridge
uploading =
    at_work (worker_with 2 [] (some (RequestBody.raw ((1 ∷ 2 ∷ 3 ∷ []) ∷ [] ∷ (4 ∷ []) ∷ []))))

reads-do_read_all_example :
    ((reads (2 ∷ 5 ∷ []) uploading).0 ++ (do_read_all (reads (2 ∷ 5 ∷ []) uploading).1).0
      ≡ unread_by uploading)
    × (unread_by (do_read_all (reads (2 ∷ 5 ∷ []) uploading).1).1 ≡ [])
reads-do_read_all_example = reads-do_read_all (2 ∷ 5 ∷ []) uploading

abbrev pub stalled : WorkerState
stalled = worker_with 2 [] (some (RequestBody.raw ([] ∷ (4 ∷ []) ∷ [])))

abbrev head_of : String → PartHead
head_of name = record {
  name = Value.string name;
  filename = Value.null;
  content_type = Value.string "text/plain";
}

abbrev two_parts : List Part
two_parts = (head_of "a", (1 ∷ 2 ∷ []) ∷ (3 ∷ []) ∷ []) ∷ (head_of "b", (4 ∷ []) ∷ []) ∷ []

abbrev form : WorkerState
form = worker_with 2 [] (some (RequestBody.parts (encode two_parts)))

-- One byte of the first part, the second part whole.
abbrev visits : List Visit
visits = record { lens = 1 ∷ []; finish = false } ∷ record { lens = []; finish = true } ∷ []

visit-AllSeen_example : AllSeen visits two_parts (visit visits form)
visit-AllSeen_example = visit-AllSeen visits two_parts [] form (first refl refl refl)
