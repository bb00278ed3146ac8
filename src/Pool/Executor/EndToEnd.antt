-- ===== src/Pool/Executor/EndToEnd.antt =====
-- A call of `Executor` in worker_pool.rs from its caller to the PHP handler and back: through
-- `dispatch_streamed`, the task that `execute_streaming` of crates/folk-ext/src/runtime.rs makes of the
-- request, the dispatch loop of crates/folk-ext/src/bridge.rs and `collect_stream`.
use folk_core.Base.{ℕ, ◌≡◌, ap, ◌∙◌, String, true, false, none, some, List, [], ◌∷◌, All}
use folk_core.Json.{Value}
use folk_core.Api.{Bytes, ResponseChunk}
use folk_core.Pool.Stream.{Collected, ok, err, collect_stream}
use folk_core.Pool.Executor.{
  DispatchRequest, worker_error, Executed, done, failed, Outside, of_collected, dispatch_streamed,
  execute_value, execute_value_traced,
}
use folk_core.Bridge.State.{TaskRequest, WorkerState, Bridge, accept}
use folk_core.Bridge.Dispatch.{Externals, Php, Returned, run_php, serve_request}
use folk_core.Bridge.Dispatch.Collected.{sent_to, outcome, serve_request-outcome}
use folk_core.Entry.{folk_request_id}
use folk_core.Entry.Correlation.{IsTold, told, serve_request-ids}

-- The task that the worker's handle sends for a request.
unfoldable pub task_request : ℕ → DispatchRequest → TaskRequest
task_request done_tx req = record {
  request_id = req.request_id;
  method = req.method;
  payload = req.payload;
  stream_tx = req.stream_tx;
  done_tx = done_tx;
  request_body = req.request_body;
}

-- A result with the identifier of its request.
abbrev pub traced : String → Collected → Executed (Value × String)
traced id (ok v) = done (v, id)
traced id (err e) = failed (worker_error e)

-- The request that a call sends.
abbrev pub request_of : String → ℕ → String → Value → DispatchRequest
request_of id channel method payload = record {
  request_id = id;
  method = method;
  payload = payload;
  stream_tx = channel;
  permit = tt;
  request_body = none;
}

module _ (x : Externals) (handler : TaskRequest → Php) (done_tx : ℕ) (rest : List TaskRequest)
    (s : WorkerState) where
  -- The chunks by which the worker in state `s` answers a request.
  abbrev pub answers : DispatchRequest → List ResponseChunk
  answers req =
      let task = task_request done_tx req in
      sent_to req.stream_tx (serve_request x (handler task) task rest s []).log

  -- A pool that runs, and hands the request to that worker.
  abbrev pub connected : String → ℕ → Outside
  connected id channel = record {
    semaphore_open = true;
    now_v7 = id;
    channel = channel;
    task_alive = true;
    arriving = answers;
  }

  -- The state in which the handler starts.
  abbrev pub begun : DispatchRequest → Bridge
  begun req = record { worker = some (accept (task_request done_tx req) rest s); log = [] }

  module _ (from_utf8_lossy : Bytes → String) where
    -- The stream of a handler that answers by its result alone.
    answers-outcome :
        (req : DispatchRequest) (s' : WorkerState) (r : Returned)
        → run_php x (handler (task_request done_tx req)) (begun req)
          ≡ (r, record { worker = some s'; log = [] })
        → s'.stream_started ≡ false
        → s'.current_stream_tx ≡ some req.stream_tx
        → collect_stream from_utf8_lossy (answers req) ≡ outcome x r
    unfolding task_request
    answers-outcome req s' r ran fresh pending =
        let task = task_request done_tx req in
        let (events, logged, collected) =
          serve_request-outcome from_utf8_lossy x (handler task) task rest s s' [] r ran fresh
            pending in
        ap (λ es. collect_stream from_utf8_lossy (sent_to req.stream_tx es)) logged ∙ collected

    -- If the handler answers by its result alone, a call of the pool gets what the handler returns,
    -- verbatim, or its error; it has sent one request, with the method and payload of the call. A
    -- traced call also gets the identifier of the request, and this is the one that
    -- `folk_request_id` tells the handler whenever it asks while the response is pending.
    pub execute_value_traced-outcome :
        (id : String) (channel : ℕ) (method : String) (payload : Value) (s' : WorkerState)
        (r : Returned)
        → run_php x
            (handler (task_request done_tx (request_of id channel method payload)))
            (begun (request_of id channel method payload))
          ≡ (r, record { worker = some s'; log = [] })
        → s'.stream_started ≡ false
        → s'.current_stream_tx ≡ some channel
        → let o : Outside = connected id channel in
          let req : DispatchRequest = request_of id channel method payload in
          (execute_value from_utf8_lossy o method payload ≡ (of_collected (outcome x r), req ∷ []))
          × (execute_value_traced from_utf8_lossy o method payload
              ≡ (traced id (outcome x r), req ∷ []))
          × (folk_request_id (begun req) ≡ id)
          × All (IsTold id) (told x (handler (task_request done_tx req)) (begun req))
    unfolding execute_value execute_value_traced dispatch_streamed task_request
    execute_value_traced-outcome id channel method payload s' r ran fresh pending =
        let req : DispatchRequest = request_of id channel method payload in
        let task = task_request done_tx req in
        let same = answers-outcome req s' r ran fresh pending in
        let ids = serve_request-ids x (handler task) task rest s [] in
        (
          ap (λ c. (of_collected c, req ∷ [])) same,
          ap (λ c. (traced id c, req ∷ [])) same,
          ids.0,
          ids.1,
        )
