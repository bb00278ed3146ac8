-- ===== src/Bridge/Response.antt =====
-- The functions of crates/folk-ext/src/bridge.rs that answer a request: `do_send`, `do_send_error`,
-- `do_write_head`, `do_write`, `do_write_end` and `worker_error_from_value`. Whether a chunk finds
-- its receiver is an argument where the function looks at it.
use Prim.Native.String.{◌++◌ as str_append}
use folk_core.Base.{
  ℕ, String, Bool, true, Option, none, some, List, [], ◌∷◌, ◌++◌, is_some, is_empty, ◌>>=◌,
  if◌then◌else◌,
}
use folk_core.Json.{Value, get, as_str}
use folk_core.Api.{Bytes, Headers, WorkerError, ResponseChunk}
use folk_core.Bridge.State.{
  Event, sent, signalled, Bridge, no_pending_request, no_pending_done, head_twice, client_gone,
  malformed_json, Result, ok, err, Step, in_worker, clear_request,
}

abbrev pub or_text : Option String → String → String
or_text (some s) d = s
or_text none d = d

unfoldable pub worker_error_from_value : Value → WorkerError
worker_error_from_value value = record {
  message = or_text (get "__error" value >>= as_str) "worker error";
  exception_class = get "__error_class" value >>= as_str;
  stacktrace = get "__error_trace" value >>= as_str;
}

-- A returned value as a chunk: verbatim, or as an error if it has the key `__error`.
unfoldable pub answer : Value → ResponseChunk
answer value =
    if is_some (get "__error" value)
    then ResponseChunk.error (worker_error_from_value value)
    else ResponseChunk.return value

-- `serde_json::from_slice`: a value, or the text of the error.
pub data Parsed : Type 0 where
  parsed : Value → Parsed
  malformed : String → Parsed

-- `WorkerError::new` and `serde_json::from_slice` are the parameters.
module _ (new_error : String → WorkerError) (from_slice : Bytes → Parsed) where
  unfoldable pub send_step : Bytes → Step (Unit {0})
  send_step input state = elim state.current_stream_tx [
    | none ↦ (err no_pending_request, state, [])
    | some tx ↦
        let taken = record state { current_stream_tx = none } in
        elim state.current_done_tx [
          | none ↦ (err no_pending_done, taken, [])
          | some done_tx ↦
              let cleared = clear_request (record taken { current_done_tx = none }) in
              let ending = sent tx ResponseChunk.finish ∷ signalled done_tx ∷ [] in
              elim (from_slice input) [
                | parsed value ↦ (ok tt, cleared, sent tx (answer value) ∷ ending)
                | malformed e ↦ (
                  err malformed_json,
                  cleared,
                  sent tx (
                        ResponseChunk.error
                          (new_error (str_append "PHP returned malformed JSON: " e)))
                      ∷ ending,
                )
              ]
        ]
  ]

  unfoldable pub do_send : Bytes → Bridge → Result (Unit {0}) × Bridge
  unfolding send_step
  do_send input = in_worker (send_step input)

abbrev pub error_events : WorkerError → Option ℕ → List Event
error_events e none = []
error_events e (some tx) = sent tx (ResponseChunk.error e) ∷ sent tx ResponseChunk.finish ∷ []

abbrev pub done_events : Option ℕ → List Event
done_events none = []
done_events (some done_tx) = signalled done_tx ∷ []

module _ (new_error : String → WorkerError) where
  unfoldable pub send_error_step : String → Step (Unit {0})
  send_error_step message state = (
    ok tt,
    clear_request (record state { current_stream_tx = none; current_done_tx = none }),
    error_events (new_error message) state.current_stream_tx ++ done_events state.current_done_tx,
  )

  unfoldable pub do_send_error : String → Bridge → Result (Unit {0}) × Bridge
  unfolding send_error_step
  do_send_error message = in_worker (send_error_step message)

-- `stream_started` is set before the send, which may fail.
unfoldable pub write_head_step : Bool → ℕ → Headers → Step (Unit {0})
write_head_step received status headers state = elim state.current_stream_tx [
  | none ↦ (err no_pending_request, state, [])
  | some tx ↦ if state.stream_started then (err head_twice, state, []) else (
    if received then ok tt else err client_gone,
    record state { stream_started = true },
    sent tx (ResponseChunk.headers status headers) ∷ [],
  )
]

unfoldable pub do_write_head : Bool → ℕ → Headers → Bridge → Result (Unit {0}) × Bridge
unfolding write_head_step
do_write_head received status headers = in_worker (write_head_step received status headers)

unfoldable pub write_step : Bool → Bytes → Step (Unit {0})
write_step received input state = elim state.current_stream_tx [
  | none ↦ (err no_pending_request, state, [])
  | some tx ↦ if is_empty input then (ok tt, state, []) else (
    if received then ok tt else err client_gone,
    state,
    sent tx (ResponseChunk.body input) ∷ [],
  )
]

unfoldable pub do_write : Bool → Bytes → Bridge → Result (Unit {0}) × Bridge
unfolding write_step
do_write received input = in_worker (write_step received input)

unfoldable pub write_end_step : Step (Unit {0})
write_end_step state = elim state.current_stream_tx [
  | none ↦ (err no_pending_request, state, [])
  | some tx ↦
      let taken = record state { current_stream_tx = none } in
      elim state.current_done_tx [
        | none ↦ (err no_pending_done, taken, [])
        | some done_tx ↦ (
          ok tt,
          clear_request (record taken { current_done_tx = none }),
          sent tx ResponseChunk.finish ∷ signalled done_tx ∷ [],
        )
      ]
]

unfoldable pub do_write_end : Bridge → Result (Unit {0}) × Bridge
unfolding write_end_step
do_write_end = in_worker write_end_step
