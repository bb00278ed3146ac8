-- ===== src/Bridge/Dispatch/Collected.antt =====
-- From the handler of bridge.rs to the caller of `execute_value` in worker_pool.rs, who collects the
-- stream of the request.
use folk_core.Base.{
  ℕ, ◌≡◌, refl, ap, ◌∙◌, String, false, Option, some, List, [], ◌∷◌, ◌++◌, is_some, ◌==◌, ==_self,
  if◌then◌else◌, Bool-cases, inl, inr,
}
use folk_core.Json.{get}
use folk_core.Api.{Bytes, ResponseChunk}
use folk_core.Pool.Stream.{Collected, ok, err, collect_stream, drain}
use folk_core.Bridge.State.{TaskRequest, WorkerState, Event, sent, accept}
use folk_core.Bridge.Response.{worker_error_from_value, answer}
use folk_core.Bridge.Dispatch.{
  Externals, Php, Returned, value, failed, run_php, finalise, serve_request, closing_events,
  signal_events, result_chunk,
}

-- The chunks that a log holds for a stream.
abbrev pub sent_to : ℕ → List Event → List ResponseChunk
sent_to tx [] = []
sent_to tx (sent t chunk ∷ es) = if t == tx then chunk ∷ sent_to tx es else sent_to tx es
sent_to tx (_ ∷ es) = sent_to tx es

-- What a handler's result means to the caller.
abbrev pub outcome : Externals → Returned → Collected
outcome x (value v) = if is_some (get "__error" v) then err (worker_error_from_value v) else ok v
outcome x (failed e) = err (x.new_error e)

module _ (from_utf8_lossy : Bytes → String) where
  collected_chunks :
      (x : Externals) (r : Returned) (rest : List ResponseChunk)
      → collect_stream from_utf8_lossy (result_chunk x r ∷ ResponseChunk.finish ∷ rest)
        ≡ outcome x r
  unfolding collect_stream drain answer
  collected_chunks x (failed e) rest = refl
  collected_chunks x (value v) rest = elim (Bool-cases (is_some (get "__error" v))) [
    | inl e ↦ rw (e, answer, if◌then◌else◌) refl
    | inr e ↦ rw (e, answer, if◌then◌else◌) refl
  ]

  collected_outcome :
      (x : Externals) (r : Returned) (tx : ℕ) (done_tx : Option ℕ)
      → collect_stream from_utf8_lossy
          (sent_to tx (closing_events x r false (some tx) ++ signal_events done_tx))
        ≡ outcome x r
  collected_outcome x r tx done_tx =
      ap (collect_stream from_utf8_lossy) chunks
      ∙ collected_chunks x r (sent_to tx (signal_events done_tx))
    where
      chunks :
          sent_to tx (closing_events x r false (some tx) ++ signal_events done_tx)
          ≡ result_chunk x r ∷ ResponseChunk.finish ∷ sent_to tx (signal_events done_tx)
      chunks = rw (==_self tx) refl

  -- A handler that answers by its result alone: what it returns is what the caller of
  -- `execute_value` gets, verbatim; a result with the key `__error`, or a fatal error, reaches the
  -- caller as that error.
  pub serve_request-outcome :
      (x : Externals) (php : Php) (req : TaskRequest) (rest : List TaskRequest) (s s' : WorkerState)
      (log : List Event) (r : Returned)
      → run_php x php (record { worker = some (accept req rest s); log = log })
        ≡ (r, record { worker = some s'; log = log })
      → s'.stream_started ≡ false
      → s'.current_stream_tx ≡ some req.stream_tx
      → (events : List Event) × ((serve_request x php req rest s log).log ≡ log ++ events)
        × (collect_stream from_utf8_lossy (sent_to req.stream_tx events) ≡ outcome x r)
  unfolding serve_request finalise
  serve_request-outcome x php req rest s s' log r ran fresh pending = (
    closing_events x r false (some req.stream_tx) ++ signal_events s'.current_done_tx,
    ap (λ o. (finalise x o.0 o.1).log) ran ∙ rw (fresh, pending) refl,
    collected_outcome x r req.stream_tx s'.current_done_tx,
  )
