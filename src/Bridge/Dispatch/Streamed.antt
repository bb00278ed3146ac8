-- ===== src/Bridge/Dispatch/Streamed.antt =====
-- What becomes of a handler's result in bridge.rs once it has begun to stream.
use folk_core.Base.{Option-cases, inl, inr, ◌≡◌, refl, ap, ◌∙◌, true, Option, none, some, List}
use folk_core.Bridge.Dispatch.Contract.{Answered, serve_request-Answered}
use folk_core.Bridge.State.{TaskRequest, WorkerState, Event, Bridge, accept}
use folk_core.Bridge.Dispatch.{
  Externals, Php, stop, call, Returned, run_php, perform, finalise, serve_request,
}
use folk_core.Bridge.Dispatch.Decided.{Decided, writes_head, writes_head-Decided}

-- The handler that makes the same calls, and then ends with `r`.
pub returning : Returned → Php → Php
returning r (stop result) = stop r
returning r (call action next) = call action (λ reply. returning r (next reply))

run_php-returning :
    (x : Externals) (r : Returned) (php : Php) (b : Bridge)
    → run_php x (returning r php) b ≡ (r, (run_php x php b).1)
unfolding run_php returning
run_php-returning x r (stop result) b = refl
run_php-returning x r (call action next) b =
    run_php-returning x r (next (perform x action b).0) (perform x action b).1

finalise-started :
    (x : Externals) (r r' : Returned) (b : Bridge) (s : WorkerState)
    → b.worker ≡ some s
    → s.stream_started ≡ true
    → finalise x r b ≡ finalise x r' b
unfolding finalise
finalise-started x r r' b s e started = elim (Option-cases s.current_stream_tx) [
  | inl t ↦ rw (e, started, t, finalise) refl
  | inr (tx, t) ↦ rw (e, started, t, finalise) refl
]

finalise-ended :
    (x : Externals) (r r' : Returned) (b : Bridge) (s : WorkerState)
    → b.worker ≡ some s
    → s.current_stream_tx ≡ none
    → finalise x r b ≡ finalise x r' b
unfolding finalise
finalise-ended x r r' b s e ended = rw (e, ended, finalise) refl

finalise-Decided :
    (x : Externals) (r r' : Returned) (b : Bridge)
    → Decided b.worker
    → finalise x r b ≡ finalise x r' b
unfolding finalise
finalise-Decided x r r' b h = go b.worker refl h
  where
    go : (w : Option WorkerState) → b.worker ≡ w → Decided w → finalise x r b ≡ finalise x r' b
    go none e h = rw (e, finalise) refl
    go (some s) e (inl started) = finalise-started x r r' b s e started
    go (some s) e (inr ended) = finalise-ended x r r' b s e ended

-- If a handler has written a head before its response has ended, whatever it calls before and after,
-- its result changes nothing: had it failed, or returned an error, in place of returning a value, the
-- worker and the events would be the very same. The response then is a complete one, on a worker
-- that has told that it is ready: it ends with one `End` and the done signal.
pub serve_request-returning :
    (x : Externals) (r : Returned) (php : Php) (req : TaskRequest) (rest : List TaskRequest)
    (s : WorkerState) (log : List Event)
    → s.ready_tx ≡ none
    → writes_head x php (record { worker = some (accept req rest s); log = log }) ≡ true
    → (serve_request x (returning r php) req rest s log ≡ serve_request x php req rest s log)
      × Answered log req.stream_tx req.done_tx s.worker_id
          (serve_request x (returning r php) req rest s log)
unfolding serve_request
serve_request-returning x r php req rest s log told head =
    let b : Bridge = record { worker = some (accept req rest s); log = log } in
    (
      ap (λ o. finalise x o.0 o.1) (run_php-returning x r php b)
          ∙ finalise-Decided x r (run_php x php b).0 (run_php x php b).1
              (writes_head-Decided x php b head),
      serve_request-Answered x (returning r php) req rest s log told,
    )
