-- ===== src/Bridge/Dispatch/Contract.antt =====
-- What the dispatch loop of bridge.rs promises to the consumer of a response.
use folk_core.Base.{
  ℕ, ◌≤◌, ◌≡◌, refl, Bool, true, false, Option, none, some, List, [], ◌∷◌, ◌++◌, All, All-append,
  append_assoc, append-nil, sym, ◌∙◌, map-append, arith, ◌==◌, if◌then◌else◌,
}
use folk_core.Api.{ResponseChunk}
use folk_core.Pool.Stream.Meaning.{outcomes}
use folk_core.Bridge.State.{
  TaskRequest, WorkerState, Event, ready, joined_workers, Bridge, ok, accept, ready_step,
  clear_request,
}
use folk_core.Bridge.Dispatch.{
  Externals, Php, stop, call, Returned, value, failed, perform, run_php, finalise, result_chunk,
  closing_events, signal_events, serve_request, dispatch_loop, run_dispatch_loop, directory_events,
}
use folk_core.Bridge.Dispatch.Progress.{IsNotEnd, response, IsClosed, answer-IsOutcome}
use folk_core.Bridge.Dispatch.Phase.{
  Phase, open_phase, over_phase, perform-Phase, plain-outcomes, plain-IsNotEnd,
}

run_php-Phase :
    (start : List Event) (tx done_tx id : ℕ) (x : Externals) (php : Php) (b : Bridge)
    → Phase start tx done_tx id b
    → Phase start tx done_tx id (run_php x php b).1
unfolding run_php
run_php-Phase start tx done_tx id x (stop result) b p = p
run_php-Phase start tx done_tx id x (call action next) b p =
    run_php-Phase start tx done_tx id x (next (perform x action b).0) (perform x action b).1
      (perform-Phase start tx done_tx id x action b p)

result_chunk-IsOutcome :
    (x : Externals) (r : Returned)
    → (outcomes (result_chunk x r ∷ []) ≡ 1) × IsNotEnd (result_chunk x r)
result_chunk-IsOutcome x (value v) = answer-IsOutcome v
result_chunk-IsOutcome x (failed e) = (refl, tt)

-- A response that is over: plain chunks and at most one that decides it, then `End` and the signal.
pub record Answered (start : List Event) (tx done_tx id : ℕ) (b : Bridge) : Type 0 where
  pub state : WorkerState
  pub at : b.worker ≡ some state
  pub closed : IsClosed state
  pub same_id : state.worker_id ≡ id
  pub chunks : List ResponseChunk
  pub decided_once : outcomes chunks ≤ 1
  pub no_end : All IsNotEnd chunks
  pub logged : b.log ≡ start ++ response tx done_tx chunks

-- The chunks that the loop adds to an open response.
abbrev closing_chunks : Externals → Returned → Bool → List ResponseChunk
closing_chunks x r true = []
closing_chunks x r false = result_chunk x r ∷ []

closing_chunks-fit :
    (x : Externals) (r : Returned) (started : Bool)
    → (outcomes (closing_chunks x r started) ≤ 1) × All IsNotEnd (closing_chunks x r started)
closing_chunks-fit x r true = (omega arith, tt)
closing_chunks-fit x r false =
    let (one, fits) = result_chunk-IsOutcome x r in (omega (arith, one), (fits, tt))

closing_events-open :
    (x : Externals) (r : Returned) (started : Bool) (tx done_tx : ℕ)
    → closing_events x r started (some tx) ++ signal_events (some done_tx)
      ≡ response tx done_tx (closing_chunks x r started)
closing_events-open x r true tx done_tx = refl
closing_events-open x r false tx done_tx = refl

finalise-Answered :
    (start : List Event) (tx done_tx id : ℕ) (x : Externals) (r : Returned) (b : Bridge)
    → Phase start tx done_tx id b
    → Answered start tx done_tx id (finalise x r b)
unfolding finalise
finalise-Answered start tx done_tx id x r b (open_phase s e o i es p l) =
    let last = closing_chunks x r s.stream_started in
    let (one, fits) = closing_chunks-fit x r s.stream_started in
    record {
      state = clear_request (record s { current_stream_tx = none; current_done_tx = none });
      at = rw e;
      closed = (refl, refl, o.2);
      same_id = i;
      chunks = es ++ last;
      decided_once = omega (arith, plain-outcomes es last p, one);
      no_end = All-append IsNotEnd es last (plain-IsNotEnd es p) fits;
      logged =
          rw (e, l, o.0, o.1)
            (rw (closing_events-open x r s.stream_started tx done_tx)
              (simp (map-append, append_assoc)));
    }
finalise-Answered start tx done_tx id x r b (over_phase s e c i es one q l) = record {
  state = clear_request (record s { current_stream_tx = none; current_done_tx = none });
  at = rw e;
  closed = (refl, refl, c.2);
  same_id = i;
  chunks = es;
  decided_once = one;
  no_end = q;
  logged = rw (e, c.0, c.1) (append-nil b.log ∙ l);
}

pub serve_request-Answered :
    (x : Externals) (php : Php) (req : TaskRequest) (rest : List TaskRequest) (s : WorkerState)
    (log : List Event)
    → s.ready_tx ≡ none
    → Answered log req.stream_tx req.done_tx s.worker_id (serve_request x php req rest s log)
unfolding serve_request accept
serve_request-Answered x php req rest s log e =
    finalise-Answered log req.stream_tx req.done_tx s.worker_id x
      (run_php x php (record { worker = some (accept req rest s); log = log })).0 _
      (run_php-Phase log req.stream_tx req.done_tx s.worker_id x php _
        (open_phase (accept req rest s) refl (refl, refl, e) refl [] tt (sym (append-nil log))))

-- The sends for a list of requests, a response for each, in the order of the requests.
abbrev pub Responses : List TaskRequest → List Event → Type 0
Responses [] events = events ≡ []
Responses (req ∷ rest) events =
    (chunks : List ResponseChunk) × (later : List Event) × (events
      ≡ response req.stream_tx req.done_tx chunks ++ later)
    × (outcomes chunks ≤ 1)
    × All IsNotEnd chunks
    × Responses rest later

-- The main thread joins the worker threads when its channel closes.
abbrev pub join_events : ℕ → List Event
join_events id = if id == 1 then joined_workers ∷ [] else []

dispatch_loop-Responses :
    (x : Externals) (handler : TaskRequest → Php) (reqs : List TaskRequest) (b : Bridge)
    (s : WorkerState)
    → b.worker ≡ some s
    → s.ready_tx ≡ none
    → (events : List Event) × ((dispatch_loop x handler reqs b).0 ≡ ok tt)
      × ((dispatch_loop x handler reqs b).1.log ≡ b.log ++ events ++ join_events s.worker_id)
      × Responses reqs events
unfolding dispatch_loop
dispatch_loop-Responses x handler [] b s e r =
    ([], rw (e, dispatch_loop), ground (arith, append-nil b.log), refl)
dispatch_loop-Responses x handler (req ∷ rest) b s e r =
    let a = serve_request-Answered x (handler req) req rest s b.log r in
    let (later, done, l, more) =
      dispatch_loop-Responses x handler rest (serve_request x (handler req) req rest s b.log)
        a.state a.at a.closed.2 in
    (
      response req.stream_tx req.done_tx a.chunks ++ later,
      rw e done,
      rw e (l ∙ rw (a.logged, a.same_id) (simp append_assoc)),
      (a.chunks, later, refl, a.decided_once, a.no_end, more),
    )

-- The readiness signal, unless PHP has sent it before.
abbrev pub ready_events : Option (Unit {0}) → List Event
ready_events none = []
ready_events (some tx) = ready ∷ []

ready_step-fields :
    (s : WorkerState)
    → ((ready_step s).1.ready_tx ≡ none)
      × ((ready_step s).2 ≡ ready_events s.ready_tx)
      × ((ready_step s).1.worker_id ≡ s.worker_id)
unfolding ready_step
ready_step-fields s = ground arith

-- Whatever the PHP function does on each request, the dispatch loop ends without an error when its
-- channel closes, having told that the worker is ready and restored the directory first; and it
-- has answered each request of the channel in order, with chunks of which at most one is a returned
-- value or an error, then one `End`, then one done signal, and nothing between the responses. Only
-- worker 1 joins the worker threads at the end.
pub run_dispatch_loop-Responses :
    (x : Externals) (handler : TaskRequest → Php) (b : Bridge) (s : WorkerState)
    → b.worker ≡ some s
    → (events : List Event) × ((run_dispatch_loop x handler b).0 ≡ ok tt)
      × ((run_dispatch_loop x handler b).1.log
          ≡ b.log
            ++ ready_events s.ready_tx
            ++ directory_events x.project_root
            ++ events
            ++ join_events s.worker_id)
      × Responses s.task_rx events
unfolding run_dispatch_loop
run_dispatch_loop-Responses x handler b s e =
    let (off, events, id) = ready_step-fields s in
    let log = b.log ++ (ready_step s).2 ++ directory_events x.project_root in
    let (answers, fine, logged, each) =
      dispatch_loop-Responses x handler s.task_rx
        (record { worker = some (ready_step s).1; log = log }) (ready_step s).1 refl off in
    (
      answers,
      rw (e, run_dispatch_loop) fine,
      rw (e, run_dispatch_loop) (logged ∙ rw (events, id)),
      each,
    )
