-- ===== src/Bridge/Dispatch.antt =====
-- `run_dispatch_loop` of crates/folk-ext/src/bridge.rs. The PHP function that it calls is a strategy:
-- native calls, each chosen by the replies so far, and a result. `folk_worker_recv`,
-- `folk_worker_run` and `folk_call` are not among the calls of a handler.
pub mod Progress
pub mod Phase
pub mod Contract
pub mod Decided
pub mod Streamed
pub mod Collected
use folk_core.Base.{
  ℕ, String, Bool, true, false, Option, none, some, List, [], ◌∷◌, ◌++◌, ◌==◌, if◌then◌else◌,
}
use folk_core.Json.{Value}
use folk_core.Api.{Bytes, Headers, WorkerError, ResponseChunk}
use folk_core.Bridge.State.{
  TaskRequest, WorkerState, Event, sent, signalled, changed_directory, joined_workers, Bridge,
  Result, ok, err, BridgeError, not_in_worker, do_ready, current_request_id, accept, clear_request,
  ready_step,
}
use folk_core.Bridge.Response.{
  Parsed, answer, do_send, do_send_error, do_write_head, do_write, do_write_end,
}
use folk_core.Bridge.Body.{do_read, do_read_all}
use folk_core.Bridge.Multipart.{do_next_part, do_part_read, do_part_read_all}

-- The native calls; the flag of a write says whether its chunk finds a receiver.
pub data Action : Type 0 where
  call_ready call_request_id call_write_end call_read_all call_next_part call_part_read_all : Action
  call_write_head : Bool → ℕ → Headers → Action
  call_write : Bool → Bytes → Action
  call_send : Bytes → Action
  call_send_error : String → Action
  call_read call_part_read : ℕ → Action

pub data Reply : Type 0 where
  nothing : Result (Unit {0}) → Reply
  flag : Result Bool → Reply
  bytes : Bytes → Reply
  text : Option String → Reply

-- `call_dispatch`: a value, or the text of an error.
pub data Returned : Type 0 where
  value : Value → Returned
  failed : String → Returned

pub data Php : Type 0 where
  stop : Returned → Php
  call : Action → (Reply → Php) → Php

-- What the crates behind the bridge provide.
pub record Externals : Type 0 where
  pub new_error : String → WorkerError
  pub from_slice : Bytes → Parsed
  pub to_string : Value → String
  pub project_root : Option String

abbrev replied {ℓ} : {A : Type ℓ} → (A → Reply) → A × Bridge → Reply × Bridge
replied f (a, b) = (f a, b)

unfoldable pub perform : Externals → Action → Bridge → Reply × Bridge
perform x call_ready b = replied flag (do_ready b)
perform x call_request_id b = (text (current_request_id b), b)
perform x call_write_end b = replied nothing (do_write_end b)
perform x call_read_all b = replied bytes (do_read_all b)
perform x call_next_part b = replied text (do_next_part x.to_string b)
perform x call_part_read_all b = replied bytes (do_part_read_all b)
perform x (call_write_head received status headers) b =
    replied nothing (do_write_head received status headers b)
perform x (call_write received input) b = replied nothing (do_write received input b)
perform x (call_send input) b = replied nothing (do_send x.new_error x.from_slice input b)
perform x (call_send_error message) b = replied nothing (do_send_error x.new_error message b)
perform x (call_read len) b = replied bytes (do_read len b)
perform x (call_part_read len) b = replied bytes (do_part_read len b)

-- The call of the PHP function.
unfoldable pub run_php : Externals → Php → Bridge → Returned × Bridge
run_php x (stop result) b = (result, b)
run_php x (call action next) b = let (reply, b') = perform x action b in run_php x (next reply) b'

abbrev pub result_chunk : Externals → Returned → ResponseChunk
result_chunk x (value v) = answer v
result_chunk x (failed e) = ResponseChunk.error (x.new_error e)

-- The chunks that the loop itself sends when the handler is back.
abbrev pub closing_events : Externals → Returned → Bool → Option ℕ → List Event
closing_events x result started none = []
closing_events x result true (some tx) = sent tx ResponseChunk.finish ∷ []
closing_events x result false (some tx) =
    sent tx (result_chunk x result) ∷ sent tx ResponseChunk.finish ∷ []

abbrev pub signal_events : Option ℕ → List Event
signal_events none = []
signal_events (some done_tx) = signalled done_tx ∷ []

-- The block behind `call_dispatch`.
unfoldable pub finalise : Externals → Returned → Bridge → Bridge
finalise x result b = elim b.worker [
  | none ↦ b
  | some state ↦ record b {
    worker =
        some (clear_request (record state { current_stream_tx = none; current_done_tx = none }));
    log =
        b.log
        ++ (closing_events x result state.stream_started state.current_stream_tx
            ++ signal_events state.current_done_tx);
  }
]

-- One round of the loop on the request at the head of the channel.
unfoldable pub serve_request :
    Externals → Php → TaskRequest → List TaskRequest → WorkerState → List Event → Bridge
serve_request x php req rest state log =
    let (result, b) = run_php x php (record { worker = some (accept req rest state); log = log }) in
    finalise x result b

-- The rounds, over the requests that the channel holds until it closes. The PHP function is chosen
-- by what it is called with.
unfoldable pub dispatch_loop :
    Externals → (TaskRequest → Php) → List TaskRequest → Bridge → Result (Unit {0}) × Bridge
dispatch_loop x handler [] b = elim b.worker [
  | none ↦ (err not_in_worker, b)
  | some state ↦
      (ok tt, if state.worker_id == 1 then record b { log = b.log ++ joined_workers ∷ [] } else b)
]
dispatch_loop x handler (req ∷ rest) b = elim b.worker [
  | none ↦ (err not_in_worker, b)
  | some state ↦ dispatch_loop x handler rest (serve_request x (handler req) req rest state b.log)
]

abbrev pub directory_events : Option String → List Event
directory_events none = []
directory_events (some root) = changed_directory root ∷ []

unfoldable pub run_dispatch_loop :
    Externals → (TaskRequest → Php) → Bridge → Result (Unit {0}) × Bridge
run_dispatch_loop x handler b = elim b.worker [
  | none ↦ (err not_in_worker, b)
  | some state ↦
      let (told, state', events) = ready_step state in
      dispatch_loop x handler state.task_rx (record b {
        worker = some state';
        log = b.log ++ events ++ directory_events x.project_root;
      })
]
