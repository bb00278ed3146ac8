-- ===== src/Bridge/State.antt =====
-- The state of crates/folk-ext/src/bridge.rs, its set-up, and the receipt of a request. A channel
-- that is only sent to is a number; one that is received from is the list of the messages to come.
-- `log` holds the sends that the thread has made, also those to a receiver that has gone.
use folk_core.Base.{ℕ, String, Bool, true, false, Option, none, some, List, [], ◌∷◌, ◌++◌, is_some}
use folk_core.Json.{Value}
use folk_core.Api.{Bytes, ResponseChunk, RequestBody}

pub record TaskRequest : Type 0 where
  pub request_id : String
  pub method : String
  pub payload : Value
  pub stream_tx : ℕ
  pub done_tx : ℕ
  pub request_body : Option RequestBody

pub data PartState : Type 0 where
  before_first in_part part_ended done : PartState

pub record WorkerState : Type 0 where
  pub worker_id : ℕ
  pub task_rx : List TaskRequest
  pub ready_tx : Option (Unit {0})
  pub current_stream_tx : Option ℕ
  pub current_done_tx : Option ℕ
  pub stream_started : Bool
  pub current_request_id : Option String
  pub current_body : Option RequestBody
  pub current_body_leftover : Bytes
  pub current_part_state : PartState

pub data Event : Type 0 where
  ready : Event
  sent : ℕ → ResponseChunk → Event
  signalled : ℕ → Event
  changed_directory : String → Event
  joined_workers : Event

-- The thread-local `WORKER`, and the log.
pub record Bridge : Type 0 where
  pub worker : Option WorkerState
  pub log : List Event

-- The texts of the errors.
pub data BridgeError : Type 0 where
  not_in_worker no_pending_request no_pending_done head_twice client_gone malformed_json :
      BridgeError

pub data Result {ℓ} (A : Type ℓ) : Type ℓ where
  ok : A → Result A
  err : BridgeError → Result A

-- What a native function does to the state of its worker, and the sends that it makes.
abbrev pub Step {ℓ} : Type ℓ → Type ℓ
Step A = WorkerState → Result A × WorkerState × List Event

-- `state.as_mut().ok_or("not in a worker thread")?`
abbrev pub in_worker {ℓ} : {A : Type ℓ} → Step A → Bridge → Result A × Bridge
in_worker f b = elim b.worker [
  | none ↦ (err not_in_worker, b)
  | some state ↦
      let (result, state', events) = f state in
      (result, record b { worker = some state'; log = b.log ++ events })
]

unfoldable pub init_worker_state : ℕ → List TaskRequest → Bridge → Bridge
init_worker_state worker_id task_rx b = record b {
  worker = some (record {
    worker_id = worker_id;
    task_rx = task_rx;
    ready_tx = some tt;
    current_stream_tx = none;
    current_done_tx = none;
    stream_started = false;
    current_request_id = none;
    current_body = none;
    current_body_leftover = [];
    current_part_state = before_first;
  });
}

unfoldable pub cleanup_worker_state : Bridge → Bridge
cleanup_worker_state b = record b { worker = none }

unfoldable pub has_worker_state : Bridge → Bool
has_worker_state b = is_some b.worker

unfoldable pub current_request_id : Bridge → Option String
current_request_id b = elim b.worker [ none ↦ none | some state ↦ state.current_request_id ]

unfoldable pub ready_step : Step Bool
ready_step state = elim state.ready_tx [
  | some tx ↦ (ok true, record state { ready_tx = none }, ready ∷ [])
  | none ↦ (ok false, state, [])
]

unfoldable pub do_ready : Bridge → Result Bool × Bridge
unfolding ready_step
do_ready = in_worker ready_step

-- The assignments that store a received request.
unfoldable pub accept : TaskRequest → List TaskRequest → WorkerState → WorkerState
accept req rest state = record state {
  task_rx = rest;
  current_request_id = some req.request_id;
  current_stream_tx = some req.stream_tx;
  current_done_tx = some req.done_tx;
  current_body = req.request_body;
  current_body_leftover = [];
  current_part_state = before_first;
  stream_started = false;
}

-- `serde_json::to_vec(…).unwrap_or_default()` is the parameter.
module _ (to_vec : Value → Bytes) where
  unfoldable pub recv_step : Step (Option (String × Bytes))
  recv_step state = elim state.task_rx [
    | [] ↦ (ok none, state, [])
    | req ∷ rest ↦ (ok (some (req.method, to_vec req.payload)), accept req rest state, [])
  ]

  unfoldable pub do_recv : Bridge → Result (Option (String × Bytes)) × Bridge
  unfolding recv_step
  do_recv = in_worker recv_step

-- The assignments by which each function that ends a request clears its traces.
abbrev pub clear_request : WorkerState → WorkerState
clear_request state = record state {
  current_request_id = none;
  stream_started = false;
  current_body = none;
  current_body_leftover = [];
  current_part_state = done;
}
