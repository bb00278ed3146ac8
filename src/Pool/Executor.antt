-- ===== src/Pool/Executor.antt =====
-- `WorkerPool` of crates/folk-core/src/worker_pool.rs as its callers see it: `trigger_reload`,
-- `dispatch_streamed` and the methods of `Executor`. The way of a request through the pool is
-- Pool.Flow; here it is what the call finds outside. Log lines are left out.
pub mod EndToEnd
use folk_core.Base.{ℕ, String, Bool, Option, none, some, List, [], ◌∷◌, if◌then◌else◌}
use folk_core.Json.{Value}
use folk_core.Api.{Bytes, WorkerError, ResponseChunk, RequestBody, RequestPart}
use folk_core.Slot.{Profile, add_one_u64}
use folk_core.Pool.Stream.{Collected, ok, err, collect_stream}

-- The permit holds no data.
pub record DispatchRequest : Type 0 where
  pub request_id : String
  pub method : String
  pub payload : Value
  pub stream_tx : ℕ
  pub permit : Unit {0}
  pub request_body : Option RequestBody

-- The contexts of the errors, and the worker's error.
pub data PoolError : Type 0 where
  semaphore_closed pool_task_gone payload_not_json response_not_json : PoolError
  worker_error : WorkerError → PoolError

pub data Executed {ℓ} (A : Type ℓ) : Type ℓ where
  done : A → Executed A
  failed : PoolError → Executed A

-- What a call finds: whether the semaphore is open, the identifier that `Uuid::now_v7` makes, the
-- number of its stream's channel, whether the pool task receives, and the chunks that arrive.
pub record Outside : Type 0 where
  pub semaphore_open : Bool
  pub now_v7 : String
  pub channel : ℕ
  pub task_alive : Bool
  pub arriving : DispatchRequest → List ResponseChunk

-- The result of a call, and the requests that it has put into the request channel.
abbrev pub Call : Type 0 → Type 0
Call A = Executed A × List DispatchRequest

abbrev pub after : {A : Type 0} → {B : Type 0} → Call A → (A → Executed B) → Call B
after (done a, sent) f = (f a, sent)
after (failed e, sent) f = (failed e, sent)

unfoldable pub dispatch_streamed :
    Outside → String → Value → Option RequestBody → Call (List ResponseChunk × String)
dispatch_streamed o method payload request_body =
    let req : DispatchRequest = record {
      request_id = o.now_v7;
      method = method;
      payload = payload;
      stream_tx = o.channel;
      permit = tt;
      request_body = request_body;
    } in
    if o.semaphore_open
    then if o.task_alive
      then (done (o.arriving req, o.now_v7), req ∷ [])
      else (failed pool_task_gone, [])
    else (failed semaphore_closed, [])

abbrev pub of_collected : Collected → Executed Value
of_collected (ok v) = done v
of_collected (err e) = failed (worker_error e)

-- `String::from_utf8_lossy` is the parameter.
module _ (from_utf8_lossy : Bytes → String) where
  unfoldable pub execute_value : Outside → String → Value → Call Value
  execute_value o method payload =
      after (dispatch_streamed o method payload none)
        (λ r. of_collected (collect_stream from_utf8_lossy r.0))

  unfoldable pub execute_value_traced : Outside → String → Value → Call (Value × String)
  execute_value_traced o method payload = after (dispatch_streamed o method payload none) (λ r.
      elim (collect_stream from_utf8_lossy r.0) [
        | ok v ↦ done (v, r.1)
        | err e ↦ failed (worker_error e)
      ])

  -- `serde_json::from_slice` and `serde_json::to_vec` are the parameters.
  module _ (from_slice : Bytes → Option Value) (to_vec : Value → Option Bytes) where
    abbrev pub serialize : Collected → Executed Bytes
    serialize (err e) = failed (worker_error e)
    serialize (ok v) = elim (to_vec v) [ none ↦ failed response_not_json | some bytes ↦ done bytes ]

    unfoldable pub execute_method : Outside → String → Bytes → Call Bytes
    execute_method o method payload = elim (from_slice payload) [
      | none ↦ (failed payload_not_json, [])
      | some value ↦
          after (dispatch_streamed o method value none)
            (λ r. serialize (collect_stream from_utf8_lossy r.0))
    ]

unfoldable pub execute_streamed : Outside → String → Value → Call (List ResponseChunk × String)
execute_streamed o method payload = dispatch_streamed o method payload none

unfoldable pub execute_streamed_with_body :
    Outside → String → Value → List Bytes → Call (List ResponseChunk × String)
execute_streamed_with_body o method payload body_rx =
    dispatch_streamed o method payload (some (RequestBody.raw body_rx))

unfoldable pub execute_streamed_with_parts :
    Outside → String → Value → List RequestPart → Call (List ResponseChunk × String)
execute_streamed_with_parts o method payload parts_rx =
    dispatch_streamed o method payload (some (RequestBody.parts parts_rx))

-- What a reload does to the outside: the call of `runtime.reload`, whose error is only a log line,
-- and the generation that the reload channel then holds.
pub data ReloadEvent : Type 0 where
  caches_invalidated : Bool → ReloadEvent
  generation_sent : ℕ → ReloadEvent

-- `*g += 1` on the generation, a u64; `none` is a panic.
unfoldable pub trigger_reload : Profile → Bool → ℕ → Option (ℕ × List ReloadEvent)
trigger_reload p reload_ok generation = elim (add_one_u64 p generation) [
  | none ↦ none
  | some g ↦ some (g, caches_invalidated reload_ok ∷ generation_sent g ∷ [])
]
