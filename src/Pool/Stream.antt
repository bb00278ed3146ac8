-- ===== src/Pool/Stream.antt =====
-- `collect_stream` of crates/folk-core/src/worker_pool.rs and `collect_stream_to_value` of
-- crates/folk-ext/src/runtime.rs: the loops that turn a stream of chunks into one value. A stream
-- is the list of the chunks that arrive until its channel closes.
pub mod Meaning
use folk_core.Base.{ℕ, String, Option, none, some, List, [], ◌∷◌, ◌++◌}
use folk_core.Json.{Value, Number, Fields, insert}
use folk_core.Api.{Bytes, Headers, WorkerError, ResponseChunk}

pub data Collected : Type 0 where
  ok : Value → Collected
  err : WorkerError → Collected

-- The locals of the loops.
pub record Locals : Type 0 where
  pub status : ℕ
  pub headers : Headers
  pub body_bytes : Bytes
  pub return_value : Option Value

abbrev pub start : Locals
start = record { status = 200; headers = []; body_bytes = []; return_value = none }

-- `headers.into_iter().map(…).collect::<serde_json::Map<_, _>>()`
abbrev pub headers_map : Headers → Fields → Fields
headers_map [] m = m
headers_map ((k, v) ∷ rest) m = headers_map rest (insert k (Value.string v) m)

-- `String::from_utf8_lossy` is the parameter.
module _ (from_utf8_lossy : Bytes → String) where
  -- The value of `serde_json::json!`, whose map keeps its keys in order.
  abbrev pub legacy : ℕ → Headers → Bytes → Value
  legacy status headers bytes = Value.object (
      Fields.field "body" (Value.string (from_utf8_lossy bytes)) (
        Fields.field "headers" (Value.object (headers_map headers Fields.end))
          (Fields.field "status" (Value.number (Number.positive status)) Fields.end)))

  -- What follows the loop of `collect_stream`.
  abbrev pub collected : Locals → Collected
  collected l = elim l.return_value [
    | some value ↦ ok value
    | none ↦ ok (legacy l.status l.headers l.body_bytes)
  ]

  unfoldable pub drain : List ResponseChunk → Locals → Collected
  drain [] l = collected l
  drain (ResponseChunk.headers s h ∷ rest) l = drain rest (record l { status = s; headers = h })
  drain (ResponseChunk.body b ∷ rest) l = drain rest (record l { body_bytes = l.body_bytes ++ b })
  drain (ResponseChunk.return v ∷ rest) l = drain rest (record l { return_value = some v })
  drain (ResponseChunk.error e ∷ rest) l = err e
  drain (ResponseChunk.finish ∷ rest) l = collected l

  unfoldable pub collect_stream : List ResponseChunk → Collected
  unfolding drain
  collect_stream rx = drain rx start

  unfoldable pub drain_to_value : List ResponseChunk → Locals → Collected
  drain_to_value [] l = ok (legacy l.status l.headers l.body_bytes)
  drain_to_value (ResponseChunk.headers s h ∷ rest) l =
      drain_to_value rest (record l { status = s; headers = h })
  drain_to_value (ResponseChunk.body b ∷ rest) l =
      drain_to_value rest (record l { body_bytes = l.body_bytes ++ b })
  drain_to_value (ResponseChunk.return v ∷ rest) l = ok v
  drain_to_value (ResponseChunk.error e ∷ rest) l = err e
  drain_to_value (ResponseChunk.finish ∷ rest) l = ok (legacy l.status l.headers l.body_bytes)

  unfoldable pub collect_stream_to_value : List ResponseChunk → Collected
  unfolding drain_to_value
  collect_stream_to_value rx = drain_to_value rx start
