-- ===== src/Api.antt =====
-- The types of the crate folk_api that both crates exchange, with the constructors and fields that
-- the sources match on. Bytes are numbers below 256; a `HashMap` is its entries in iteration order.
use folk_core.Base.{ℕ, String, Option, List}
use folk_core.Json.{Value}

abbrev pub Bytes : Type 0
Bytes = List ℕ

abbrev pub Headers : Type 0
Headers = List (String × String)

pub record WorkerError : Type 0 where
  pub message : String
  pub exception_class : Option String
  pub stacktrace : Option String

pub data ResponseChunk : Type 0 where
  headers : ℕ → Headers → ResponseChunk
  body : Bytes → ResponseChunk
  return : Value → ResponseChunk
  error : WorkerError → ResponseChunk
  finish : ResponseChunk

-- The fields of `RequestPart::Start`, as `json!` reads them.
pub record PartHead : Type 0 where
  pub name : Value
  pub filename : Value
  pub content_type : Value

pub data RequestPart : Type 0 where
  start : PartHead → RequestPart
  chunk : Bytes → RequestPart
  part_end : RequestPart

-- A receiver is the messages that are still to come, until its channel closes.
pub data RequestBody : Type 0 where
  raw : List Bytes → RequestBody
  parts : List RequestPart → RequestBody
