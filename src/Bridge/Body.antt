-- ===== src/Bridge/Body.antt =====
-- The streaming request body of crates/folk-ext/src/bridge.rs: `do_read` and `do_read_all`. The
-- channel of a body is the list of the chunks to come until it closes.
pub mod Reading
use folk_core.Base.{ℕ, Option, none, some, List, [], ◌∷◌, ◌++◌, take, drop, min, length, concat}
use folk_core.Api.{Bytes, RequestBody}
use folk_core.Bridge.State.{WorkerState, Bridge}

-- A native function that returns bytes, and nothing where there is no worker.
abbrev pub in_worker_or_empty : (WorkerState → Bytes × WorkerState) → Bridge → Bytes × Bridge
in_worker_or_empty f b = elim b.worker [
  | none ↦ ([], b)
  | some state ↦ let (bytes, state') = f state in (bytes, record b { worker = some state' })
]

-- `current_body_leftover.split_to(take).to_vec()`
unfoldable pub take_leftover : ℕ → WorkerState → Bytes × WorkerState
take_leftover len state =
    let n = min len (length state.current_body_leftover) in
    (
      take n state.current_body_leftover,
      record state { current_body_leftover = drop n state.current_body_leftover },
    )

-- With an empty leftover: the next chunk of a raw body.
unfoldable pub refill_and_take : ℕ → Option RequestBody → WorkerState → Bytes × WorkerState
unfolding take_leftover
refill_and_take len (some (RequestBody.raw (chunk ∷ rest))) state =
    take_leftover len
      (record state { current_body = some (RequestBody.raw rest); current_body_leftover = chunk })
refill_and_take len (some (RequestBody.raw [])) state = ([], state)
refill_and_take len (some (RequestBody.parts rx)) state = ([], state)
refill_and_take len none state = ([], state)

unfoldable pub read_step : ℕ → WorkerState → Bytes × WorkerState
unfolding refill_and_take
read_step len state = elim state.current_body_leftover [
  | [] ↦ refill_and_take len state.current_body state
  | _ ↦ take_leftover len state
]

unfoldable pub do_read : ℕ → Bridge → Bytes × Bridge
unfolding read_step
do_read len = in_worker_or_empty (read_step len)

-- The loop that drains a raw body.
unfoldable pub drain_raw : Option RequestBody → Bytes × Option RequestBody
drain_raw (some (RequestBody.raw chunks)) = (concat chunks, some (RequestBody.raw []))
drain_raw (some (RequestBody.parts rx)) = ([], some (RequestBody.parts rx))
drain_raw none = ([], none)

unfoldable pub read_all_step : WorkerState → Bytes × WorkerState
unfolding drain_raw
read_all_step state =
    let (bytes, body) = drain_raw state.current_body in
    (
      state.current_body_leftover ++ bytes,
      record state { current_body = body; current_body_leftover = [] },
    )

unfoldable pub do_read_all : Bridge → Bytes × Bridge
unfolding read_all_step
do_read_all = in_worker_or_empty read_all_step
