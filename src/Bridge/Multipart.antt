-- ===== src/Bridge/Multipart.antt =====
-- The multipart cursor of crates/folk-ext/src/bridge.rs: `do_next_part`, `do_part_read` and
-- `do_part_read_all`. The channel of a multipart body is the list of its messages to come.
pub mod Standing
pub mod Cursor
use folk_core.Base.{ℕ, String, Option, none, some, List, [], ◌∷◌, ◌++◌}
use folk_core.Json.{Value, Fields}
use folk_core.Api.{Bytes, RequestBody, RequestPart, PartHead}
use folk_core.Bridge.State.{WorkerState, Bridge, PartState, before_first, in_part, part_ended, done}
use folk_core.Bridge.Body.{in_worker_or_empty, take_leftover}

-- The loop that drops what is left of a part: what follows its `End`, or `none` where another part
-- starts or the channel closes first. A start is taken from the channel with that.
unfoldable pub skip_part : List RequestPart → Option (List RequestPart) × List RequestPart
skip_part [] = (none, [])
skip_part (RequestPart.chunk _ ∷ rest) = skip_part rest
skip_part (RequestPart.part_end ∷ rest) = (some rest, rest)
skip_part (RequestPart.start _ ∷ rest) = (none, rest)

abbrev pub with_parts : List RequestPart → PartState → Bytes → WorkerState → WorkerState
with_parts rx part leftover state = record state {
  current_body = some (RequestBody.parts rx);
  current_part_state = part;
  current_body_leftover = leftover;
}

-- The value of `serde_json::json!`.
abbrev pub head_value : PartHead → Value
head_value head = Value.object (
    Fields.field "name" head.name (
      Fields.field "filename" head.filename
        (Fields.field "content_type" head.content_type Fields.end)))

-- Reading the next part's header.
unfoldable pub next_head : List RequestPart → WorkerState → Option PartHead × WorkerState
next_head [] state = (none, with_parts [] done [] state)
next_head (RequestPart.start head ∷ rest) state = (some head, with_parts rest in_part [] state)
next_head (RequestPart.chunk _ ∷ rest) state = (none, with_parts rest done [] state)
next_head (RequestPart.part_end ∷ rest) state = (none, with_parts rest done [] state)

unfoldable pub advance : PartState → List RequestPart → WorkerState → Option PartHead × WorkerState
advance done rx state = (none, state)
advance in_part rx state =
    let (after, left) = skip_part rx in
    elim after [ none ↦ (none, with_parts left done [] state) | some rest ↦ next_head rest state ]
advance before_first rx state = next_head rx state
advance part_ended rx state = next_head rx state

unfoldable pub next_part_on : Option RequestBody → WorkerState → Option PartHead × WorkerState
next_part_on (some (RequestBody.parts rx)) state = advance state.current_part_state rx state
next_part_on (some (RequestBody.raw rx)) state = (none, state)
next_part_on none state = (none, state)

unfoldable pub next_part_step : WorkerState → Option PartHead × WorkerState
next_part_step state = next_part_on state.current_body state

-- The text of a JSON value is the parameter.
module _ (to_string : Value → String) where
  abbrev head_text : Option PartHead → Option String
  head_text none = none
  head_text (some head) = some (to_string (head_value head))

  unfoldable pub do_next_part : Bridge → Option String × Bridge
  do_next_part b = elim b.worker [
    | none ↦ (none, b)
    | some state ↦
        let (head, state') = next_part_step state in
        (head_text head, record b { worker = some state' })
  ]

-- With an empty leftover: the next message of the current part.
unfoldable pub part_refill : ℕ → Option RequestBody → WorkerState → Bytes × WorkerState
part_refill len (some (RequestBody.parts [])) state = ([], with_parts [] done [] state)
part_refill len (some (RequestBody.parts (RequestPart.chunk bytes ∷ rest))) state =
    take_leftover len (with_parts rest state.current_part_state bytes state)
part_refill len (some (RequestBody.parts (RequestPart.part_end ∷ rest))) state =
    ([], with_parts rest part_ended [] state)
part_refill len (some (RequestBody.parts (RequestPart.start _ ∷ rest))) state =
    ([], with_parts rest done [] state)
part_refill len (some (RequestBody.raw rx)) state = ([], state)
part_refill len none state = ([], state)

unfoldable pub part_read_in : ℕ → WorkerState → Bytes × WorkerState
part_read_in len state = elim state.current_body_leftover [
  | [] ↦ part_refill len state.current_body state
  | _ ↦ take_leftover len state
]

unfoldable pub part_read_step : ℕ → WorkerState → Bytes × WorkerState
part_read_step len state = elim state.current_part_state [
  | in_part ↦ part_read_in len state
  | _ ↦ ([], state)
]

unfoldable pub do_part_read : ℕ → Bridge → Bytes × Bridge
do_part_read len = in_worker_or_empty (part_read_step len)

-- The loop that reads a part to its end: its bytes, how it ended, and the messages behind it.
unfoldable pub drain_part : List RequestPart → Bytes × PartState × List RequestPart
drain_part [] = ([], done, [])
drain_part (RequestPart.chunk bytes ∷ rest) =
    let (more, part, left) = drain_part rest in (bytes ++ more, part, left)
drain_part (RequestPart.part_end ∷ rest) = ([], part_ended, rest)
drain_part (RequestPart.start _ ∷ rest) = ([], done, rest)

unfoldable pub part_drain : Option RequestBody → WorkerState → Bytes × WorkerState
part_drain (some (RequestBody.parts rx)) state =
    let (bytes, part, left) = drain_part rx in
    (state.current_body_leftover ++ bytes, with_parts left part [] state)
part_drain (some (RequestBody.raw rx)) state =
    (state.current_body_leftover, record state { current_body_leftover = [] })
part_drain none state = (state.current_body_leftover, record state { current_body_leftover = [] })

unfoldable pub part_read_all_step : WorkerState → Bytes × WorkerState
part_read_all_step state = elim state.current_part_state [
  | in_part ↦ part_drain state.current_body state
  | _ ↦ ([], state)
]

unfoldable pub do_part_read_all : Bridge → Bytes × Bridge
do_part_read_all = in_worker_or_empty part_read_all_step
