-- ===== src/Bridge/Dispatch/Progress.antt =====
-- What one native call of bridge.rs does to the response of the request in hand.
use folk_core.Base.{
  ℕ, ◌≤◌, ◌≡◌, inl, inr, refl, Bool, Option, none, some, List, [], ◌∷◌, ◌++◌, map, All, String,
  is_empty, is_some, arith, Bool-cases, Option-cases, if◌then◌else◌,
}
use Prim.Native.String.{◌++◌ as str_append}
use folk_core.Json.{Value, get}
use folk_core.Api.{Bytes, Headers, WorkerError, ResponseChunk, RequestBody, RequestPart}
use folk_core.Pool.Stream.Meaning.{outcomes}
use folk_core.Bridge.State.{WorkerState, Event, sent, signalled, PartState}
use folk_core.Bridge.Response.{
  Parsed, parsed, malformed, answer, send_step, send_error_step, write_head_step, write_step,
  write_end_step,
}
use folk_core.Bridge.Body.{read_step, read_all_step, refill_and_take, take_leftover}
use folk_core.Bridge.Multipart.{
  next_part_step, next_part_on, advance, next_head, skip_part, part_read_step, part_read_in,
  part_refill, part_read_all_step, part_drain,
}

-- A chunk that neither decides nor ends a response.
abbrev pub IsPlain : ResponseChunk → Type 0
IsPlain (ResponseChunk.headers s h) = Unit
IsPlain (ResponseChunk.body b) = Unit
IsPlain _ = ⊥

abbrev pub IsNotEnd : ResponseChunk → Type 0
IsNotEnd ResponseChunk.finish = ⊥
IsNotEnd _ = Unit

-- The sends of a response that is over: `End` on the stream, then the done signal, once each.
abbrev pub response : ℕ → ℕ → List ResponseChunk → List Event
response tx done_tx es = map (sent tx) es ++ (sent tx ResponseChunk.finish ∷ signalled done_tx ∷ [])

-- A call made while the response is open keeps it open, having sent plain chunks, or ends it.
pub data Progress (tx done_tx : ℕ) (state : WorkerState) (events : List Event) : Type 0 where
  goes_on :
      (es : List ResponseChunk)
      → All IsPlain es
      → state.current_stream_tx ≡ some tx
      → state.current_done_tx ≡ some done_tx
      → events ≡ map (sent tx) es
      → Progress tx done_tx state events
  ends :
      (es : List ResponseChunk)
      → outcomes es ≤ 1
      → All IsNotEnd es
      → state.current_stream_tx ≡ none
      → state.current_done_tx ≡ none
      → events ≡ response tx done_tx es
      → Progress tx done_tx state events

abbrev pub IsOpen : ℕ → ℕ → WorkerState → Type 0
IsOpen tx done_tx state =
    (state.current_stream_tx ≡ some tx)
    × (state.current_done_tx ≡ some done_tx)
    × (state.ready_tx ≡ none)

abbrev pub IsClosed : WorkerState → Type 0
IsClosed state =
    (state.current_stream_tx ≡ none) × (state.current_done_tx ≡ none) × (state.ready_tx ≡ none)

module _ (tx done_tx : ℕ) (state : WorkerState) (held : IsOpen tx done_tx state) where
  pub write_head-Progress :
      (received : Bool) (status : ℕ) (headers : Headers)
      → let r = write_head_step received status headers state in Progress tx done_tx r.1 r.2
  unfolding write_head_step
  write_head-Progress received status headers =
      goes_on (if state.stream_started then [] else ResponseChunk.headers status headers ∷ [])
        (ground arith) (ground arith) (ground arith) (ground arith)

  pub write-Progress :
      (received : Bool) (input : Bytes)
      → let r = write_step received input state in Progress tx done_tx r.1 r.2
  unfolding write_step
  write-Progress received input =
      goes_on (if is_empty input then [] else ResponseChunk.body input ∷ []) (ground arith)
        (ground arith) (ground arith) (ground arith)

  pub write_end-Progress : let r = write_end_step state in Progress tx done_tx r.1 r.2
  unfolding write_end_step
  write_end-Progress = ends [] (omega arith) tt (ground arith) (ground arith) (ground arith)

  pub send_error-Progress :
      (new_error : String → WorkerError) (message : String)
      → let r = send_error_step new_error message state in Progress tx done_tx r.1 r.2
  unfolding send_error_step
  send_error-Progress new_error message =
      ends (ResponseChunk.error (new_error message) ∷ []) (omega arith) (tt, tt) (ground arith)
        (ground arith) (ground arith)

pub answer-IsOutcome : (v : Value) → (outcomes (answer v ∷ []) ≡ 1) × IsNotEnd (answer v)
unfolding answer
answer-IsOutcome v = elim (Bool-cases (is_some (get "__error" v))) [
  | inl e ↦ rw (e, answer) (refl, tt)
  | inr e ↦ rw (e, answer) (refl, tt)
]

-- The chunk that `do_send` makes of what it was given.
abbrev send_chunk : (String → WorkerError) → Parsed → ResponseChunk
send_chunk new_error (parsed v) = answer v
send_chunk new_error (malformed e) =
    ResponseChunk.error (new_error (str_append "PHP returned malformed JSON: " e))

send_chunk-IsOutcome :
    (new_error : String → WorkerError) (p : Parsed)
    → (outcomes (send_chunk new_error p ∷ []) ≡ 1) × IsNotEnd (send_chunk new_error p)
send_chunk-IsOutcome new_error (parsed v) = answer-IsOutcome v
send_chunk-IsOutcome new_error (malformed e) = (refl, tt)

module _ (tx done_tx : ℕ) (state : WorkerState) (held : IsOpen tx done_tx state) where
  pub send-Progress :
      (new_error : String → WorkerError) (from_slice : Bytes → Parsed) (input : Bytes)
      → let r = send_step new_error from_slice input state in Progress tx done_tx r.1 r.2
  unfolding send_step
  send-Progress new_error from_slice input =
      let (one, fits) = send_chunk-IsOutcome new_error (from_slice input) in
      ends (send_chunk new_error (from_slice input) ∷ []) (omega (arith, one)) (fits, tt)
        (ground arith) (ground arith) (ground arith)

-- What a call leaves alone when it only reads the request.
abbrev pub SameChannels : WorkerState → WorkerState → Type 0
SameChannels s t =
    (t.current_stream_tx ≡ s.current_stream_tx)
    × (t.current_done_tx ≡ s.current_done_tx)
    × (t.ready_tx ≡ s.ready_tx)
    × (t.worker_id ≡ s.worker_id)
    × (t.current_request_id ≡ s.current_request_id)
    × (t.stream_started ≡ s.stream_started)

refill-SameChannels :
    (len : ℕ) (o : Option RequestBody) (s : WorkerState)
    → SameChannels s (refill_and_take len o s).1
unfolding refill_and_take
refill-SameChannels len (some (RequestBody.raw (c ∷ rest))) s = (refl, refl, refl, refl, refl, refl)
refill-SameChannels len o s = (refl, refl, refl, refl, refl, refl)

pub read-SameChannels : (len : ℕ) (s : WorkerState) → SameChannels s (read_step len s).1
unfolding read_step
read-SameChannels len s = ground (arith, refill-SameChannels len s.current_body s)

pub read_all-SameChannels : (s : WorkerState) → SameChannels s (read_all_step s).1
unfolding read_all_step
read_all-SameChannels s = (refl, refl, refl, refl, refl, refl)

next_head-SameChannels :
    (rx : List RequestPart) (s : WorkerState) → SameChannels s (next_head rx s).1
unfolding next_head
next_head-SameChannels (RequestPart.start h ∷ rx) s = (refl, refl, refl, refl, refl, refl)
next_head-SameChannels (_ ∷ rx) s = (refl, refl, refl, refl, refl, refl)
next_head-SameChannels [] s = (refl, refl, refl, refl, refl, refl)

advance-SameChannels :
    (p : PartState) (rx : List RequestPart) (s : WorkerState) → SameChannels s (advance p rx s).1
unfolding advance
advance-SameChannels PartState.before_first rx s = next_head-SameChannels rx s
advance-SameChannels PartState.in_part rx s = elim (Option-cases (skip_part rx).0) [
  | inl e ↦ rw (e, advance) (refl, refl, refl, refl, refl, refl)
  | inr (rest, e) ↦ rw (e, advance) (next_head-SameChannels rest s)
]
advance-SameChannels PartState.part_ended rx s = next_head-SameChannels rx s
advance-SameChannels PartState.done rx s = (refl, refl, refl, refl, refl, refl)

next_part_on-SameChannels :
    (o : Option RequestBody) (s : WorkerState) → SameChannels s (next_part_on o s).1
unfolding next_part_on
next_part_on-SameChannels (some (RequestBody.parts rx)) s =
    advance-SameChannels s.current_part_state rx s
next_part_on-SameChannels (some (RequestBody.raw rx)) s = (refl, refl, refl, refl, refl, refl)
next_part_on-SameChannels none s = (refl, refl, refl, refl, refl, refl)

pub next_part-SameChannels : (s : WorkerState) → SameChannels s (next_part_step s).1
unfolding next_part_step
next_part-SameChannels s = next_part_on-SameChannels s.current_body s

pub part_read-SameChannels : (len : ℕ) (s : WorkerState) → SameChannels s (part_read_step len s).1
unfolding part_read_step part_read_in part_refill take_leftover
part_read-SameChannels len s = ground arith

pub part_read_all-SameChannels : (s : WorkerState) → SameChannels s (part_read_all_step s).1
unfolding part_read_all_step part_drain
part_read_all-SameChannels s = ground arith
