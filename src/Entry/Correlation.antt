-- ===== src/Entry/Correlation.antt =====
-- What `folk_request_id` of crates/folk-ext/src/lib.rs tells a handler, and the native calls of
-- crates/folk-ext/src/bridge.rs on the way.
use folk_core.Base.{
  ◌≡◌, ◌⊎◌, inl, inr, refl, ap, ◌∙◌, String, Option, none, some, List, [], ◌∷◌, ◌++◌, All,
  All-append, arith, Bool, true, false, is_some, if◌then◌else◌,
}
use folk_core.Json.{Value}
use folk_core.Api.{Bytes}
use folk_core.Bridge.State.{
  TaskRequest, WorkerState, Event, Bridge, Step, in_worker, ready_step, do_ready,
  current_request_id, accept,
}
use folk_core.Bridge.Response.{
  send_step, send_error_step, write_head_step, write_step, write_end_step, do_send, do_send_error,
  do_write_head, do_write, do_write_end,
}
use folk_core.Bridge.Body.{in_worker_or_empty, read_step, read_all_step, do_read, do_read_all}
use folk_core.Bridge.Multipart.{
  do_next_part, next_part_step, part_read_step, part_read_all_step, do_part_read, do_part_read_all,
}
use folk_core.Bridge.Dispatch.{
  Action, call_ready, call_request_id, call_write_end, call_read_all, call_next_part,
  call_part_read_all, call_write_head, call_write, call_send, call_send_error, call_read,
  call_part_read, Externals, Php, Returned, stop, call, perform, run_php, finalise, serve_request,
}
use folk_core.Bridge.Dispatch.Progress.{
  SameChannels, read-SameChannels, read_all-SameChannels, next_part-SameChannels,
  part_read-SameChannels, part_read_all-SameChannels,
}
use folk_core.Bridge.Dispatch.Decided.{is_pending}
use folk_core.Entry.{folk_request_id}

-- What a call of `folk_request_id` finds: whether the response is still pending, and its answer.
abbrev answered : Action → Bridge → List (Bool × String)
answered call_request_id b = (is_pending b, folk_request_id b) ∷ []
answered _ b = []

-- What `folk_request_id` answers while a handler runs.
unfoldable pub told : Externals → Php → Bridge → List (Bool × String)
told x (stop result) b = []
told x (call action next) b =
    let (reply, b') = perform x action b in answered action b ++ told x (next reply) b'

-- The identifier while the response is pending, and the empty text once it has ended.
abbrev pub IsTold : String → Bool × String → Type 0
IsTold id (pending, answer) = answer ≡ (if pending then id else "")

-- The worker holds the channels and the identifier of a request, or none of them.
abbrev Tells : String → WorkerState → Type 0
Tells id s =
    ((is_some s.current_stream_tx ≡ true)
      × (is_some s.current_done_tx ≡ true)
      × (s.current_request_id ≡ some id))
    ⊎ ((is_some s.current_stream_tx ≡ false)
        × (is_some s.current_done_tx ≡ false)
        × (s.current_request_id ≡ none))

abbrev HasId : String → Option WorkerState → Type 0
HasId id none = Unit
HasId id (some s) = Tells id s

Tells-same : (id : String) (s t : WorkerState) → SameChannels s t → Tells id s → Tells id t
Tells-same id s t same (inl (open_tx, open_done, e)) =
    inl (ap is_some same.0 ∙ open_tx, ap is_some same.1 ∙ open_done, same.4 ∙ e)
Tells-same id s t same (inr (no_tx, no_done, e)) =
    inr (ap is_some same.0 ∙ no_tx, ap is_some same.1 ∙ no_done, same.4 ∙ e)

module _ (id : String) where
  in_worker-HasId {ℓ} :
      {A : Type ℓ} (f : Step A) (b : Bridge)
      → ((s : WorkerState) → Tells id s → Tells id (f s).1)
      → HasId id b.worker
      → HasId id (in_worker f b).1.worker
  in_worker-HasId f b keeps = go b.worker
    where
      go :
          (w : Option WorkerState)
          → HasId id w
          → HasId id (in_worker f (record b { worker = w })).1.worker
      go none h = h
      go (some s) h = keeps s h

  bytes-HasId :
      (f : WorkerState → Bytes × WorkerState) (b : Bridge)
      → ((s : WorkerState) → SameChannels s (f s).1)
      → HasId id b.worker
      → HasId id (in_worker_or_empty f b).1.worker
  bytes-HasId f b same = go b.worker
    where
      go :
          (w : Option WorkerState)
          → HasId id w
          → HasId id (in_worker_or_empty f (record b { worker = w })).1.worker
      go none h = h
      go (some s) h = Tells-same id s (f s).1 (same s) h

  next_part-HasId :
      (to_string : Value → String) (b : Bridge)
      → HasId id b.worker
      → HasId id (do_next_part to_string b).1.worker
  unfolding do_next_part
  next_part-HasId to_string b = go b.worker
    where
      go :
          (w : Option WorkerState)
          → HasId id w
          → HasId id (do_next_part to_string (record b { worker = w })).1.worker
      go none h = h
      go (some s) h = Tells-same id s (next_part_step s).1 (next_part-SameChannels s) h

  perform-HasId :
      (x : Externals) (a : Action) (b : Bridge)
      → HasId id b.worker
      → HasId id (perform x a b).1.worker
  unfolding perform do_ready do_read do_write_end do_read_all do_part_read_all do_write_head
      do_write do_send do_send_error do_part_read ready_step write_end_step write_head_step
      write_step send_step send_error_step
  perform-HasId x call_ready b = in_worker-HasId ready_step b (λ s h. ground arith)
  perform-HasId x call_request_id b = λ h. h
  perform-HasId x call_write_end b = in_worker-HasId write_end_step b (λ s h. ground arith)
  perform-HasId x call_read_all b = bytes-HasId read_all_step b read_all-SameChannels
  perform-HasId x call_next_part b = next_part-HasId x.to_string b
  perform-HasId x call_part_read_all b = bytes-HasId part_read_all_step b part_read_all-SameChannels
  perform-HasId x (call_write_head received status headers) b =
      in_worker-HasId (write_head_step received status headers) b (λ s h. ground arith)
  perform-HasId x (call_write received input) b =
      in_worker-HasId (write_step received input) b (λ s h. ground arith)
  perform-HasId x (call_send input) b =
      in_worker-HasId (send_step x.new_error x.from_slice input) b (λ s h. ground arith)
  perform-HasId x (call_send_error message) b =
      in_worker-HasId (send_error_step x.new_error message) b (λ s h. inr (refl, refl, refl))
  perform-HasId x (call_read len) b = bytes-HasId (read_step len) b (read-SameChannels len)
  perform-HasId x (call_part_read len) b =
      bytes-HasId (part_read_step len) b (part_read-SameChannels len)

  answered-IsTold : (a : Action) (b : Bridge) → HasId id b.worker → All (IsTold id) (answered a b)
  unfolding folk_request_id current_request_id
  answered-IsTold call_request_id b h = (go b.worker h, tt)
    where
      go :
          (w : Option WorkerState)
          → HasId id w
          → let c = record b { worker = w } in IsTold id (is_pending c, folk_request_id c)
      go none h = refl
      go (some s) (inl (pending, more, e)) = rw (e, pending, if◌then◌else◌) refl
      go (some s) (inr (ended, more, e)) = rw (e, ended, if◌then◌else◌) refl
  answered-IsTold _ b h = tt

  told-IsTold :
      (x : Externals) (php : Php) (b : Bridge) → HasId id b.worker → All (IsTold id) (told x php b)
  unfolding told
  told-IsTold x (stop result) b h = tt
  told-IsTold x (call action next) b h =
      let (reply, b') = perform x action b in
      All-append (IsTold id) (answered action b) (told x (next reply) b')
        (answered-IsTold action b h) (told-IsTold x (next reply) b' (perform-HasId x action b h))

finalise-none : (x : Externals) (r : Returned) (b : Bridge) → folk_request_id (finalise x r b) ≡ ""
unfolding finalise folk_request_id current_request_id
finalise-none x r b = go b.worker
  where
    go : (w : Option WorkerState) → folk_request_id (finalise x r (record b { worker = w })) ≡ ""
    go none = refl
    go (some s) = refl

-- While the handler of a request runs, whatever it calls, `folk_request_id` answers the identifier
-- of this request as long as the response is pending, and the empty text once a call has ended it; the
-- first native call of the handler is told the identifier, and after the request there is none.
pub serve_request-ids :
    (x : Externals) (php : Php) (req : TaskRequest) (rest : List TaskRequest) (s : WorkerState)
    (log : List Event)
    → let b : Bridge = record { worker = some (accept req rest s); log = log } in
      (folk_request_id b ≡ req.request_id)
      × All (IsTold req.request_id) (told x php b)
      × (folk_request_id (serve_request x php req rest s log) ≡ "")
unfolding serve_request folk_request_id current_request_id accept
serve_request-ids x php req rest s log = (
  refl,
  told-IsTold req.request_id x php (record { worker = some (accept req rest s); log = log })
      (inl (refl, refl, refl)),
  (let (result, b) = run_php x php (record { worker = some (accept req rest s); log = log }) in
      finalise-none x result b),
)
