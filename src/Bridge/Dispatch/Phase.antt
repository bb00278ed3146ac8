-- ===== src/Bridge/Dispatch/Phase.antt =====
-- Through the native calls of a handler, a response of bridge.rs is open or over.
use folk_core.Base.{
  ℕ, ◌≤◌, ◌≡◌, refl, String, none, some, List, [], ◌∷◌, ◌++◌, map, append_assoc, append-nil,
  map-append, ◌∙◌, All, All-append, arith,
}
use folk_core.Json.{Value}
use folk_core.Api.{Bytes, ResponseChunk}
use folk_core.Pool.Stream.Meaning.{outcomes}
use folk_core.Bridge.State.{WorkerState, Event, sent, Bridge, Step, in_worker, ready_step, do_ready}
use folk_core.Bridge.Response.{
  send_step, send_error_step, write_head_step, write_step, write_end_step, do_send, do_send_error,
  do_write_head, do_write, do_write_end,
}
use folk_core.Bridge.Body.{in_worker_or_empty, read_step, read_all_step, do_read, do_read_all}
use folk_core.Bridge.Multipart.{
  do_next_part, next_part_step, part_read_step, part_read_all_step, do_part_read, do_part_read_all,
}
use folk_core.Bridge.Dispatch.{
  Action, call_ready, call_request_id, call_write_end, call_read_all, call_next_part,
  call_part_read_all, call_write_head, call_write, call_send, call_send_error, call_read,
  call_part_read, Externals, perform,
}
use folk_core.Bridge.Dispatch.Progress.{
  IsPlain, IsNotEnd, response, Progress, goes_on, ends, IsOpen, IsClosed, SameChannels,
  write_head-Progress, write-Progress, write_end-Progress, send_error-Progress, send-Progress,
  read-SameChannels, read_all-SameChannels, next_part-SameChannels, part_read-SameChannels,
  part_read_all-SameChannels,
}

-- The response on `tx` since the log was `start`: open with plain chunks so far, or over.
pub data Phase (start : List Event) (tx done_tx id : ℕ) (b : Bridge) : Type 0 where
  open_phase :
      (state : WorkerState)
      → b.worker ≡ some state
      → IsOpen tx done_tx state
      → state.worker_id ≡ id
      → (es : List ResponseChunk) → All IsPlain es
      → b.log ≡ start ++ map (sent tx) es
      → Phase start tx done_tx id b
  over_phase :
      (state : WorkerState)
      → b.worker ≡ some state
      → IsClosed state
      → state.worker_id ≡ id
      → (es : List ResponseChunk) → outcomes es ≤ 1
      → All IsNotEnd es
      → b.log ≡ start ++ response tx done_tx es
      → Phase start tx done_tx id b

abbrev KeepsWorker {ℓ} : {A : Type ℓ} → Step A → WorkerState → Type 0
KeepsWorker f s = (s.ready_tx ≡ none → (f s).1.ready_tx ≡ none) × ((f s).1.worker_id ≡ s.worker_id)

-- A call that finds the response over.
abbrev LeavesOver {ℓ} : {A : Type ℓ} → Step A → WorkerState → Type 0
LeavesOver f s =
    ((f s).1.current_stream_tx ≡ none) × ((f s).1.current_done_tx ≡ none) × ((f s).2 ≡ [])

pub plain-outcomes :
    (es fs : List ResponseChunk) → All IsPlain es → outcomes (es ++ fs) ≡ outcomes fs
plain-outcomes [] fs p = refl
plain-outcomes (ResponseChunk.headers s h ∷ es) fs p = plain-outcomes es fs p.1
plain-outcomes (ResponseChunk.body b ∷ es) fs p = plain-outcomes es fs p.1
plain-outcomes (ResponseChunk.return v ∷ es) fs p = absurd p.0
plain-outcomes (ResponseChunk.error e ∷ es) fs p = absurd p.0
plain-outcomes (ResponseChunk.finish ∷ es) fs p = absurd p.0

pub plain-IsNotEnd : (es : List ResponseChunk) → All IsPlain es → All IsNotEnd es
plain-IsNotEnd [] p = tt
plain-IsNotEnd (ResponseChunk.headers s h ∷ es) p = (tt, plain-IsNotEnd es p.1)
plain-IsNotEnd (ResponseChunk.body b ∷ es) p = (tt, plain-IsNotEnd es p.1)
plain-IsNotEnd (ResponseChunk.return v ∷ es) p = absurd p.0
plain-IsNotEnd (ResponseChunk.error e ∷ es) p = absurd p.0
plain-IsNotEnd (ResponseChunk.finish ∷ es) p = absurd p.0

module _ (start : List Event) (tx done_tx id : ℕ) where
  in_worker-open {ℓ} :
      {A : Type ℓ} (f : Step A) (b : Bridge) (s : WorkerState) (es : List ResponseChunk)
      → b.worker ≡ some s
      → IsOpen tx done_tx s
      → s.worker_id ≡ id
      → All IsPlain es
      → b.log ≡ start ++ map (sent tx) es
      → KeepsWorker f s
      → Progress tx done_tx (f s).1 (f s).2
      → Phase start tx done_tx id (in_worker f b).1
  in_worker-open f b s es e o i p l k (goes_on fs q t d v) =
      open_phase (f s).1 (rw e) (t, d, k.0 o.2) (k.1 ∙ i) (es ++ fs) (All-append IsPlain es fs p q)
        (rw e (rw (l, v) (simp (map-append, append_assoc))))
  in_worker-open f b s es e o i p l k (ends fs one q t d v) =
      over_phase (f s).1 (rw e) (t, d, k.0 o.2) (k.1 ∙ i) (es ++ fs)
        (omega (arith, plain-outcomes es fs p)) (All-append IsNotEnd es fs (plain-IsNotEnd es p) q)
        (rw e (rw (l, v) (simp (map-append, append_assoc))))

  in_worker-over {ℓ} :
      {A : Type ℓ} (f : Step A) (b : Bridge) (s : WorkerState) (es : List ResponseChunk)
      → b.worker ≡ some s
      → IsClosed s
      → s.worker_id ≡ id
      → outcomes es ≤ 1
      → All IsNotEnd es
      → b.log ≡ start ++ response tx done_tx es
      → KeepsWorker f s
      → LeavesOver f s
      → Phase start tx done_tx id (in_worker f b).1
  in_worker-over f b s es e c i one q l k v =
      over_phase (f s).1 (rw e) (v.0, v.1, k.0 c.2) (k.1 ∙ i) es one q
        (rw e (rw v.2 (append-nil b.log ∙ l)))

module _ (start : List Event) (tx done_tx id : ℕ) where
  -- A call of a function that only reads, at whatever phase.
  same-Phase :
      (b c : Bridge) (s t : WorkerState)
      → b.worker ≡ some s
      → c.worker ≡ some t
      → c.log ≡ b.log
      → SameChannels s t
      → Phase start tx done_tx id b
      → Phase start tx done_tx id c
  same-Phase b c s t e e' l same (open_phase s' at o i es p v) =
      open_phase t e' (ground arith) (ground arith) es p (l ∙ v)
  same-Phase b c s t e e' l same (over_phase s' at o i es one q v) =
      over_phase t e' (ground arith) (ground arith) es one q (l ∙ v)

  -- A call of a function over the worker's state.
  in_worker-Phase {ℓ} :
      {A : Type ℓ} (f : Step A) (b : Bridge)
      → ((s : WorkerState) → KeepsWorker f s)
      → ((s : WorkerState) → IsOpen tx done_tx s → Progress tx done_tx (f s).1 (f s).2)
      → ((s : WorkerState) → IsClosed s → LeavesOver f s)
      → Phase start tx done_tx id b
      → Phase start tx done_tx id (in_worker f b).1
  in_worker-Phase f b k g h (open_phase s at o i es p v) =
      in_worker-open start tx done_tx id f b s es at o i p v (k s) (g s o)
  in_worker-Phase f b k g h (over_phase s at c i es one q v) =
      in_worker-over start tx done_tx id f b s es at c i one q v (k s) (h s c)

  bytes-Phase :
      (f : WorkerState → Bytes × WorkerState) (b : Bridge)
      → ((s : WorkerState) → SameChannels s (f s).1)
      → Phase start tx done_tx id b
      → Phase start tx done_tx id (in_worker_or_empty f b).1
  bytes-Phase f b same (open_phase s at o i es p v) =
      same-Phase b _ s (f s).1 at (rw at) (rw at) (same s) (open_phase s at o i es p v)
  bytes-Phase f b same (over_phase s at c i es one q v) =
      same-Phase b _ s (f s).1 at (rw at) (rw at) (same s) (over_phase s at c i es one q v)

  next_part-Phase :
      (to_string : Value → String) (b : Bridge)
      → Phase start tx done_tx id b
      → Phase start tx done_tx id (do_next_part to_string b).1
  unfolding do_next_part
  next_part-Phase to_string b (open_phase s at o i es p v) =
      same-Phase b _ s (next_part_step s).1 at (rw at) (rw at) (next_part-SameChannels s)
        (open_phase s at o i es p v)
  next_part-Phase to_string b (over_phase s at c i es one q v) =
      same-Phase b _ s (next_part_step s).1 at (rw at) (rw at) (next_part-SameChannels s)
        (over_phase s at c i es one q v)

  -- Each native call of a handler keeps the response in a phase.
  pub perform-Phase :
      (x : Externals) (a : Action) (b : Bridge)
      → Phase start tx done_tx id b
      → Phase start tx done_tx id (perform x a b).1
  unfolding perform do_ready do_read do_write_end do_read_all do_part_read_all do_write_head
      do_write do_send do_send_error do_part_read
  perform-Phase x call_ready b =
      in_worker-Phase ready_step b (λ s. ground arith)
        (λ s o. goes_on [] tt (ground arith) (ground arith) (ground arith)) (λ s c. ground arith)
  perform-Phase x call_request_id b = λ p. p
  perform-Phase x call_write_end b =
      in_worker-Phase write_end_step b (λ s. ground arith)
        (λ s o. write_end-Progress tx done_tx s o) (λ s c. ground arith)
  perform-Phase x call_read_all b = bytes-Phase read_all_step b read_all-SameChannels
  perform-Phase x call_next_part b = next_part-Phase x.to_string b
  perform-Phase x call_part_read_all b = bytes-Phase part_read_all_step b part_read_all-SameChannels
  perform-Phase x (call_write_head received status headers) b =
      in_worker-Phase (write_head_step received status headers) b (λ s. ground arith)
        (λ s o. write_head-Progress tx done_tx s o received status headers) (λ s c. ground arith)
  perform-Phase x (call_write received input) b =
      in_worker-Phase (write_step received input) b (λ s. ground arith)
        (λ s o. write-Progress tx done_tx s o received input) (λ s c. ground arith)
  perform-Phase x (call_send input) b =
      in_worker-Phase (send_step x.new_error x.from_slice input) b (λ s. ground arith)
        (λ s o. send-Progress tx done_tx s o x.new_error x.from_slice input) (λ s c. ground arith)
  perform-Phase x (call_send_error message) b =
      in_worker-Phase (send_error_step x.new_error message) b (λ s. ground arith)
        (λ s o. send_error-Progress tx done_tx s o x.new_error message) (λ s c. ground arith)
  perform-Phase x (call_read len) b = bytes-Phase (read_step len) b (read-SameChannels len)
  perform-Phase x (call_part_read len) b =
      bytes-Phase (part_read_step len) b (part_read-SameChannels len)
