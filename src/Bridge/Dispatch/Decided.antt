-- ===== src/Bridge/Dispatch/Decided.antt =====
-- A handler of bridge.rs that has written a head: nothing that it calls later undoes the start of its
-- stream before the response has ended.
use folk_core.Base.{
  ℕ, Bool-cases, inl, inr, ◌⊎◌, ◌≡◌, refl, sym, ap, ◌∙◌, Bool, true, false, Option, none, some,
  ◌||◌, is_some, arith, String,
}
use mathlib.Core.Bool.{false≢true}
use folk_core.Json.{Value}
use folk_core.Api.{Bytes, Headers}
use folk_core.Bridge.Response.{
  send_step, send_error_step, write_head_step, write_step, write_end_step, do_send, do_send_error,
  do_write_head, do_write, do_write_end,
}
use folk_core.Bridge.Body.{in_worker_or_empty, read_step, read_all_step, do_read, do_read_all}
use folk_core.Bridge.Multipart.{
  do_next_part, next_part_step, part_read_step, part_read_all_step, do_part_read, do_part_read_all,
}
use folk_core.Bridge.Dispatch.{
  Action, call_ready, call_request_id, call_write_end, call_read_all, call_next_part,
  call_part_read_all, call_write_head, call_write, call_send, call_send_error, call_read,
  call_part_read,
}
use folk_core.Bridge.Dispatch.Progress.{
  SameChannels, read-SameChannels, read_all-SameChannels, next_part-SameChannels,
  part_read-SameChannels, part_read_all-SameChannels,
}
use folk_core.Bridge.State.{WorkerState, Bridge, Step, in_worker, ready_step, do_ready}
use folk_core.Bridge.Dispatch.{Externals, Php, stop, call, run_php, perform}

-- Whether the response of the request in hand has not ended.
abbrev pub is_pending : Bridge → Bool
is_pending b = elim b.worker [ none ↦ false | some s ↦ is_some s.current_stream_tx ]

-- Whether a run of the handler writes a head while its response is pending.
unfoldable pub writes_head : Externals → Php → Bridge → Bool
writes_head x (stop result) b = false
writes_head x (call action next) b =
    let (reply, b') = perform x action b in
    let later = writes_head x (next reply) b' in
    elim action [ call_write_head received status headers ↦ is_pending b || later | _ ↦ later ]

-- The stream of the worker has begun with a head, or is over.
abbrev pub IsDecided : WorkerState → Type 0
IsDecided s = (s.stream_started ≡ true) ⊎ (s.current_stream_tx ≡ none)

abbrev pub Decided : Option WorkerState → Type 0
Decided none = Unit
Decided (some s) = IsDecided s

in_worker-Decided {ℓ} :
    {A : Type ℓ} (f : Step A) (b : Bridge)
    → ((s : WorkerState) → IsDecided s → IsDecided (f s).1)
    → Decided b.worker
    → Decided (in_worker f b).1.worker
in_worker-Decided f b keeps = go b.worker
  where
    go :
        (w : Option WorkerState)
        → Decided w
        → Decided (in_worker f (record b { worker = w })).1.worker
    go none h = h
    go (some s) h = keeps s h

IsDecided-same : (s t : WorkerState) → SameChannels s t → IsDecided s → IsDecided t
IsDecided-same s t same (inl started) = inl (same.5 ∙ started)
IsDecided-same s t same (inr ended) = inr (same.0 ∙ ended)

bytes-Decided :
    (f : WorkerState → Bytes × WorkerState) (b : Bridge)
    → ((s : WorkerState) → SameChannels s (f s).1)
    → Decided b.worker
    → Decided (in_worker_or_empty f b).1.worker
bytes-Decided f b same = go b.worker
  where
    go :
        (w : Option WorkerState)
        → Decided w
        → Decided (in_worker_or_empty f (record b { worker = w })).1.worker
    go none h = h
    go (some s) h = IsDecided-same s (f s).1 (same s) h

next_part-Decided :
    (to_string : Value → String) (b : Bridge)
    → Decided b.worker
    → Decided (do_next_part to_string b).1.worker
unfolding do_next_part
next_part-Decided to_string b = go b.worker
  where
    go :
        (w : Option WorkerState)
        → Decided w
        → Decided (do_next_part to_string (record b { worker = w })).1.worker
    go none h = h
    go (some s) h = IsDecided-same s (next_part_step s).1 (next_part-SameChannels s) h

perform-Decided :
    (x : Externals) (a : Action) (b : Bridge) → Decided b.worker → Decided (perform x a b).1.worker
unfolding perform do_ready do_read do_write_end do_read_all do_part_read_all do_write_head do_write
    do_send do_send_error do_part_read ready_step write_end_step write_head_step write_step
    send_step send_error_step
perform-Decided x call_ready b = in_worker-Decided ready_step b (λ s h. ground arith)
perform-Decided x call_request_id b = λ h. h
perform-Decided x call_write_end b = in_worker-Decided write_end_step b (λ s h. ground arith)
perform-Decided x call_read_all b = bytes-Decided read_all_step b read_all-SameChannels
perform-Decided x call_next_part b = next_part-Decided x.to_string b
perform-Decided x call_part_read_all b =
    bytes-Decided part_read_all_step b part_read_all-SameChannels
perform-Decided x (call_write_head received status headers) b =
    in_worker-Decided (write_head_step received status headers) b (λ s h. ground arith)
perform-Decided x (call_write received input) b =
    in_worker-Decided (write_step received input) b (λ s h. ground arith)
perform-Decided x (call_send input) b =
    in_worker-Decided (send_step x.new_error x.from_slice input) b (λ s h. ground arith)
perform-Decided x (call_send_error message) b =
    in_worker-Decided (send_error_step x.new_error message) b (λ s h. inr refl)
perform-Decided x (call_read len) b = bytes-Decided (read_step len) b (read-SameChannels len)
perform-Decided x (call_part_read len) b =
    bytes-Decided (part_read_step len) b (part_read-SameChannels len)

run_php-Decided :
    (x : Externals) (php : Php) (b : Bridge) → Decided b.worker → Decided (run_php x php b).1.worker
unfolding run_php
run_php-Decided x (stop result) b h = h
run_php-Decided x (call action next) b h =
    run_php-Decided x (next (perform x action b).0) (perform x action b).1
      (perform-Decided x action b h)

-- A head that is written while the response is pending begins the stream.
write_head-Decided :
    (received : Bool) (status : ℕ) (headers : Headers) (b : Bridge)
    → is_pending b ≡ true
    → Decided (do_write_head received status headers b).1.worker
unfolding do_write_head write_head_step
write_head-Decided received status headers b = go b.worker
  where
    go :
        (w : Option WorkerState)
        → is_pending (record b { worker = w }) ≡ true
        → Decided (do_write_head received status headers (record b { worker = w })).1.worker
    go none h = tt
    go (some s) h = ground (arith, h)

pub writes_head-Decided :
    (x : Externals) (php : Php) (b : Bridge)
    → writes_head x php b ≡ true
    → Decided (run_php x php b).1.worker
unfolding writes_head run_php perform
writes_head-Decided x (stop result) b h = absurd (false≢true h)
writes_head-Decided x (call (call_write_head received status headers) next) b h =
    let action : Action = call_write_head received status headers in
    let reply = (perform x action b).0 in
    let b' = (perform x action b).1 in
    elim (Bool-cases (is_pending b)) [
      | inl pending ↦
          run_php-Decided x (next reply) b' (write_head-Decided received status headers b pending)
      | inr ended ↦
          writes_head-Decided x (next reply) b'
            (sym (ap (λ p. p || writes_head x (next reply) b') ended) ∙ h)
    ]
writes_head-Decided x (call action next) b h =
    writes_head-Decided x (next (perform x action b).0) (perform x action b).1 h
