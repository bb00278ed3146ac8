-- ===== src/Extension/Execute.antt =====
-- `ChannelWorkerHandle::execute` of crates/folk-ext/src/runtime.rs: a task with a stream of its own.
use folk_core.Base.{ℕ, String, Bool, List, if◌then◌else◌}
use folk_core.Api.{Bytes, ResponseChunk}
use folk_core.Pool.Stream.{Collected, collect_stream_to_value}
use folk_core.Extension.Link.{
  Link, Sent, awaiting, worker_terminated, worker_gone, blocked, execute_streaming,
}

-- A thread that blocks on a full channel does not come back.
pub data Executed : Type 0 where
  gathered : Collected → Executed
  terminated gone dropped_done_channel waits : Executed

abbrev pub not_sent : Sent → Executed → Executed
not_sent awaiting e = e
not_sent worker_terminated e = terminated
not_sent worker_gone e = gone
not_sent blocked e = waits

-- `done` says whether the worker signals the end, `chunks` is what it has sent by then.
unfoldable pub execute : (Bytes → String) → ℕ → Bool → List ResponseChunk → Link → Executed × Link
execute from_utf8_lossy task done chunks l =
    let (sent, l') = execute_streaming task l in
    let answered : Executed =
      if done
      then gathered (collect_stream_to_value from_utf8_lossy chunks)
      else dropped_done_channel in
    (not_sent sent answered, l')
