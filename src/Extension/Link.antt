-- ===== src/Extension/Link.antt =====
-- The task channel between a `ChannelWorkerHandle` of crates/folk-ext/src/runtime.rs and its worker.
-- The supervisor owns the handle, so that it makes one call at a time; the worker takes the tasks in
-- order. A task is a number.
pub mod Backlog
pub mod Join
use folk_core.Base.{
  ℕ, suc, ◌+◌, Bool, true, false, Option, none, some, List, [], ◌∷◌, ◌++◌, length, ltb, ◌==◌,
  if◌then◌else◌, is_some, not, ◌&&◌, ◌||◌,
}

-- `connected`: `task_tx` is there; `ready_rx`: not taken yet; `thread_handle`: the handle has the
-- worker's thread, which the main worker has not; `alive`: the worker holds its receiver.
-- `running` is the task that PHP runs, `awaited` the one whose done signal the supervisor awaits, and
-- `timeouts` the number of calls that the supervisor has given up.
pub record Link : Type 0 where
  pub connected : Bool
  pub ready_rx : Bool
  pub thread_handle : Bool
  pub alive : Bool
  pub queue : List ℕ
  pub running : Option ℕ
  pub awaited : Option ℕ
  pub timeouts : ℕ

abbrev pub capacity : ℕ
capacity = 8

-- How the first part of `execute_streaming` ends: the task is in the channel and its end is awaited;
-- an error; or the thread blocks on a full channel.
pub data Sent : Type 0 where
  awaiting worker_terminated worker_gone blocked : Sent

unfoldable pub execute_streaming : ℕ → Link → Sent × Link
execute_streaming task l =
    if l.connected
    then if l.alive
      then if ltb (length l.queue) capacity
        then (awaiting, record l { queue = l.queue ++ task ∷ []; awaited = some task })
        else (blocked, l)
      else (worker_gone, l)
    else (worker_terminated, l)

-- `ready`: whether it succeeds, where `signalled` says if the worker signals before it is gone.
unfoldable pub ready : Bool → Link → Bool × Link
ready signalled l = if l.ready_rx then (signalled, record l { ready_rx = false }) else (true, l)

-- `terminate` closes the channel, and waits for the thread to end if the handle has one.
unfoldable pub terminate : Link → Bool × Link
terminate l = (l.thread_handle, record l { connected = false; thread_handle = false })

-- Whether a `terminate` that waits for the thread, or does not, has returned: the join returns when
-- the thread has ended.
unfoldable pub has_returned : Bool → Link → Bool
has_returned waits l = not waits || not l.alive

-- What happens at the link.
pub data LinkEvent : Type 0 where
  execute : ℕ → LinkEvent
  take_task finish_task leave time_out die close : LinkEvent

unfoldable pub on_take : Link → Link
on_take l = elim l.running [
  | some q ↦ l
  | none ↦ elim l.queue [ [] ↦ l | q ∷ rest ↦ record l { queue = rest; running = some q } ]
]

-- The done signal reaches the supervisor if it still waits for this task.
abbrev pub signal : ℕ → Option ℕ → Option ℕ
signal q none = none
signal q (some awaited) = if q == awaited then none else some awaited

unfoldable pub on_finish : Link → Link
on_finish l = elim l.running [
  | none ↦ l
  | some q ↦ record l { running = none; awaited = signal q l.awaited }
]

-- `tokio::time::timeout` drops the call.
unfoldable pub on_time_out : Link → Link
on_time_out l = elim l.awaited [
  | none ↦ l
  | some q ↦ record l { awaited = none; timeouts = suc l.timeouts }
]

-- The worker's thread ends, and with it its receiver and the done channels of its tasks.
unfoldable pub on_die : Link → Link
on_die l = record l { alive = false; queue = []; running = none; awaited = none }

abbrev pub is_idle : Link → Bool
is_idle l = not (is_some l.running) && length l.queue == 0

-- The dispatch loop ends when the channel is closed and empty, and the thread after it.
unfoldable pub on_leave : Link → Link
on_leave l = if not l.connected && is_idle l then on_die l else l

unfoldable pub step_link : LinkEvent → Link → Link
step_link (execute task) l = if is_some l.awaited then l else (execute_streaming task l).1
step_link take_task l = on_take l
step_link finish_task l = on_finish l
step_link leave l = on_leave l
step_link time_out l = on_time_out l
step_link die l = on_die l
step_link close l = (terminate l).1

unfoldable pub run_link : List LinkEvent → Link → Link
run_link [] l = l
run_link (e ∷ es) l = run_link es (step_link e l)

abbrev pub new_link : Link
new_link = record {
  connected = true;
  ready_rx = true;
  thread_handle = true;
  alive = true;
  queue = [];
  running = none;
  awaited = none;
  timeouts = 0;
}
