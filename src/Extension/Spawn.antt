-- ===== src/Extension/Spawn.antt =====
-- `ExtensionRuntime::spawn` of crates/folk-ext/src/runtime.rs, with `take_preconnected` and
-- `spawn_zts_worker`, as the supervisors of all slots call it at the same time. A call goes through
-- phases; what a phase does to the counter or behind the mutex is atomic, and the phases of the
-- calls interleave in any order.
pub mod Ids
use folk_core.Base.{
  ℕ, ◌+◌, ◌%◌, ◌^◌, String, Bool, true, false, Option, none, some, List, [], ◌∷◌, ◌++◌, ltb,
  is_empty, if◌then◌else◌, get_elem?, set,
}
use folk_core.Config.{WorkersConfig}
use folk_core.Extension.Handle.{WorkerTxSide, ChannelWorkerHandle}

-- A thread that `worker::spawn_zts_worker` has started.
pub record ZtsThread : Type 0 where
  pub worker_id : ℕ
  pub script : String
  pub task_rx : ℕ
  pub ready_tx : ℕ

-- What the calls share: `NEXT_WORKER_ID`, the channels of the runtime, the threads so far, and the
-- number of the next channel.
pub record Process : Type 0 where
  pub next_worker_id : ℕ
  pub channels : List WorkerTxSide
  pub threads : List ZtsThread
  pub next_channel : ℕ

pub data SpawnError : Type 0 where
  no_more_channels no_directory : ℕ → SpawnError
  not_requested : SpawnError

pub data Call : Type 0 where
  calling taking starting : Call
  taking_with starting_with : ℕ → Call
  spawned : ChannelWorkerHandle → Call
  failed : SpawnError → Call

abbrev pub u32_mod : ℕ
u32_mod = 2 ^ 32

-- `NEXT_WORKER_ID.fetch_add(1, …)`, which wraps around.
abbrev pub fetch_add : Process → Process
fetch_add q = record q { next_worker_id = (q.next_worker_id + 1) % u32_mod }

-- `Vec::pop`
abbrev pub pop {ℓ} : {A : Type ℓ} → List A → Option (A × List A)
pop [] = none
pop (x ∷ xs) = elim (pop xs) [ none ↦ some (x, []) | some (y, ys) ↦ some (y, x ∷ ys) ]

-- The process when the server starts, with the channels of the main thread.
abbrev pub launched : WorkerTxSide → ℕ → Process
launched side channel = record {
  next_worker_id = 1;
  channels = side ∷ [];
  threads = [];
  next_channel = channel;
}

-- The script's absolute path, or `none` where there is no current directory, is the parameter.
module _ (cfg : WorkersConfig) (script_path : Option String) where
  -- `spawn` up to the branch that it takes.
  unfoldable pub choose : Process → Call × Process
  choose q =
      if is_empty q.channels
      then if ltb 1 cfg.count then (Call.starting, q) else (failed not_requested, q)
      else (Call.taking, q)

  -- The rest of `take_preconnected`, with its id.
  unfoldable pub take_side : ℕ → Process → Call × Process
  take_side id q = elim (pop q.channels) [
    | none ↦ (failed (no_more_channels id), q)
    | some (side, rest) ↦ (
      spawned (record {
        worker_id = id;
        task_tx = some side.task_tx;
        ready_rx = some side.ready_rx;
        thread_handle = none;
      }),
      record q { channels = rest },
    )
  ]

  -- The rest of `spawn_zts_worker`, with its id.
  unfoldable pub start_thread : ℕ → Process → Call × Process
  start_thread id q = elim script_path [
    | none ↦ (failed (no_directory id), q)
    | some script ↦ (
      spawned (record {
        worker_id = id;
        task_tx = some q.next_channel;
        ready_rx = some (q.next_channel + 1);
        thread_handle = some id;
      }),
      record q {
        threads =
            record {
              worker_id = id;
              script = script;
              task_rx = q.next_channel;
              ready_tx = q.next_channel + 1;
            }
            ∷ q.threads;
        next_channel = q.next_channel + 2;
      },
    )
  ]

  unfoldable pub advance_call : Call → Process → Call × Process
  advance_call calling q = choose q
  advance_call taking q = (taking_with q.next_worker_id, fetch_add q)
  advance_call starting q = (starting_with q.next_worker_id, fetch_add q)
  advance_call (taking_with id) q = take_side id q
  advance_call (starting_with id) q = start_thread id q
  advance_call (spawned h) q = (spawned h, q)
  advance_call (failed e) q = (failed e, q)

  -- The phases of many calls, in the order of a schedule.
  unfoldable pub step_call : ℕ → List Call × Process → List Call × Process
  step_call i (calls, q) = elim (get_elem? calls i) [
    | none ↦ (calls, q)
    | some c ↦ let (c', q') = advance_call c q in (set calls i c', q')
  ]

  unfoldable pub run_calls : List ℕ → List Call × Process → List Call × Process
  run_calls [] s = s
  run_calls (i ∷ schedule) s = run_calls schedule (step_call i s)
