-- ===== src/Examples/Reloads.antt =====
-- Examples for crates/folk-core/src/watch.rs and crates/folk-core/src/runtime.rs: a changed file, and
-- the runtime for tests.
use folk_core.Base.{ℕ, ◌≡◌, refl, arith, true, false, none, some, List, [], ◌∷◌, get_elem?}
use folk_core.Json.{Value}
use folk_core.Config.{DevConfig, default_dev, default_workers}
use folk_core.Slot.{debug, SlotState, new, mark_ready, mark_busy, mark_idle, should_recycle}
use folk_core.Pool.Executor.{trigger_reload, caches_invalidated, generation_sent}
use folk_core.Pool.Supervisor.{
  Handle, Round, Supervisor, request, ready_ok, exec_ok, continues, terminated, run, start,
  iteration, serve, boot_and_serve, boot_worker,
}
use folk_core.Watch.{
  FilePath, Text, character, code_points, to_ascii_lowercase, trim_dots, events, on_debounced,
}
use folk_core.Watch.Extensions.{HasNoDot, dotted, StandsFor}
use folk_core.Watch.Reload.{on_debounced-reloads}
use folk_core.Runtime.{
  MockWorker, spawn_count, execute, terminate, with_panicking_slots, echo, contains,
}
use folk_core.Runtime
use folk_core.Runtime.Commands.{
  Command, spawn_worker, execute_on, terminate_at, command, commands, fresh_test,
}

-- Two workers of three are asked, of which the second panics; one is terminated.
abbrev calls : List Command
calls =
    spawn_worker
    ∷ spawn_worker
    ∷ execute_on 0 "jobs" Value.null "a"
    ∷ execute_on 1 "jobs" Value.null "b"
    ∷ terminate_at 0
    ∷ execute_on 0 "jobs" Value.null "c"
    ∷ spawn_worker
    ∷ []

abbrev second : MockWorker
second = record { id = 10001; terminated = false; should_panic = true }

abbrev panicking : List ℕ
panicking = 1 ∷ []

second_worker : get_elem? (commands debug calls (fresh_test panicking)).workers 1 ≡ some second
unfolding commands command Runtime.spawn execute terminate with_panicking_slots contains
second_worker = refl

-- Only the first call was seen.
seen_calls : (commands debug calls (fresh_test panicking)).runtime.seen_ids ≡ "a" ∷ []
unfolding commands command Runtime.spawn execute terminate with_panicking_slots contains
seen_calls = refl

-- A worker that has booted at generation 0, and a developer who watches `.PHP` files.
abbrev spare : Handle
spare = record { id = 2; recyclable = true }

abbrev round_at : ℕ → Round
round_at g = record {
  boot_seen = g;
  boot = record { spawn = some spare; ready = ready_ok };
  poll_seen = g;
  sender_dropped = false;
  borrow_seen = g;
  message = request 70;
  exec = exec_ok;
  done_seen = g;
  now = 10;
}

abbrev served_one : Supervisor
served_one = record {
  slot = record { state = SlotState.idle; pid = some 2; jobs_handled = 1; created_at = 0 };
  worker = some spare;
  boot_generation = 0;
  seen = 0;
}

abbrev watch_php : DevConfig
watch_php = record default_dev { watch_extensions = ".PHP" ∷ [] }

abbrev php : Text
php = 80 ∷ 104 ∷ 112 ∷ []

-- The files `.x` and `a.Php`.
abbrev changed : List FilePath
changed = some (character 46 ∷ character 120 ∷ []) ∷ some (character 97 ∷ dotted [] php) ∷ []

served_run : (run debug default_workers (round_at 0 ∷ []) (start 0 0)).0 ≡ continues served_one
unfolding run iteration serve boot_and_serve boot_worker start new mark_ready mark_busy mark_idle
    should_recycle
served_run = refl

php-HasNoDot : HasNoDot php
php-HasNoDot = (λ e. omega (arith, e), (λ e. omega (arith, e), (λ e. omega (arith, e), tt)))

stands : StandsFor watch_php php 0 ".PHP"
unfolding code_points to_ascii_lowercase trim_dots
stands = (refl, refl)

on_debounced-reloads_example :
    (on_debounced watch_php (events changed) ≡ true)
    × (trigger_reload debug false 0 ≡ some (1, caches_invalidated false ∷ generation_sent 1 ∷ []))
    × (iteration debug default_workers (round_at 1) served_one ≡ (
      continues (record served_one { worker = none; slot = new 10; seen = 1 }),
      terminated 2 ∷ [],
    ))
on_debounced-reloads_example =
    on_debounced-reloads debug default_workers (round_at 0 ∷ []) (round_at 1) 0 0 spare served_one
      watch_php changed 1 (character 97) [] php 0 ".PHP" false 0 refl php-HasNoDot stands
      (omega arith) (omega arith) (ground arith) served_run refl refl (omega arith) refl refl
