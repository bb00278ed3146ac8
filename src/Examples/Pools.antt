-- ===== src/Examples/Pools.antt =====
-- Examples for the pool as a whole, crates/folk-core/src/worker_pool.rs, and for the workers that
-- crates/folk-ext/src/runtime.rs spawns.
use folk_core.Base.{
  ℕ, ◌+◌, ◌≤◌, ◌⊎◌, ◌≡◌, refl, Bool, true, some, List, [], ◌∷◌, length, count_if, All, arith,
  replicate,
}
use folk_core.Config.{default_workers}
use folk_core.Pool.Router.{route, attempts, try_slot, init}
use folk_core.Pool.Flow.{
  PoolState, Action, acquire, send, receive, finish, crash, deliver, run_actions, new_pool, submit,
  act, do_acquire, do_deliver, forward, put, receive_in, on_slot,
}
use folk_core.Pool.Flow.Conservation.{in_flight, pool-Conserved}
use folk_core.Pool.Flow.Steps.{IsForward, steps_left, AllTaken}
use folk_core.Pool.Flow.Maximal.{CanMove, IsDone, maximal-drains}
use folk_core.Pool.Flow.Drain.{pool-drains}
use folk_core.Pool.Flow.Order.{recorded, Ordered, all_entered, all_dealt, taken_by}
use folk_core.Pool.Flow.Fifo.{pool-Ordered}
use folk_core.Extension.Handle.{WorkerTxSide, is_recyclable}
use folk_core.Extension.Spawn.{
  Call, calling, Process, launched, run_calls, step_call, advance_call, choose, take_side,
  start_thread,
}
use folk_core.Extension.Spawn.Ids.{draws, IsThreadId, is_main, run_calls-ids}

-- Four requests for two workers: the third waits for a permit, the supervisor of slot 0 panics with
-- request 11, and the fourth goes to slot 1.
abbrev rush : List Action
rush =
    acquire 10
    ∷ acquire 11
    ∷ acquire 12
    ∷ send 1
    ∷ send 0
    ∷ deliver
    ∷ deliver
    ∷ receive 0
    ∷ receive 1
    ∷ crash 0
    ∷ acquire 13
    ∷ send 0
    ∷ deliver
    ∷ finish 1
    ∷ []

rush_end :
    ((run_actions rush (new_pool 2)).permits ≡ 1)
    × ((run_actions rush (new_pool 2)).released ≡ 10 ∷ 11 ∷ [])
unfolding run_actions act new_pool do_acquire submit do_deliver forward put receive_in on_slot route
    attempts try_slot init
rush_end = (refl, refl)

pool-Conserved_example :
    ((p : ℕ → Bool)
      → count_if p (run_actions rush (new_pool 2)).acquired
        ≡ in_flight p (run_actions rush (new_pool 2))
          + count_if p (run_actions rush (new_pool 2)).released)
    × ((run_actions rush (new_pool 2)).permits
          + in_flight (λ q. true) (run_actions rush (new_pool 2))
        ≡ 2)
pool-Conserved_example = pool-Conserved 2 rush

pool-drains_example :
    (more : List Action) × All IsForward more
    × (length more ≤ steps_left (run_actions rush (new_pool 2)))
    × (in_flight (λ q. true) (run_actions more (run_actions rush (new_pool 2))) ≡ 0)
    × ((run_actions more (run_actions rush (new_pool 2))).permits ≡ 2)
pool-drains_example = pool-drains 2 (omega arith) rush

-- Two callers with a permit.
abbrev two_callers : List Action
two_callers = acquire 10 ∷ acquire 11 ∷ []

abbrev both_served : List Action
both_served = send 1 ∷ send 0 ∷ deliver ∷ receive 0 ∷ deliver ∷ finish 0 ∷ receive 1 ∷ finish 1 ∷ []

both_taken : AllTaken both_served (run_actions two_callers (new_pool 2))
unfolding run_actions act new_pool init do_acquire submit do_deliver route attempts try_slot forward
    put on_slot receive_in
both_taken = (refl, (refl, (refl, (refl, (refl, (refl, (refl, (refl, tt))))))))

abbrev served_pool : PoolState
served_pool = run_actions both_served (run_actions two_callers (new_pool 2))

maximal-drains_example :
    (length both_served + steps_left served_pool
      ≤ steps_left (run_actions two_callers (new_pool 2)))
    × (CanMove served_pool ⊎ IsDone 2 served_pool)
maximal-drains_example =
    maximal-drains 2 two_callers both_served (omega arith) (ground arith) both_taken

pool-Ordered_example : Ordered (recorded rush (new_pool 2)) (run_actions rush (new_pool 2))
pool-Ordered_example = pool-Ordered 2 (omega arith) rush

-- The caller of 11 was the first to send, so that 11 was dealt before 10.
rush_order :
    (all_entered (recorded rush (new_pool 2)) ≡ 11 ∷ 10 ∷ 13 ∷ [])
    × (all_dealt (recorded rush (new_pool 2)) ≡ 11 ∷ 10 ∷ 13 ∷ [])
    × (taken_by 0 (recorded rush (new_pool 2)) ≡ 11 ∷ [])
unfolding recorded run_actions act new_pool do_acquire submit do_deliver forward put on_slot
    receive_in route attempts try_slot init
rush_order = (refl, refl, refl)

abbrev main_side : WorkerTxSide
main_side = record { task_tx = 1; ready_rx = 2 }

-- Both calls see the channels; the second, with id 2, gets them, and a third starts a thread.
abbrev race : List ℕ
race = 0 ∷ 1 ∷ 0 ∷ 1 ∷ 1 ∷ 0 ∷ 2 ∷ 2 ∷ 2 ∷ []

abbrev raced : List Call × Process
raced =
    run_calls default_workers (some "/srv/worker.php") race
      (replicate 3 calling, launched main_side 3)

race_ids : count_if is_main raced.0 ≡ 1
unfolding run_calls step_call advance_call choose take_side start_thread is_recyclable
race_ids = refl

run_calls-ids_example :
    ((k : ℕ) → count_if (draws k) raced.0 ≤ 1)
    × All IsThreadId raced.1.threads
    × (count_if is_main raced.0 + length raced.1.channels ≡ 1)
run_calls-ids_example =
    run_calls-ids default_workers (some "/srv/worker.php") 3 3 main_side race (omega arith)
