-- ===== src/Pool/Flow/Maximal.antt =====
-- Every order in which the tasks of a pool of worker_pool.rs move the requests on.
use folk_core.Base.{
  ℕ, ◌+◌, ◌≤◌, ◌≡◌, true, List, length, All, arith, ◌⊎◌, ℕ-cases, inl, inr, is_some,
}
use folk_core.Pool.Router.{usize_mod}
use folk_core.Pool.Flow.{PoolState, Action, act, run_actions, new_pool}
use folk_core.Pool.Flow.Conservation.{
  in_flight, count_if_all, run_actions-Conserved, reached-Conserved,
}
use folk_core.Pool.Flow.Slots.{run_actions-WellFormed, new-WellFormed}
use folk_core.Pool.Flow.Steps.{IsForward, AllTaken, steps_left, run_actions-terminates}
use folk_core.Pool.Flow.Progress.{progress, none_left}

-- Some task can move a request on.
abbrev pub CanMove : PoolState → Type 0
CanMove s = (a : Action) × IsForward a × (is_some (act a s) ≡ true)

-- Nothing is in flight, and all `n` permits are back.
abbrev pub IsDone : ℕ → PoolState → Type 0
IsDone n s = (in_flight (λ q. true) s ≡ 0) × (s.permits ≡ n)

-- No deadlock, and no endless run: whatever the tasks of a pool have done, let them move the requests
-- on in any order, while no caller takes a permit and no supervisor ends. Each action that takes
-- effect lowers the number of those still needed: at most four for each request in a caller's hand,
-- three for each in the request channel, two for each in an inbox, and one for each running. And at
-- any time either some task can move a request on, or no request is in flight and all permits are
-- back.
pub maximal-drains :
    (n : ℕ) (actions more : List Action)
    → n + n ≤ usize_mod
    → All IsForward more
    → AllTaken more (run_actions actions (new_pool n))
    → let s = run_actions actions (new_pool n) in
      (length more + steps_left (run_actions more s) ≤ steps_left s)
      × (CanMove (run_actions more s) ⊎ IsDone n (run_actions more s))
maximal-drains n actions more small forwards taken =
    let s = run_actions actions (new_pool n) in
    let v = run_actions-WellFormed n small actions (new_pool n) (new-WellFormed n) in
    let v' = run_actions-WellFormed n small more s v in
    let w = run_actions-Conserved n more s (reached-Conserved n actions) in
    (
      run_actions-terminates more s forwards taken,
      elim (ℕ-cases (steps_left (run_actions more s))) [
        | inr (m, e) ↦ inl (progress n (run_actions more s) small v' (omega (arith, e)))
        | inl done ↦
            let empty = none_left (run_actions more s) done in
            inr (
              empty,
              omega (
                arith,
                w.1,
                w.0 (λ q. true),
                count_if_all (run_actions more s).acquired,
                count_if_all (run_actions more s).released,
                empty,
              ),
            )
      ],
    )
