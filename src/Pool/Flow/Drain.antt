-- ===== src/Pool/Flow/Drain.antt =====
-- How the requests of a pool of worker_pool.rs move on.
use folk_core.Base.{
  ℕ, zero, suc, subst, ℕ-cases, ◌+◌, ◌≤◌, ◌<◌, ◌≡◌, inl, inr, refl, true, Option, none, some, List,
  [], ◌∷◌, length, get_elem?, All, arith, is_some, ltb,
}
use folk_core.Pool.Router.{usize_mod}
use folk_core.Pool.Flow.{queue_capacity, PoolState, Action, submit, act, run_actions, new_pool}
use folk_core.Pool.Flow.Conservation.{
  in_flight, count_if_all, run_actions-Conserved, reached-Conserved, pool-Conserved,
}
use folk_core.Pool.Flow.Slots.{WellFormed, Stays, act-Stays, run_actions-WellFormed, new-WellFormed}
use folk_core.Pool.Flow.Steps.{IsForward, steps_left, Lowers, act-Lowers}
use folk_core.Pool.Flow.Progress.{progress, none_left}

is_some-some : {A : Type 0} (o : Option A) → is_some o ≡ true → (a : A) × (o ≡ some a)
is_some-some none e = cc
is_some-some (some a) e = (a, refl)

abbrev Drains : ℕ → PoolState → Type 0
Drains k s =
    (more : List Action) × All IsForward more
    × (length more ≤ k)
    × (steps_left (run_actions more s) ≡ 0)

Drains-before :
    (k : ℕ) (a : Action) (s s' : PoolState)
    → IsForward a
    → act a s ≡ some s'
    → Drains k s'
    → Drains (suc k) s
unfolding run_actions
Drains-before k a s s' f ran (more, fs, short, done) =
    (a ∷ more, (f, fs), omega arith, rw (ran, run_actions) done)

module _ (n : ℕ) (small : n + n ≤ usize_mod) where
  run_down : (k : ℕ) (s : PoolState) → WellFormed n s → steps_left s ≤ k → Drains k s
  unfolding run_actions
  run_down zero s v le = ([], tt, omega arith, omega arith)
  run_down (suc k) s v le = elim (ℕ-cases (steps_left s)) [
    | inl done ↦ ([], tt, omega arith, done)
    | inr (m, e) ↦
        let (a, f, runs) = progress n s small v (omega arith) in
        let (s', ran) = is_some-some (act a s) runs in
        let lower : steps_left s' < steps_left s =
          subst (Lowers (steps_left s)) ran (act-Lowers a s f) in
        let v' : WellFormed n s' = subst (Stays n) ran (act-Stays n small a s v) in
        Drains-before k a s s' f ran (run_down k s' v' (omega arith))
  ]

  -- Whatever the tasks of a pool have done, actions that only move requests on, and of which none
  -- panics or takes a permit, lead to a state without requests in flight, in which all permits are
  -- back; they are no more than four for each request in a caller's hand, three for each in the
  -- request channel, two for each in an inbox, and one for each running.
  pub pool-drains :
      (actions : List Action)
      → let s = run_actions actions (new_pool n) in
        (more : List Action) × All IsForward more
        × (length more ≤ steps_left s)
        × (in_flight (λ q. true) (run_actions more s) ≡ 0)
        × ((run_actions more s).permits ≡ n)
  pool-drains actions =
      let s = run_actions actions (new_pool n) in
      let v = run_actions-WellFormed n small actions (new_pool n) (new-WellFormed n) in
      let (more, fs, short, done) = run_down (steps_left s) s v (omega arith) in
      let w = run_actions-Conserved n more s (reached-Conserved n actions) in
      let empty = none_left (run_actions more s) done in
      (
        more,
        fs,
        short,
        empty,
        omega (
          arith,
          w.1,
          w.0 (λ q. true),
          count_if_all (run_actions more s).acquired,
          count_if_all (run_actions more s).released,
        ),
      )

holding-some : (xs : List ℕ) (i q : ℕ) → get_elem? xs i ≡ some q → 0 < length xs
holding-some [] i q e = cc
holding-some (x ∷ xs) i q e = omega arith

-- A pool of at most 1024 workers never makes a caller that has its permit wait for the request
-- channel.
pub submit-runs :
    (count : ℕ) (actions : List Action) (i q : ℕ)
    → count ≤ queue_capacity
    → get_elem? (run_actions actions (new_pool count)).holding i ≡ some q
    → is_some (submit i (run_actions actions (new_pool count))) ≡ true
unfolding submit
submit-runs count actions i q le e = rw (e, submit) (rw room refl)
  where
    s : PoolState
    s = run_actions actions (new_pool count)

    room : ltb (length s.queue) queue_capacity ≡ true
    room =
        let (kept, permits) = pool-Conserved count actions in
        let below : length s.queue < queue_capacity = omega (
          arith,
          permits,
          holding-some s.holding i q e,
          count_if_all s.holding,
          count_if_all s.queue,
        ) in
        ground arith
