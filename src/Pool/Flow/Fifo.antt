-- ===== src/Pool/Flow/Fifo.antt =====
-- The requests of a pool of worker_pool.rs keep their order, in the request channel and in each
-- inbox.
use folk_core.Base.{
  ℕ, zero, suc, ◌+◌, ◌≤◌, ◌≡◌, refl, sym, subst, true, none, some, List, [], ◌∷◌, ◌++◌, get_elem?,
  replicate, ℕ-cases, Option-cases, inl, inr, append-nil, append_assoc,
}
use mathlib.Core.Option.{some-injective}
use folk_core.Pool.Router.{usize_mod}
use folk_core.Pool.Flow.Slots.{WellFormed, run_actions-WellFormed, new-WellFormed}
use folk_core.Pool.Flow.{
  PoolSlot, PoolState, Action, do_acquire, acquire, send, receive, finish, crash, deliver, act,
  settle, run_actions, new_pool,
}
use folk_core.Pool.Flow.Order.{Entry, entry_of, entry, recorded, Fits, Ordered, Fits-quiet}
use folk_core.Pool.Flow.Moves.{
  After, quiet_queue, submit-After, do_deliver-After, receive-After, finish-After, crash-After,
}

module _ (n : ℕ) (small : n + n ≤ usize_mod) (h : List Entry) (s : PoolState)
    (v : Ordered h s) where
  acquire-After : (q : ℕ) → After h [] (do_acquire q s)
  unfolding do_acquire
  acquire-After q = elim (ℕ-cases s.permits) [
    | inl e ↦ rw (e, do_acquire) tt
    | inr (m, e) ↦
        rw (e, do_acquire)
          (record {
            in_queue = quiet_queue h s v [] refl refl;
            in_slots = λ j slot at. Fits-quiet j h [] slot refl refl (v.in_slots j slot at);
          })
  ]

  act-After : (a : Action) → WellFormed n s → After h (entry_of a s) (act a s)
  unfolding act
  act-After (acquire q) w = acquire-After q
  act-After (send i) w = submit-After h s v i
  act-After deliver w = do_deliver-After h s v n small w
  act-After (receive i) w = receive-After h s v i
  act-After (finish i) w = finish-After h s v i
  act-After (crash i) w = crash-After h s v i

  settle-Ordered : (a : Action) → WellFormed n s → Ordered (h ++ entry a s) (settle s (act a s))
  settle-Ordered a w = elim (Option-cases (act a s)) [
    | inl waits ↦ rw waits (subst (λ g. Ordered g s) (sym (append-nil h)) v)
    | inr (s', done) ↦ rw done (subst (After h (entry_of a s)) done (act-After a w))
  ]

module _ (n : ℕ) (small : n + n ≤ usize_mod) where
  recorded-Ordered :
      (actions : List Action) (h : List Entry) (s : PoolState)
      → WellFormed n s
      → Ordered h s
      → Ordered (h ++ recorded actions s) (run_actions actions s)
  unfolding recorded run_actions
  recorded-Ordered [] h s w v = subst (λ g. Ordered g s) (sym (append-nil h)) v
  recorded-Ordered (a ∷ actions) h s w v =
      subst (λ g. Ordered g (run_actions actions (settle s (act a s))))
        (append_assoc h (entry a s) (recorded actions (settle s (act a s))))
        (recorded-Ordered actions (h ++ entry a s) (settle s (act a s))
          (run_actions-WellFormed n small (a ∷ []) s w) (settle-Ordered n small h s v a w))

  -- Whatever the callers, the loop of `pool_main`, the workers and the panics of supervisors do, in
  -- a pool of `n` slots with 2n within `usize`: the requests that have entered the request channel
  -- are, in order, those that the loop has dealt and then those in the channel; and the requests
  -- dealt to a slot are, in order, those that its supervisor has taken, those in its inbox, and
  -- those lost when it closed, of which an open slot has none.
  pub pool-Ordered :
      (actions : List Action)
      → Ordered (recorded actions (new_pool n)) (run_actions actions (new_pool n))
  unfolding new_pool
  pool-Ordered actions =
      recorded-Ordered actions [] (new_pool n) (new-WellFormed n)
        (record { in_queue = refl; in_slots = λ i slot at. starts n i slot at })
    where
      starts :
          (k i : ℕ) (slot : PoolSlot)
          → get_elem? (replicate k (record { inbox = []; is_open = true; running = none })) i
            ≡ some slot
          → Fits i [] slot
      starts zero i slot at = cc
      starts (suc k) zero slot at =
          let blank : PoolSlot = record { inbox = []; is_open = true; running = none } in
          let is : blank ≡ slot = some-injective _ _ at in
          let fits : Fits zero [] blank = ([], refl, λ o. refl) in
          subst (λ x. Fits zero [] x) is fits
      starts (suc k) (suc i) slot at =
          let (lost, same, live) = starts k i slot at in (lost, same, live)
