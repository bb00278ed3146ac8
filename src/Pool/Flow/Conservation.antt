-- ===== src/Pool/Flow/Conservation.antt =====
-- The accounts of requests and permits in a pool of worker_pool.rs.
use folk_core.Base.{
  ℕ, zero, suc, ℕ-cases, ap, subst, ◌+◌, ◌≡◌, refl, Bool, true, Option, none, some, List, [], ◌∷◌,
  ◌++◌, map, length, get_elem?, set, length-append, Bool-cases, count_if, count_if-append, arith,
  Option-cases, bit, ltb, inl, inr,
}
use folk_core.Pool.Router.{Router, route}
use folk_core.Pool.Flow.{
  queue_capacity, inbox_capacity, PoolSlot, PoolState, Action, acquire, send, receive, finish,
  crash, deliver, remove, requests_of, do_acquire, submit, release, put, forward, do_deliver,
  on_slot, received, finished, crashed, act, settle, run_actions, new_pool,
}
use folk_core.Pool.Flow.Accounts.{
  in_slots, in_slots-set, in_slots-new, Accounts, received-Accounts, finished-Accounts,
  crashed-Accounts,
}

-- How many requests that satisfy `p` are in flight.
abbrev pub in_flight : (ℕ → Bool) → PoolState → ℕ
in_flight p s = count_if p s.holding + count_if p s.queue + in_slots p s.slots

abbrev pub Conserved : ℕ → PoolState → Type 0
Conserved count s =
    ((p : ℕ → Bool) → count_if p s.acquired ≡ in_flight p s + count_if p s.released)
    × (s.permits + length s.acquired ≡ count + length s.released)

count_if-remove :
    (p : ℕ → Bool) (xs : List ℕ) (i x : ℕ)
    → get_elem? xs i ≡ some x
    → count_if p xs ≡ count_if p (remove xs i) + bit (p x)
count_if-remove p [] i x e = cc
count_if-remove p (y ∷ ys) zero x e = ground arith
count_if-remove p (y ∷ ys) (suc i) x e = ground (arith, count_if-remove p ys i x e)

abbrev Kept : ℕ → Option PoolState → Type 0
Kept count none = Unit
Kept count (some s) = Conserved count s

module _ (count : ℕ) where
  do_acquire-Kept : (q : ℕ) (s : PoolState) → Conserved count s → Kept count (do_acquire q s)
  unfolding do_acquire
  do_acquire-Kept q s v = elim (ℕ-cases s.permits) [
    | inl e ↦ rw (e, do_acquire) tt
    | inr (n, e) ↦
        rw (e, do_acquire)
          (λ p. ground (arith, v.0 p, count_if-append p s.holding (q ∷ [])), omega (arith, v.1))
  ]

  submit-Kept : (i : ℕ) (s : PoolState) → Conserved count s → Kept count (submit i s)
  unfolding submit
  submit-Kept i s v = elim (Option-cases (get_elem? s.holding i)) [
    | inl e ↦ rw (e, submit) tt
    | inr (q, e) ↦ elim (Bool-cases (ltb (length s.queue) queue_capacity)) [
      | inl room ↦
          rw (e, room, submit)
            (
              λ p. ground (
                arith,
                v.0 p,
                count_if-append p s.queue (q ∷ []),
                count_if-remove p s.holding i q e,
              ),
              v.1,
            )
      | inr full ↦ rw (e, full, submit) tt
    ]
  ]

  -- The accounts when the requests `qs` leave the pool.
  release-Conserved :
      (qs : List ℕ) (s s' : PoolState)
      → Conserved count s
      → s'.acquired ≡ s.acquired
      → s'.released ≡ s.released
      → s'.permits ≡ s.permits
      → ((p : ℕ → Bool) → in_flight p s ≡ in_flight p s' + count_if p qs)
      → Conserved count (release qs s')
  release-Conserved qs s s' v a r n moved = (
    λ p. rw (a, r) (omega (arith, v.0 p, moved p, count_if-append p qs s.released)),
    rw (a, r, n) (omega (arith, v.1, length-append qs s.released)),
  )

  put-Kept :
      (q d : ℕ) (s : PoolState)
      → ((p : ℕ → Bool) → count_if p s.acquired ≡ in_flight p s + bit (p q) + count_if p s.released)
      → s.permits + length s.acquired ≡ count + length s.released
      → Kept count (put q d s)
  unfolding put
  put-Kept q d s v w = elim (Option-cases (get_elem? s.slots d)) [
    | inl e ↦ rw (e, put) tt
    | inr (slot, e) ↦ elim (Bool-cases (ltb (length slot.inbox) inbox_capacity)) [
      | inl room ↦
          rw (e, room, put)
            (
              λ p. ground (
                arith,
                v p,
                in_slots-set p s.slots d slot (record slot { inbox = slot.inbox ++ q ∷ [] }) e,
                count_if-append p (requests_of slot.running) slot.inbox,
                count_if-append p (requests_of slot.running) (slot.inbox ++ q ∷ []),
                count_if-append p slot.inbox (q ∷ []),
              ),
              w,
            )
      | inr full ↦ rw (e, full, put) tt
    ]
  ]

  forward-Kept :
      (q : ℕ) (rest : List ℕ) (chosen : Option ℕ) (router : Router) (s : PoolState)
      → Conserved count s
      → s.queue ≡ q ∷ rest
      → Kept count (forward q chosen (record s { queue = rest; router = router }))
  unfolding forward
  forward-Kept q rest none router s v e =
      release-Conserved (q ∷ []) s (record s { queue = rest; router = router }) v refl refl refl
        (λ p. ground (arith, ap (count_if p) e))
  forward-Kept q rest (some d) router s v e =
      put-Kept q d (record s { queue = rest; router = router })
        (λ p. ground (arith, v.0 p, ap (count_if p) e)) v.1

  do_deliver-Kept : (s : PoolState) → Conserved count s → Kept count (do_deliver s)
  unfolding do_deliver
  do_deliver-Kept s v = go s.queue refl
    where
      routed : Router × Option ℕ
      routed = route (map (λ p. p.is_open) s.slots) s.router

      go : (qs : List ℕ) → s.queue ≡ qs → Kept count (do_deliver s)
      go [] e = rw (e, do_deliver) tt
      go (q ∷ rest) e = rw (e, do_deliver) (forward-Kept q rest routed.1 routed.0 s v e)

  on_slot-Kept :
      (f : PoolSlot → Option (List ℕ × PoolSlot)) (i : ℕ) (s : PoolState)
      → ((slot : PoolSlot) → Accounts slot (f slot))
      → Conserved count s
      → Kept count (on_slot f i s)
  unfolding on_slot
  on_slot-Kept f i s accounts v = elim (Option-cases (get_elem? s.slots i)) [
    | inl e ↦ rw (e, on_slot) tt
    | inr (slot, e) ↦ elim (Option-cases (f slot)) [
      | inl waits ↦ rw (e, waits, on_slot) tt
      | inr ((qs, slot'), done) ↦
          rw (e, done, on_slot)
            (release-Conserved qs s (record s { slots = set s.slots i slot' }) v refl refl refl
              (λ p. omega (
                arith,
                in_slots-set p s.slots i slot slot' e,
                subst (Accounts slot) done (accounts slot) p,
              )))
    ]
  ]

  act-Kept : (a : Action) (s : PoolState) → Conserved count s → Kept count (act a s)
  unfolding act
  act-Kept (acquire q) s v = do_acquire-Kept q s v
  act-Kept (send i) s v = submit-Kept i s v
  act-Kept deliver s v = do_deliver-Kept s v
  act-Kept (receive i) s v = on_slot-Kept received i s received-Accounts v
  act-Kept (finish i) s v = on_slot-Kept finished i s finished-Accounts v
  act-Kept (crash i) s v = on_slot-Kept crashed i s crashed-Accounts v

  pub run_actions-Conserved :
      (actions : List Action) (s : PoolState)
      → Conserved count s
      → Conserved count (run_actions actions s)
  unfolding run_actions
  run_actions-Conserved [] s v = v
  run_actions-Conserved (a ∷ actions) s v =
      run_actions-Conserved actions (settle s (act a s)) (go (act a s) (act-Kept a s v))
    where
      go : (o : Option PoolState) → Kept count o → Conserved count (settle s o)
      go none k = v
      go (some s') k = k

pub count_if_all : (qs : List ℕ) → count_if (λ q. true) qs ≡ length qs
count_if_all [] = refl
count_if_all (q ∷ qs) = ap suc (count_if_all qs)

pub reached-Conserved :
    (count : ℕ) (actions : List Action) → Conserved count (run_actions actions (new_pool count))
unfolding new_pool
reached-Conserved count actions =
    run_actions-Conserved count actions (new_pool count)
      (λ p. omega (arith, in_slots-new p count), omega arith)

-- However the tasks of a pool interleave, and whichever supervisors panic: each request that took a
-- permit is in flight or has given its permit back, once; and the permits that are left and the
-- requests in flight are `count` together.
pub pool-Conserved :
    (count : ℕ) (actions : List Action)
    → let s = run_actions actions (new_pool count) in
      ((p : ℕ → Bool) → count_if p s.acquired ≡ in_flight p s + count_if p s.released)
      × (s.permits + in_flight (λ q. true) s ≡ count)
pool-Conserved count actions =
    let v = reached-Conserved count actions in
    let s = run_actions actions (new_pool count) in
    (v.0, omega (arith, v.0 (λ q. true), v.1, count_if_all s.acquired, count_if_all s.released))
