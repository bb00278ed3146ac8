-- ===== src/Pool/Flow/Steps.antt =====
-- How many steps the requests of a pool of worker_pool.rs still need.
use folk_core.Base.{
  ℕ, zero, suc, subst, ◌+◌, ◌*◌, ◌<◌, ◌≤◌, ◌≡◌, true, All, inl, inr, refl, ap, Option, none, some,
  List, [], ◌∷◌, ◌++◌, map, length, get_elem?, set, arith, Option-cases, Bool-cases, bit, is_some,
  length-append, ltb,
}
use folk_core.Pool.Router.{Router, route}
use folk_core.Pool.Flow.{
  queue_capacity, inbox_capacity, PoolSlot, PoolState, Action, acquire, send, receive, finish,
  crash, deliver, remove, submit, put, forward, do_deliver, receive_in, on_slot, received, finished,
  act, settle, run_actions,
}

-- The actions that move a request on.
abbrev pub IsForward : Action → Type 0
IsForward (acquire q) = ⊥
IsForward (crash i) = ⊥
IsForward _ = Unit

abbrev pub weight : PoolSlot → ℕ
weight slot = bit (is_some slot.running) + 2 * length slot.inbox

abbrev pub weights : List PoolSlot → ℕ
weights [] = 0
weights (s ∷ ss) = weight s + weights ss

-- How many actions the requests in flight still need.
abbrev pub steps_left : PoolState → ℕ
steps_left s = 4 * length s.holding + 3 * length s.queue + weights s.slots

weights-set :
    (ss : List PoolSlot) (i : ℕ) (old new : PoolSlot)
    → get_elem? ss i ≡ some old
    → weights (set ss i new) + weight old ≡ weights ss + weight new
weights-set [] i old new e = cc
weights-set (s ∷ ss) zero old new e = ground arith
weights-set (s ∷ ss) (suc i) old new e = omega (arith, weights-set ss i old new e)

length-remove :
    (xs : List ℕ) (i x : ℕ) → get_elem? xs i ≡ some x → length xs ≡ suc (length (remove xs i))
length-remove [] i x e = cc
length-remove (y ∷ ys) zero x e = refl
length-remove (y ∷ ys) (suc i) x e = omega (arith, length-remove ys i x e)

abbrev pub Lowers : ℕ → Option PoolState → Type 0
Lowers k none = Unit
Lowers k (some s) = steps_left s < k

submit-Lowers : (i : ℕ) (s : PoolState) → Lowers (steps_left s) (submit i s)
unfolding submit
submit-Lowers i s = elim (Option-cases (get_elem? s.holding i)) [
  | inl e ↦ rw (e, submit) tt
  | inr (q, e) ↦ elim (Bool-cases (ltb (length s.queue) queue_capacity)) [
    | inl room ↦
        rw (e, room, submit)
          (omega (arith, length-append s.queue (q ∷ []), length-remove s.holding i q e))
    | inr full ↦ rw (e, full, submit) tt
  ]
]

put-Lowers : (q d k : ℕ) (s : PoolState) → steps_left s + 2 < k → Lowers k (put q d s)
unfolding put
put-Lowers q d k s le = elim (Option-cases (get_elem? s.slots d)) [
  | inl e ↦ rw (e, put) tt
  | inr (slot, e) ↦ elim (Bool-cases (ltb (length slot.inbox) inbox_capacity)) [
    | inl room ↦
        rw (e, room, put)
          (omega (
            arith,
            weights-set s.slots d slot (record slot { inbox = slot.inbox ++ q ∷ [] }) e,
            length-append slot.inbox (q ∷ []),
          ))
    | inr full ↦ rw (e, full, put) tt
  ]
]

forward-Lowers :
    (q : ℕ) (chosen : Option ℕ) (k : ℕ) (s : PoolState)
    → steps_left s + 2 < k
    → Lowers k (forward q chosen s)
unfolding forward
forward-Lowers q none k s le = omega arith
forward-Lowers q (some d) k s le = put-Lowers q d k s le

do_deliver-Lowers : (s : PoolState) → Lowers (steps_left s) (do_deliver s)
unfolding do_deliver
do_deliver-Lowers s = go (steps_left s) refl s.queue refl
  where
    routed : Router × Option ℕ
    routed = route (map (λ p. p.is_open) s.slots) s.router

    go : (k : ℕ) → k ≡ steps_left s → (qs : List ℕ) → s.queue ≡ qs → Lowers k (do_deliver s)
    go k same [] e = rw (e, do_deliver) tt
    go k same (q ∷ rest) e =
        rw (e, do_deliver)
          (forward-Lowers q routed.1 k (record s { queue = rest; router = routed.0 })
            (omega (arith, ap length e)))

abbrev Lightens : PoolSlot → Option (List ℕ × PoolSlot) → Type 0
Lightens slot none = Unit
Lightens slot (some (qs, slot')) = weight slot' < weight slot

on_slot-Lowers :
    (f : PoolSlot → Option (List ℕ × PoolSlot)) (i : ℕ) (s : PoolState)
    → ((slot : PoolSlot) → Lightens slot (f slot))
    → Lowers (steps_left s) (on_slot f i s)
unfolding on_slot
on_slot-Lowers f i s lightens = elim (Option-cases (get_elem? s.slots i)) [
  | inl e ↦ rw (e, on_slot) tt
  | inr (slot, e) ↦ elim (Option-cases (f slot)) [
    | inl waits ↦ rw (e, waits, on_slot) tt
    | inr ((qs, slot'), done) ↦
        rw (e, done, on_slot)
          (omega
            (arith, weights-set s.slots i slot slot' e, subst (Lightens slot) done (lightens slot)))
  ]
]

received-Lightens : (slot : PoolSlot) → Lightens slot (received slot)
unfolding receive_in
received-Lightens slot = ground arith

finished-Lightens : (slot : PoolSlot) → Lightens slot (finished slot)
finished-Lightens slot = ground arith

-- Every action that moves a request on lowers the number of steps left.
pub act-Lowers : (a : Action) (s : PoolState) → IsForward a → Lowers (steps_left s) (act a s)
unfolding act
act-Lowers (acquire q) s f = elim f [ ]
act-Lowers (send i) s f = submit-Lowers i s
act-Lowers deliver s f = do_deliver-Lowers s
act-Lowers (receive i) s f = on_slot-Lowers received i s received-Lightens
act-Lowers (finish i) s f = on_slot-Lowers finished i s finished-Lightens
act-Lowers (crash i) s f = elim f [ ]

-- No action of the schedule is one of a task that waits.
abbrev pub AllTaken : List Action → PoolState → Type 0
AllTaken [] s = Unit
AllTaken (a ∷ actions) s = (is_some (act a s) ≡ true) × AllTaken actions (settle s (act a s))

-- A schedule that takes no new permit, and in which no supervisor ends, is over after a bounded
-- number of actions: as many as the requests in flight still need, which is at most four for each
-- caller that holds a permit, three for each request in the channel, two for each in an inbox and one
-- for each in a worker.
pub run_actions-terminates :
    (actions : List Action) (s : PoolState)
    → All IsForward actions
    → AllTaken actions s
    → length actions + steps_left (run_actions actions s) ≤ steps_left s
unfolding run_actions
run_actions-terminates [] s forwards taken = omega arith
run_actions-terminates (a ∷ actions) s forwards taken =
    go (act a s) taken.0 (act-Lowers a s forwards.0)
      (run_actions-terminates actions (settle s (act a s)) forwards.1 taken.1)
  where
    go :
        (o : Option PoolState)
        → is_some o ≡ true
        → Lowers (steps_left s) o
        → length actions + steps_left (run_actions actions (settle s o)) ≤ steps_left (settle s o)
        → suc (length actions) + steps_left (run_actions actions (settle s o)) ≤ steps_left s
    go none absent low ih = cc
    go (some t) present low ih = omega (arith, low, ih)
