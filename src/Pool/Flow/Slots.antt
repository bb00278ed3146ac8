-- ===== src/Pool/Flow/Slots.antt =====
-- What holds of the router and the slots of a pool of worker_pool.rs at any time.
use folk_core.Base.{
  ℕ, zero, suc, ℕ-cases, ◌+◌, ◌≤◌, ◌<◌, ◌≡◌, ◌⊎◌, inl, inr, refl, sym, ◌∙◌, Bool, true, false,
  Option, none, some, List, [], ◌∷◌, ◌++◌, map, length, get_elem?, get_or, set, length-set,
  length-replicate, All, All-set, All-get_elem?, arith, Option-cases, Bool-cases, replicate, ltb,
}
use folk_core.Pool.Router.{Router, route, usize_mod}
use folk_core.Pool.Router.Choice.{route-keeps, route_sound}
use folk_core.Pool.Router.History.{route-next_le}
use folk_core.Pool.Flow.{
  queue_capacity, inbox_capacity, PoolSlot, PoolState, Action, acquire, send, receive, finish,
  crash, deliver, do_acquire, submit, put, forward, do_deliver, receive_in, on_slot, received,
  finished, crashed, act, settle, run_actions, new_pool,
}

-- A slot whose supervisor has gone holds no request.
abbrev pub IsDrained : PoolSlot → Type 0
IsDrained slot = (slot.is_open ≡ true) ⊎ ((slot.inbox ≡ []) × (slot.running ≡ none))

abbrev pub opened : PoolState → List Bool
opened s = map (λ p. p.is_open) s.slots

pub record WellFormed (n : ℕ) (s : PoolState) : Type 0 where
  pub sized : length s.router.dead ≡ n
  pub slots_sized : length s.slots ≡ n
  pub next_le : s.router.next ≤ n
  pub drained : All IsDrained s.slots

pub get_or-map :
    (ss : List PoolSlot) (d : ℕ) (slot : PoolSlot)
    → get_elem? ss d ≡ some slot
    → get_or (map (λ p. p.is_open) ss) d false ≡ slot.is_open
get_or-map [] d slot e = cc
get_or-map (s ∷ ss) zero slot e = cc
get_or-map (s ∷ ss) (suc d) slot e = get_or-map ss d slot e

abbrev pub Stays : ℕ → Option PoolState → Type 0
Stays n none = Unit
Stays n (some s) = WellFormed n s

module _ (n : ℕ) (small : n + n ≤ usize_mod) where
  -- The slot that `route` picks is open.
  pub picked-open :
      (s : PoolState) (d : ℕ)
      → WellFormed n s
      → (route (opened s) s.router).1 ≡ some d
      → (get_or (opened s) d false ≡ true) × (d < n)
  picked-open s d v picked =
      let (live, below) =
        route_sound (opened s) s.router d (omega (arith, v.sized, v.next_le)) picked in
      (ground (arith, live), omega (arith, v.sized))

  replace :
      (s : PoolState) (i : ℕ) (slot : PoolSlot)
      → WellFormed n s
      → IsDrained slot
      → WellFormed n (record s { slots = set s.slots i slot })
  replace s i slot v d = record {
    sized = v.sized;
    slots_sized = length-set s.slots i slot ∙ v.slots_sized;
    next_le = v.next_le;
    drained = All-set IsDrained s.slots i slot v.drained d;
  }

  same_slots :
      (s s' : PoolState)
      → s'.router ≡ s.router
      → s'.slots ≡ s.slots
      → WellFormed n s
      → WellFormed n s'
  same_slots s s' r e v = record {
    sized = rw r v.sized;
    slots_sized = rw e v.slots_sized;
    next_le = rw r v.next_le;
    drained = rw e v.drained;
  }

  put-Stays :
      (q d : ℕ) (s : PoolState)
      → WellFormed n s
      → get_or (opened s) d false ≡ true
      → Stays n (put q d s)
  unfolding put
  put-Stays q d s v o = elim (Option-cases (get_elem? s.slots d)) [
    | inl e ↦ rw (e, put) tt
    | inr (slot, e) ↦ elim (Bool-cases (ltb (length slot.inbox) inbox_capacity)) [
      | inl room ↦
          rw (e, room, put)
            (same_slots
              (record s { slots = set s.slots d (record slot { inbox = slot.inbox ++ q ∷ [] }) }) _
              refl refl
              (replace s d (record slot { inbox = slot.inbox ++ q ∷ [] }) v
                (inl (sym (get_or-map s.slots d slot e) ∙ o))))
      | inr full ↦ rw (e, full, put) tt
    ]
  ]

  do_deliver-Stays : (s : PoolState) → WellFormed n s → Stays n (do_deliver s)
  unfolding do_deliver forward
  do_deliver-Stays s v = go s.queue refl
    where
      routed : Router × Option ℕ
      routed = route (opened s) s.router

      moved : (rest : List ℕ) → WellFormed n (record s { queue = rest; router = routed.0 })
      moved rest = record {
        sized = (route-keeps (opened s) s.router 0).1 ∙ v.sized;
        slots_sized = v.slots_sized;
        next_le = route-next_le n (opened s) s.router small v.sized v.next_le;
        drained = v.drained;
      }

      forward-Stays :
          (q : ℕ) (rest : List ℕ) (chosen : Option ℕ)
          → routed.1 ≡ chosen
          → Stays n (forward q chosen (record s { queue = rest; router = routed.0 }))
      forward-Stays q rest none e =
          same_slots (record s { queue = rest; router = routed.0 }) _ refl refl (moved rest)
      forward-Stays q rest (some d) e =
          put-Stays q d (record s { queue = rest; router = routed.0 }) (moved rest)
            (picked-open s d v e).0

      go : (qs : List ℕ) → s.queue ≡ qs → Stays n (do_deliver s)
      go [] e = rw (e, do_deliver) tt
      go (q ∷ rest) e = rw (e, do_deliver) (forward-Stays q rest routed.1 refl)

  Keeps : (PoolSlot → Option (List ℕ × PoolSlot)) → Type 0
  Keeps f =
      (slot : PoolSlot) (qs : List ℕ) (slot' : PoolSlot)
      → IsDrained slot
      → f slot ≡ some (qs, slot')
      → IsDrained slot'

  on_slot-Stays :
      (f : PoolSlot → Option (List ℕ × PoolSlot)) (i : ℕ) (s : PoolState)
      → Keeps f
      → WellFormed n s
      → Stays n (on_slot f i s)
  unfolding on_slot Keeps
  on_slot-Stays f i s keeps v = elim (Option-cases (get_elem? s.slots i)) [
    | inl e ↦ rw (e, on_slot) tt
    | inr (slot, e) ↦ elim (Option-cases (f slot)) [
      | inl waits ↦ rw (e, waits, on_slot) tt
      | inr ((qs, slot'), done) ↦
          rw (e, done, on_slot)
            (same_slots (record s { slots = set s.slots i slot' }) _ refl refl
              (replace s i slot' v
                (keeps slot qs slot' (All-get_elem? IsDrained s.slots i slot v.drained e) done)))
    ]
  ]

  received-Keeps : Keeps received
  unfolding Keeps receive_in
  received-Keeps slot qs slot' d e = ground arith

  finished-Keeps : Keeps finished
  unfolding Keeps
  finished-Keeps slot qs slot' d e = ground arith

  crashed-Keeps : Keeps crashed
  unfolding Keeps
  crashed-Keeps slot qs slot' d e = ground arith

  do_acquire-Stays : (q : ℕ) (s : PoolState) → WellFormed n s → Stays n (do_acquire q s)
  unfolding do_acquire
  do_acquire-Stays q s v = elim (ℕ-cases s.permits) [
    | inl e ↦ rw (e, do_acquire) tt
    | inr (m, e) ↦ rw (e, do_acquire) (same_slots s _ refl refl v)
  ]

  submit-Stays : (i : ℕ) (s : PoolState) → WellFormed n s → Stays n (submit i s)
  unfolding submit
  submit-Stays i s v = elim (Option-cases (get_elem? s.holding i)) [
    | inl e ↦ rw (e, submit) tt
    | inr (q, e) ↦ elim (Bool-cases (ltb (length s.queue) queue_capacity)) [
      | inl room ↦ rw (e, room, submit) (same_slots s _ refl refl v)
      | inr full ↦ rw (e, full, submit) tt
    ]
  ]

  pub act-Stays : (a : Action) (s : PoolState) → WellFormed n s → Stays n (act a s)
  unfolding act
  act-Stays (acquire q) s v = do_acquire-Stays q s v
  act-Stays (send i) s v = submit-Stays i s v
  act-Stays deliver s v = do_deliver-Stays s v
  act-Stays (receive i) s v = on_slot-Stays received i s received-Keeps v
  act-Stays (finish i) s v = on_slot-Stays finished i s finished-Keeps v
  act-Stays (crash i) s v = on_slot-Stays crashed i s crashed-Keeps v

  pub run_actions-WellFormed :
      (actions : List Action) (s : PoolState)
      → WellFormed n s
      → WellFormed n (run_actions actions s)
  unfolding run_actions
  run_actions-WellFormed [] s v = v
  run_actions-WellFormed (a ∷ actions) s v =
      run_actions-WellFormed actions (settle s (act a s)) (go (act a s) (act-Stays a s v))
    where
      go : (o : Option PoolState) → Stays n o → WellFormed n (settle s o)
      go none k = v
      go (some s') k = k

pub new-WellFormed : (n : ℕ) → WellFormed n (new_pool n)
unfolding new_pool
new-WellFormed n = record {
  sized = length-replicate n false;
  slots_sized = length-replicate n _;
  next_le = omega arith;
  drained = all_open n;
}
  where
    all_open :
        (k : ℕ)
        → All IsDrained (replicate k (record { inbox = []; is_open = true; running = none }))
    all_open zero = tt
    all_open (suc k) = (inl refl, all_open k)
