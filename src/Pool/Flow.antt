-- ===== src/Pool/Flow.antt =====
-- The requests of a whole pool of crates/folk-core/src/worker_pool.rs, from `dispatch_streamed`
-- through the request channel, the loop of `pool_main` and the inboxes to the supervisors. The
-- tasks interleave: an action is what one of them does up to its next wait, and `none` says that
-- the task waits. A request is a number; its permit goes where the request goes.
pub mod Accounts
pub mod Conservation
pub mod Slots
pub mod Steps
pub mod Progress
pub mod Drain
pub mod Maximal
pub mod Order
pub mod Moves
pub mod Fifo
use folk_core.Base.{
  ℕ, zero, suc, ◌+◌, ◌-◌, Bool, true, false, Option, none, some, List, [], ◌∷◌, ◌++◌, map, length,
  ltb, get_elem?, set, replicate, if◌then◌else◌, concat,
}
use folk_core.Pool.Router.{Router, route, init}

-- A slot: its inbox, whether its supervisor is there to receive, and the request that its worker
-- has.
pub record PoolSlot : Type 0 where
  pub inbox : List ℕ
  pub is_open : Bool
  pub running : Option ℕ

-- `holding` are the requests whose callers are between the permit and the channel; `acquired` and
-- `released` note the permits taken and given back.
pub record PoolState : Type 0 where
  pub permits : ℕ
  pub holding : List ℕ
  pub queue : List ℕ
  pub router : Router
  pub slots : List PoolSlot
  pub acquired : List ℕ
  pub released : List ℕ

pub data Action : Type 0 where
  acquire send receive finish crash : ℕ → Action
  deliver : Action

-- What the request channel can hold, with the request that `pool_main` has taken out of it and not
-- delivered yet, which here stays at the front of `queue`; and the capacity of an inbox.
abbrev pub queue_capacity : ℕ
queue_capacity = 1025

abbrev pub inbox_capacity : ℕ
inbox_capacity = 8

abbrev pub remove {ℓ} : {A : Type ℓ} → List A → ℕ → List A
remove [] i = []
remove (x ∷ xs) zero = xs
remove (x ∷ xs) (suc i) = x ∷ remove xs i

abbrev pub requests_of : Option ℕ → List ℕ
requests_of none = []
requests_of (some q) = q ∷ []

abbrev pub slot_requests : PoolSlot → List ℕ
slot_requests s = requests_of s.running ++ s.inbox

-- `acquire_owned`
unfoldable pub do_acquire : ℕ → PoolState → Option PoolState
do_acquire q s = elim s.permits [
  | zero ↦ none
  | suc n ↦
      some (record s { permits = n; holding = s.holding ++ q ∷ []; acquired = q ∷ s.acquired })
]

-- `request_tx.send`, by the caller in place `i`.
unfoldable pub submit : ℕ → PoolState → Option PoolState
submit i s = elim (get_elem? s.holding i) [
  | none ↦ none
  | some q ↦
      if ltb (length s.queue) queue_capacity
      then some (record s { holding = remove s.holding i; queue = s.queue ++ q ∷ [] })
      else none
]

-- The end of a request that is dropped, or that its worker has finished.
abbrev pub release : List ℕ → PoolState → PoolState
release qs s = record s { permits = s.permits + length qs; released = qs ++ s.released }

-- The delivery to the slot that `route` picks, which waits while that inbox is full.
unfoldable pub put : ℕ → ℕ → PoolState → Option PoolState
put q d s = elim (get_elem? s.slots d) [
  | none ↦ none
  | some slot ↦
      if ltb (length slot.inbox) inbox_capacity
      then some (record s { slots = set s.slots d (record slot { inbox = slot.inbox ++ q ∷ [] }) })
      else none
]

unfoldable pub forward : ℕ → Option ℕ → PoolState → Option PoolState
forward q none s = some (release (q ∷ []) s)
forward q (some d) s = put q d s

-- One round of the loop of `pool_main`.
unfoldable pub do_deliver : PoolState → Option PoolState
do_deliver s = elim s.queue [
  | [] ↦ none
  | q ∷ rest ↦
      let (router, chosen) = route (map (λ p. p.is_open) s.slots) s.router in
      forward q chosen (record s { queue = rest; router = router })
]

-- The supervisor's `inbox.recv`, while its worker is idle.
unfoldable pub receive_in : PoolSlot → Option PoolSlot
receive_in slot = elim slot.running [
  | some q ↦ none
  | none ↦ elim slot.inbox [
    | [] ↦ none
    | q ∷ rest ↦ some (record slot { inbox = rest; running = some q })
  ]
]

unfoldable pub on_slot : (PoolSlot → Option (List ℕ × PoolSlot)) → ℕ → PoolState → Option PoolState
on_slot f i s = elim (get_elem? s.slots i) [
  | none ↦ none
  | some slot ↦ elim (f slot) [
    | none ↦ none
    | some (qs, slot') ↦ some (release qs (record s { slots = set s.slots i slot' }))
  ]
]

abbrev pub received : PoolSlot → Option (List ℕ × PoolSlot)
received slot = elim (receive_in slot) [ none ↦ none | some slot' ↦ some ([], slot') ]

-- The call of the worker ends, in whatever way but a panic: `drop(permit)`.
abbrev pub finished : PoolSlot → Option (List ℕ × PoolSlot)
finished slot = elim slot.running [
  | none ↦ none
  | some q ↦ some (q ∷ [], record slot { running = none })
]

-- The supervisor panics: unwinding drops its request and its inbox, with what is in it.
abbrev pub crashed : PoolSlot → Option (List ℕ × PoolSlot)
crashed slot =
    if slot.is_open
    then some (slot_requests slot, record slot { inbox = []; is_open = false; running = none })
    else none

unfoldable pub act : Action → PoolState → Option PoolState
act (acquire q) s = do_acquire q s
act (send i) s = submit i s
act deliver s = do_deliver s
act (receive i) s = on_slot received i s
act (finish i) s = on_slot finished i s
act (crash i) s = on_slot crashed i s

-- An action of a task that waits leaves the pool as it is.
abbrev pub settle : PoolState → Option PoolState → PoolState
settle s none = s
settle s (some s') = s'

unfoldable pub run_actions : List Action → PoolState → PoolState
run_actions [] s = s
run_actions (a ∷ actions) s = run_actions actions (settle s (act a s))

-- `WorkerPool::new`
unfoldable pub new_pool : ℕ → PoolState
unfolding init
new_pool count = record {
  permits = count;
  holding = [];
  queue = [];
  router = init count;
  slots = replicate count (record { inbox = []; is_open = true; running = none });
  acquired = [];
  released = [];
}
