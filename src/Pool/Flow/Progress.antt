-- ===== src/Pool/Flow/Progress.antt =====
-- Which action of a pool of worker_pool.rs moves a request on while there is one in flight.
use folk_core.Base.{
  ℕ, zero, suc, ℕ-cases, ◌+◌, ◌≤◌, ◌<◌, ◌≡◌, ◌⊎◌, inl, inr, refl, ap, ◌∙◌, true, Option, none, some,
  List, [], ◌∷◌, length, get_elem?, arith, Option-cases, bit, is_some, ltb,
}
use folk_core.Pool.Router.{Router, route, usize_mod}
use folk_core.Pool.Flow.{
  inbox_capacity, PoolSlot, PoolState, Action, send, receive, finish, deliver, submit, put, forward,
  do_deliver, receive_in, on_slot, received, finished, act,
}
use folk_core.Pool.Flow.Accounts.{in_slots}
use folk_core.Pool.Flow.Conservation.{in_flight, count_if_all}
use folk_core.Pool.Flow.Slots.{opened, WellFormed, picked-open}
use folk_core.Pool.Flow.Steps.{IsForward, weight, weights, steps_left}

-- A slot that has something to do, if there is one.
busy :
    (ss : List PoolSlot)
    → (weights ss ≡ 0)
      ⊎ ((i : ℕ) × (slot : PoolSlot) × (get_elem? ss i ≡ some slot) × (0 < weight slot))
busy [] = inl refl
busy (s ∷ ss) = elim (ℕ-cases (weight s)) [
  | inl e ↦ elim (busy ss) [
    | inl none_busy ↦ inl (omega arith)
    | inr (i, slot, at, more) ↦ inr (suc i, slot, at, more)
  ]
  | inr (m, e) ↦ inr (0, s, refl, omega arith)
]

weights-get :
    (ss : List PoolSlot) (i : ℕ) (slot : PoolSlot)
    → get_elem? ss i ≡ some slot
    → weight slot ≤ weights ss
weights-get [] i slot e = cc
weights-get (s ∷ ss) zero slot e = ground arith
weights-get (s ∷ ss) (suc i) slot e = omega (arith, weights-get ss i slot e)

get_elem?-lt :
    (ss : List PoolSlot) (i : ℕ) → i < length ss → (slot : PoolSlot) × (get_elem? ss i ≡ some slot)
get_elem?-lt [] i lt = absurd (omega arith)
get_elem?-lt (s ∷ ss) zero lt = (s, refl)
get_elem?-lt (s ∷ ss) (suc i) lt = get_elem?-lt ss i (omega arith)

-- An action that moves a request on and does not wait.
abbrev pub Moves : PoolState → Type 0
Moves s = (a : Action) × IsForward a × (is_some (act a s) ≡ true)

on_slot-runs :
    (f : PoolSlot → Option (List ℕ × PoolSlot)) (i : ℕ) (s : PoolState) (slot slot' : PoolSlot)
    (qs : List ℕ)
    → get_elem? s.slots i ≡ some slot
    → f slot ≡ some (qs, slot')
    → is_some (on_slot f i s) ≡ true
unfolding on_slot
on_slot-runs f i s slot slot' qs e done = rw (e, done, on_slot) refl

busy-Moves :
    (s : PoolState) (i : ℕ) (slot : PoolSlot)
    → get_elem? s.slots i ≡ some slot
    → 0 < weight slot
    → Moves s
unfolding act
busy-Moves s i slot e pos = elim (Option-cases slot.running) [
  | inr (q, runs) ↦
      let done : finished slot ≡ some (q ∷ [], record slot { running = none }) = rw runs refl in
      (finish i, tt, on_slot-runs finished i s slot _ (q ∷ []) e done)
  | inl idle ↦ waiting idle slot.inbox refl
]
  where
    waiting : slot.running ≡ none → (inbox : List ℕ) → slot.inbox ≡ inbox → Moves s
    waiting idle [] empty = absurd (omega (arith, ap length empty, ap (λ o. bit (is_some o)) idle))
    waiting idle (q ∷ rest) full =
        let taken : received slot ≡ some ([], record slot { inbox = rest; running = some q }) =
          unfold receive_in in rw (idle, full) refl in
        (receive i, tt, on_slot-runs received i s slot _ [] e taken)

-- With empty inboxes, the loop of `pool_main` does not wait for room.
deliver-Moves :
    (n q : ℕ) (rest : List ℕ) (s : PoolState)
    → n + n ≤ usize_mod
    → WellFormed n s
    → s.queue ≡ q ∷ rest
    → weights s.slots ≡ 0
    → Moves s
unfolding act
deliver-Moves n q rest s small v e calm = (deliver, tt, delivered routed.1 refl)
  where
    routed : Router × Option ℕ
    routed = route (opened s) s.router

    after : PoolState
    after = record s { queue = rest; router = routed.0 }

    putting : (d : ℕ) → d < n → is_some (put q d after) ≡ true
    putting d lt =
        let (slot, at) = get_elem?-lt s.slots d (omega (arith, v.slots_sized)) in
        let room : ltb (length slot.inbox) inbox_capacity ≡ true =
          ground (arith, weights-get s.slots d slot at) in
        unfold put in rw (at, put) (rw room refl)

    forwarded : (chosen : Option ℕ) → routed.1 ≡ chosen → is_some (forward q chosen after) ≡ true
    forwarded none c = unfold forward in refl
    forwarded (some d) c = unfold forward in putting d (picked-open n small s d v c).1

    delivered : (chosen : Option ℕ) → routed.1 ≡ chosen → is_some (do_deliver s) ≡ true
    delivered chosen c =
        unfold do_deliver in
        rw (e, do_deliver) (ap (λ o. is_some (forward q o after)) c ∙ forwarded chosen c)

send-Moves : (q : ℕ) (rest : List ℕ) (s : PoolState) → s.holding ≡ q ∷ rest → s.queue ≡ [] → Moves s
unfolding act submit
send-Moves q rest s e empty = (send 0, tt, rw (e, empty, submit) refl)

-- While a request needs a step, some action moves one on without waiting.
pub progress :
    (n : ℕ) (s : PoolState) → n + n ≤ usize_mod → WellFormed n s → 0 < steps_left s → Moves s
progress n s small v pos = elim (busy s.slots) [
  | inr (i, slot, at, more) ↦ busy-Moves s i slot at more
  | inl calm ↦ queued calm s.queue refl
]
  where
    held : s.queue ≡ [] → (hs : List ℕ) → s.holding ≡ hs → weights s.slots ≡ 0 → Moves s
    held empty [] e calm = absurd (omega (arith, ap length e, ap length empty))
    held empty (q ∷ rest) e calm = send-Moves q rest s e empty

    queued : weights s.slots ≡ 0 → (qs : List ℕ) → s.queue ≡ qs → Moves s
    queued calm [] e = held e s.holding refl calm
    queued calm (q ∷ rest) e = deliver-Moves n q rest s small v e calm

weights-in_slots : (ss : List PoolSlot) → weights ss ≡ 0 → in_slots (λ q. true) ss ≡ 0
weights-in_slots [] e = refl
weights-in_slots (s ∷ ss) e =
    let rest = weights-in_slots ss (omega arith) in ground (arith, empty s.inbox refl)
  where
    empty : (qs : List ℕ) → s.inbox ≡ qs → s.inbox ≡ []
    empty [] f = f
    empty (q ∷ qs) f = absurd (omega (arith, ap length f))

pub none_left : (s : PoolState) → steps_left s ≡ 0 → in_flight (λ q. true) s ≡ 0
none_left s e =
    omega
      (arith, weights-in_slots s.slots (omega arith), count_if_all s.holding, count_if_all s.queue)
