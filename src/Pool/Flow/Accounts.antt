-- ===== src/Pool/Flow/Accounts.antt =====
-- The requests that the slots of a pool of worker_pool.rs hold.
use folk_core.Base.{
  ℕ, zero, suc, ◌+◌, ◌≡◌, refl, Bool, true, false, Option, none, some, List, [], ◌∷◌, get_elem?,
  set, count_if, arith, replicate,
}
use folk_core.Pool.Flow.{PoolSlot, slot_requests, receive_in, received, finished, crashed}

-- How many of the requests of some slots satisfy `p`.
abbrev pub in_slots : (ℕ → Bool) → List PoolSlot → ℕ
in_slots p [] = 0
in_slots p (s ∷ ss) = count_if p (slot_requests s) + in_slots p ss

pub in_slots-set :
    (p : ℕ → Bool) (ss : List PoolSlot) (i : ℕ) (old new : PoolSlot)
    → get_elem? ss i ≡ some old
    → in_slots p (set ss i new) + count_if p (slot_requests old)
      ≡ in_slots p ss + count_if p (slot_requests new)
in_slots-set p [] i old new e = cc
in_slots-set p (s ∷ ss) zero old new e = ground arith
in_slots-set p (s ∷ ss) (suc i) old new e = omega (arith, in_slots-set p ss i old new e)

-- What a slot gives up is what it held and no longer holds.
abbrev pub Accounts : PoolSlot → Option (List ℕ × PoolSlot) → Type 0
Accounts slot none = Unit
Accounts slot (some (qs, slot')) =
    (p : ℕ → Bool)
    → count_if p (slot_requests slot) ≡ count_if p (slot_requests slot') + count_if p qs

pub received-Accounts : (slot : PoolSlot) → Accounts slot (received slot)
unfolding receive_in
received-Accounts slot = go slot.inbox slot.is_open slot.running
  where
    go :
        (inbox : List ℕ) (is_open : Bool) (running : Option ℕ)
        → let slot : PoolSlot = record { inbox = inbox; is_open = is_open; running = running } in
          Accounts slot (received slot)
    go inbox is_open (some q) = tt
    go [] is_open none = tt
    go (q ∷ rest) is_open none = λ p. ground arith

pub finished-Accounts : (slot : PoolSlot) → Accounts slot (finished slot)
finished-Accounts slot = go slot.inbox slot.is_open slot.running
  where
    go :
        (inbox : List ℕ) (is_open : Bool) (running : Option ℕ)
        → let slot : PoolSlot = record { inbox = inbox; is_open = is_open; running = running } in
          Accounts slot (finished slot)
    go inbox is_open none = tt
    go inbox is_open (some q) = λ p. ground arith

pub crashed-Accounts : (slot : PoolSlot) → Accounts slot (crashed slot)
crashed-Accounts slot = go slot.inbox slot.is_open slot.running
  where
    go :
        (inbox : List ℕ) (is_open : Bool) (running : Option ℕ)
        → let slot : PoolSlot = record { inbox = inbox; is_open = is_open; running = running } in
          Accounts slot (crashed slot)
    go inbox false running = tt
    go inbox true running = λ p. omega arith

pub in_slots-new :
    (p : ℕ → Bool) (n : ℕ)
    → in_slots p (replicate n (record { inbox = []; is_open = true; running = none })) ≡ 0
in_slots-new p zero = refl
in_slots-new p (suc n) = omega (arith, in_slots-new p n)
