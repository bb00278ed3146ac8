-- ===== src/Pool/Supervisor/Served.antt =====
-- What the actions of a slot of worker_pool.rs do to its pool.
use folk_core.Base.{
  ℕ, ◌+◌, ◌≡◌, refl, ap, ◌∙◌, true, false, none, some, List, [], ◌∷◌, ◌++◌, length, get_elem?, set,
  set-set, arith, if◌then◌else◌,
}
use folk_core.Pool.Flow.{
  PoolSlot, PoolState, receive, finish, crash, receive_in, on_slot, act, settle, release,
}

-- What the pool sees of a supervisor that has served the requests `qs`, in order.
abbrev pub served : List ℕ → PoolState → PoolState
served [] s = s
served (q ∷ qs) s = served qs (record s { permits = s.permits + 1; released = q ∷ s.released })

abbrev pub left : List ℕ → PoolSlot → PoolSlot
left rest slot = record slot { inbox = rest; running = none }

pub left_self :
    (rest : List ℕ) (slot : PoolSlot)
    → slot.running ≡ none
    → slot.inbox ≡ rest
    → left rest slot ≡ slot
left_self rest slot has waiting = rw (has, waiting) refl

pub release_nothing : (s : PoolState) → release [] s ≡ s
release_nothing s = ap (λ n. record s { permits = n }) (omega arith)

pub served_slots : (qs : List ℕ) (s : PoolState) → (served qs s).slots ≡ s.slots
served_slots [] s = refl
served_slots (q ∷ qs) s =
    served_slots qs (record s { permits = s.permits + 1; released = q ∷ s.released })

module _ (i : ℕ) where
  pub receive_step :
      (s : PoolState) (slot : PoolSlot) (q : ℕ) (tail : List ℕ)
      → get_elem? s.slots i ≡ some slot
      → slot.running ≡ none
      → slot.inbox ≡ q ∷ tail
      → settle s (act (receive i) s)
        ≡ record s { slots = set s.slots i (record slot { inbox = tail; running = some q }) }
  unfolding act on_slot receive_in
  receive_step s slot q tail found idle waiting =
      rw (found, act, on_slot, receive_in, idle, waiting) (release_nothing _)

  pub finish_step :
      (s : PoolState) (slot : PoolSlot) (q : ℕ)
      → get_elem? s.slots i ≡ some slot
      → slot.running ≡ some q
      → settle s (act (finish i) s) ≡ record s {
        permits = s.permits + 1;
        released = q ∷ s.released;
        slots = set s.slots i (record slot { running = none });
      }
  unfolding act on_slot
  finish_step s slot q found busy = rw (found, act, on_slot, busy) refl

  pub crash_step :
      (s : PoolState) (slot : PoolSlot)
      → get_elem? s.slots i ≡ some slot
      → slot.is_open ≡ true
      → slot.running ≡ none
      → settle s (act (crash i) s) ≡ record s {
        permits = s.permits + length slot.inbox;
        released = slot.inbox ++ s.released;
        slots = set s.slots i (record slot { inbox = []; is_open = false; running = none });
      }
  unfolding act on_slot
  crash_step s slot found live idle = rw (found, act, on_slot, live, if◌then◌else◌, idle) refl

  pub served-slots :
      (qs : List ℕ) (s : PoolState) (slots : List PoolSlot)
      → served qs (record s { slots = slots }) ≡ record (served qs s) { slots = slots }
  served-slots [] s slots = refl
  served-slots (q ∷ qs) s slots =
      served-slots qs (record s { permits = s.permits + 1; released = q ∷ s.released }) slots

  pub merged :
      (qs : List ℕ) (s : PoolState) (a b : PoolSlot)
      → record (served qs (record s { slots = set s.slots i a })) {
        slots = set (set s.slots i a) i b;
      }
        ≡ record (served qs s) { slots = set s.slots i b }
  merged qs s a b =
      ap {A = PoolState} {B = PoolState} (λ t. record t { slots = set (set s.slots i a) i b })
        (served-slots qs s (set s.slots i a))
      ∙ ap {A = List PoolSlot} {B = PoolState} (λ slots. record (served qs s) { slots = slots })
          (set-set s.slots i a b)
