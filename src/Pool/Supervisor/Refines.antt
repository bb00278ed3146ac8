-- ===== src/Pool/Supervisor/Refines.antt =====
-- The supervisor's loop of worker_pool.rs as the slot of a pool: each effect of the loop is an
-- action of Pool.Flow, and a task that ends, by its return or by a panic, drops its inbox.
use folk_core.Base.{
  ℕ, ◌+◌, ◌≡◌, refl, sym, ap, ◌∙◌, true, false, Option, none, some, List, [], ◌∷◌, ◌++◌, length,
  get_elem?, set, get_elem?-set, set-set, set_self,
}
use folk_core.Config.{WorkersConfig}
use folk_core.Slot.{Profile}
use folk_core.Pool.Supervisor.{
  Round, Supervisor, Outcome, Effect, continues, returns, panics, received, executed, released,
  spawned, terminated, slept, run,
}
use folk_core.Pool.Supervisor.Balance.{receipts, releases, releases-run}
use folk_core.Pool.Supervisor.Turns.{InTurn, run-InTurn}
use folk_core.Pool.Flow.{
  PoolSlot, PoolState, Action, receive, finish, crash, act, settle, run_actions,
}
use folk_core.Pool.Supervisor.Served.{
  served, left, left_self, served_slots, receive_step, finish_step, crash_step, merged,
}

-- The actions of slot `i` that the effects of its supervisor are.
abbrev pub slot_actions : ℕ → List Effect → List Action
slot_actions i [] = []
slot_actions i (received q ∷ es) = receive i ∷ slot_actions i es
slot_actions i (released q ∷ es) = finish i ∷ slot_actions i es
slot_actions i (_ ∷ es) = slot_actions i es

abbrev pub end_actions : ℕ → Outcome → List Action
end_actions i (continues s) = []
end_actions i _ = crash i ∷ []

-- How the slot of a task that has ended differs from one that goes on.
abbrev pub ended : ℕ → Outcome → PoolSlot → PoolState → PoolState
ended i (continues t) slot s = record s { slots = set s.slots i slot }
ended i _ slot s = record s {
  permits = s.permits + length slot.inbox;
  released = slot.inbox ++ s.released;
  slots = set s.slots i (record slot { inbox = []; is_open = false; running = none });
}

module _ (i : ℕ) where
  -- What the actions of effects in turn do to the pool.
  after_effects :
      (o : Option ℕ) (es : List Effect) (rest : List ℕ) (s : PoolState) (slot : PoolSlot)
      → InTurn o es
      → get_elem? s.slots i ≡ some slot
      → slot.running ≡ o
      → slot.inbox ≡ receipts es ++ rest
      → run_actions (slot_actions i es) s
        ≡ record (served (releases es) s) { slots = set s.slots i (left rest slot) }
  unfolding run_actions
  after_effects none [] rest s slot v found has waiting =
      ap {A = List PoolSlot} {B = PoolState} (λ slots. record s { slots = slots })
        (sym (set_self s.slots i slot found)
          ∙ ap (set s.slots i) (sym (left_self rest slot has waiting)))
  after_effects none (received q ∷ es) rest s slot v found has waiting =
      ap (run_actions (slot_actions i es))
        (receive_step i s slot q (receipts es ++ rest) found has waiting)
      ∙ after_effects (some q) es rest
          (record s {
            slots = set s.slots i (record slot { inbox = receipts es ++ rest; running = some q });
          })
          (record slot { inbox = receipts es ++ rest; running = some q }) v
          (get_elem?-set s.slots i _ slot found) refl refl
      ∙ merged i (releases es) s _ _
  after_effects none (released q ∷ es) rest s slot v found has waiting = elim v [ ]
  after_effects none (executed h b g q ∷ es) rest s slot v found has waiting = elim v [ ]
  after_effects none (spawned x ∷ es) rest s slot v found has waiting =
      after_effects none es rest s slot v found has waiting
  after_effects none (terminated x ∷ es) rest s slot v found has waiting =
      after_effects none es rest s slot v found has waiting
  after_effects none (slept ∷ es) rest s slot v found has waiting =
      after_effects none es rest s slot v found has waiting
  after_effects (some p) [] rest s slot v found has waiting = elim v [ ]
  after_effects (some p) (released q ∷ es) rest s slot v found has waiting =
      ap (run_actions (slot_actions i es)) (finish_step i s slot q found (has ∙ ap some v.0))
      ∙ after_effects none es rest
          (record s {
            permits = s.permits + 1;
            released = q ∷ s.released;
            slots = set s.slots i (record slot { running = none });
          })
          (record slot { running = none }) v.1 (get_elem?-set s.slots i _ slot found) refl waiting
      ∙ merged i (releases es) (record s { permits = s.permits + 1; released = q ∷ s.released }) _ _
  after_effects (some p) (executed h b g q ∷ es) rest s slot v found has waiting =
      after_effects (some p) es rest s slot v.1 found has waiting
  after_effects (some p) (received q ∷ es) rest s slot v found has waiting = elim v [ ]
  after_effects (some p) (spawned x ∷ es) rest s slot v found has waiting = elim v [ ]
  after_effects (some p) (terminated x ∷ es) rest s slot v found has waiting = elim v [ ]
  after_effects (some p) (slept ∷ es) rest s slot v found has waiting = elim v [ ]

run_actions-append :
    (xs ys : List Action) (s : PoolState)
    → run_actions (xs ++ ys) s ≡ run_actions ys (run_actions xs s)
unfolding run_actions
run_actions-append [] ys s = refl
run_actions-append (a ∷ xs) ys s = run_actions-append xs ys (settle s (act a s))

module _ (i : ℕ) (rest qs : List ℕ) (s : PoolState) (slot : PoolSlot) where
  dropped :
      get_elem? s.slots i ≡ some slot
      → slot.is_open ≡ true
      → let now : PoolState = record (served qs s) { slots = set s.slots i (left rest slot) } in
        settle now (act (crash i) now) ≡ ended i panics (left rest slot) (served qs s)
  dropped found live =
      crash_step i (record (served qs s) { slots = set s.slots i (left rest slot) })
        (left rest slot) (get_elem?-set s.slots i (left rest slot) slot found) live refl
      ∙ ap {A = List PoolSlot} {B = PoolState}
          (λ slots. record (served qs s) {
            permits = (served qs s).permits + length rest;
            released = rest ++ (served qs s).released;
            slots = slots;
          })
          (set-set s.slots i _ _
            ∙ ap
                (λ slots. set slots i (record slot { inbox = []; is_open = false; running = none }))
                (sym (served_slots qs s)))

  after_end :
      (o : Outcome)
      → get_elem? s.slots i ≡ some slot
      → slot.is_open ≡ true
      → run_actions
          (end_actions i o)
          (record (served qs s) { slots = set s.slots i (left rest slot) })
        ≡ ended i o (left rest slot) (served qs s)
  unfolding run_actions
  after_end (continues t) found live =
      ap {A = List PoolSlot} {B = PoolState}
        (λ slots. record (served qs s) { slots = set slots i (left rest slot) })
        (sym (served_slots qs s))
  after_end returns found live = dropped found live
  after_end panics found live = dropped found live

-- The supervisor's loop does to the pool what its slot does in the flow of requests: if the inbox
-- holds the requests that the loop receives, in order, and some rest, then the slot's actions that
-- belong to the effects of the loop all take effect; each served request gives its permit back, the
-- rest stays in the inbox of a loop that goes on, and a loop that ends closes the inbox and gives
-- the permits of the rest back.
pub run-refines :
    (p : Profile) (cfg : WorkersConfig) (rs : List Round) (t : Supervisor) (i : ℕ) (rest : List ℕ)
    (s : PoolState) (slot : PoolSlot)
    → get_elem? s.slots i ≡ some slot
    → slot.is_open ≡ true
    → slot.running ≡ none
    → slot.inbox ≡ receipts (run p cfg rs t).1 ++ rest
    → run_actions (slot_actions i (run p cfg rs t).1 ++ end_actions i (run p cfg rs t).0) s
      ≡ ended i (run p cfg rs t).0 (left rest slot) (served (receipts (run p cfg rs t).1) s)
run-refines p cfg rs t i rest s slot found live idle waiting =
    let (o, es) = run p cfg rs t in
    run_actions-append (slot_actions i es) (end_actions i o) s
    ∙ ap (run_actions (end_actions i o))
        (after_effects i none es rest s slot (run-InTurn p cfg rs t) found idle waiting)
    ∙ after_end i rest (releases es) s slot o found live
    ∙ ap (λ qs. ended i o (left rest slot) (served qs s)) (releases-run p cfg rs t)
