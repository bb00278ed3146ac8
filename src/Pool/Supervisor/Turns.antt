-- ===== src/Pool/Supervisor/Turns.antt =====
-- The order of what the supervisor of worker_pool.rs does.
use folk_core.Base.{
  ℕ, ◌≡◌, refl, inl, inr, Option, none, some, List, [], ◌∷◌, ◌++◌, arith, Option-cases,
}
use folk_core.Config.{WorkersConfig}
use folk_core.Slot.{Profile, mark_ready, mark_busy, mark_idle}
use folk_core.Pool.Supervisor.{
  Handle, Round, Supervisor, Outcome, Effect, continues, returns, panics, received, executed,
  released, spawned, terminated, slept, Message, request, inbox_closed, after_request, on_reload,
  dispatch, boot_worker, serve, boot_and_serve, iteration, proceed, run,
}
use folk_core.Pool.Supervisor.Invariant.{booted}

-- The request in hand, and what follows: a request is called for and released only while it is in
-- hand, and no other is received, no worker booted and none terminated before it is released.
abbrev pub InTurn : Option ℕ → List Effect → Type 0
InTurn none [] = Unit
InTurn none (received q ∷ es) = InTurn (some q) es
InTurn none (released q ∷ es) = ⊥
InTurn none (executed h b g q ∷ es) = ⊥
InTurn none (spawned w ∷ es) = InTurn none es
InTurn none (terminated w ∷ es) = InTurn none es
InTurn none (slept ∷ es) = InTurn none es
InTurn (some p) [] = ⊥
InTurn (some p) (released q ∷ es) = (p ≡ q) × InTurn none es
InTurn (some p) (executed h b g q ∷ es) = (p ≡ q) × InTurn (some p) es
InTurn (some p) (received q ∷ es) = ⊥
InTurn (some p) (spawned w ∷ es) = ⊥
InTurn (some p) (terminated w ∷ es) = ⊥
InTurn (some p) (slept ∷ es) = ⊥

InTurn-append :
    (o : Option ℕ) (es fs : List Effect) → InTurn o es → InTurn none fs → InTurn o (es ++ fs)
InTurn-append none [] fs v w = w
InTurn-append none (received q ∷ es) fs v w = InTurn-append (some q) es fs v w
InTurn-append none (released q ∷ es) fs v w = elim v [ ]
InTurn-append none (executed h b g q ∷ es) fs v w = elim v [ ]
InTurn-append none (spawned x ∷ es) fs v w = InTurn-append none es fs v w
InTurn-append none (terminated x ∷ es) fs v w = InTurn-append none es fs v w
InTurn-append none (slept ∷ es) fs v w = InTurn-append none es fs v w
InTurn-append (some p) [] fs v w = elim v [ ]
InTurn-append (some p) (released q ∷ es) fs v w = (v.0, InTurn-append none es fs v.1 w)
InTurn-append (some p) (executed h b g q ∷ es) fs v w = (v.0, InTurn-append (some p) es fs v.1 w)
InTurn-append (some p) (received q ∷ es) fs v w = elim v [ ]
InTurn-append (some p) (spawned x ∷ es) fs v w = elim v [ ]
InTurn-append (some p) (terminated x ∷ es) fs v w = elim v [ ]
InTurn-append (some p) (slept ∷ es) fs v w = elim v [ ]

module _ (p : Profile) (cfg : WorkersConfig) (r : Round) where
  after_request-InTurn : (h : Handle) (s : Supervisor) → InTurn none (after_request cfg r h s).1
  unfolding after_request
  after_request-InTurn h s = ground arith

  on_reload-InTurn : (h : Handle) (s : Supervisor) → InTurn none (on_reload r h s).1
  unfolding on_reload
  on_reload-InTurn h s = ground arith

  dispatch-InTurn : (h : Handle) (q : ℕ) (s : Supervisor) → InTurn none (dispatch p cfg r h q s).1
  unfolding dispatch
  dispatch-InTurn h q s = elim (Option-cases (mark_busy p s.slot)) [
    | inl e ↦ rw (e, dispatch) (refl, tt)
    | inr (busy, e) ↦ elim (Option-cases (mark_idle p busy)) [
      | inl e' ↦ rw (e, dispatch) (ground (arith, e'))
      | inr (idle, e') ↦
          rw (e, dispatch) (ground (arith, e', after_request-InTurn h (record s { slot = idle })))
    ]
  ]

  serve-InTurn : (h : Handle) (s : Supervisor) → InTurn none (serve p cfg r h s).1
  unfolding serve
  serve-InTurn h s = go r.message refl
    where
      go : (m : Message) → r.message ≡ m → InTurn none (serve p cfg r h s).1
      go inbox_closed e = ground (arith, on_reload-InTurn h s)
      go (request q) e = ground (arith, on_reload-InTurn h s, dispatch-InTurn h q s)

  boot_and_serve-InTurn : (s : Supervisor) → InTurn none (boot_and_serve p cfg r s).1
  unfolding boot_and_serve boot_worker mark_ready
  boot_and_serve-InTurn s = elim (Option-cases r.boot.spawn) [
    | inl none_spawned ↦ ground arith
    | inr (h, spawned_h) ↦ ground (arith, serve-InTurn h (booted r h s))
  ]

  iteration-InTurn : (s : Supervisor) → InTurn none (iteration p cfg r s).1
  unfolding iteration
  iteration-InTurn s = elim (Option-cases s.worker) [
    | inl e ↦ rw (e, iteration) (boot_and_serve-InTurn s)
    | inr (h, e) ↦ rw (e, iteration) (serve-InTurn h s)
  ]

-- A supervisor handles one request at a time, from its receipt over the worker's call to the release
-- of its permit; while it has a request in hand, it takes no other, and neither boots nor terminates
-- a worker. At the end of the task it has none in hand, even after a panic.
pub run-InTurn :
    (p : Profile) (cfg : WorkersConfig) (rs : List Round) (s : Supervisor)
    → InTurn none (run p cfg rs s).1
unfolding run
run-InTurn p cfg [] s = tt
run-InTurn p cfg (r ∷ rs) s =
    go (iteration p cfg r s).0 (iteration p cfg r s).1 (iteration-InTurn p cfg r s)
      (run-InTurn p cfg rs)
  where
    go :
        (o : Outcome) (e : List Effect)
        → InTurn none e
        → ((t : Supervisor) → InTurn none (run p cfg rs t).1)
        → InTurn none (proceed o e (run p cfg rs)).1
    go (continues t) e v ih = InTurn-append none e _ v (ih t)
    go returns e v ih = v
    go panics e v ih = v
