-- ===== src/Pool/Supervisor/Freshness.antt =====
-- Reloads and the supervisor of worker_pool.rs: which worker serves a request.
use folk_core.Base.{
  ℕ, suc, ◌+◌, ◌≤◌, ◌<◌, ◌≡◌, inl, inr, refl, ◌⊎◌, false, some, none, List, [], ◌∷◌, length, All,
  All-append, arith, Option-cases,
}
use folk_core.Config.{WorkersConfig}
use folk_core.Slot.{Profile, u64_mod, mark_ready}
use folk_core.Pool.Supervisor.{
  Handle, Round, Supervisor, Outcome, Effect, continues, returns, panics, executed, boot_worker,
  serve, boot_and_serve, iteration, proceed, run, start,
}
use folk_core.Pool.Supervisor.Invariant.{
  Inv, Ordered, Chronological, StepPost, booted, booted-Inv, iteration-Inv, start-Inv,
}

-- A request goes to a worker that can be recycled only if no reload is newer than the worker.
abbrev pub IsFreshCall : Effect → Type 0
IsFreshCall (executed h booted polled q) = (h.recyclable ≡ false) ⊎ (polled ≤ booted)
IsFreshCall _ = Unit

module _ (p : Profile) (cfg : WorkersConfig) (r : Round) (n g : ℕ) where
  serve-IsFreshCall :
      (m : ℕ) (h : Handle) (s : Supervisor)
      → s.worker ≡ some h
      → Inv cfg n m s
      → All IsFreshCall (serve p cfg r h s).1
  unfolding serve
  serve-IsFreshCall m h s e v = ground arith

  boot_and_serve-IsFreshCall :
      (s : Supervisor)
      → Ordered g r
      → s.worker ≡ none
      → Inv cfg n g s
      → All IsFreshCall (boot_and_serve p cfg r s).1
  unfolding boot_and_serve boot_worker mark_ready
  boot_and_serve-IsFreshCall s ord e v = elim (Option-cases r.boot.spawn) [
    | inl none_spawned ↦ ground arith
    | inr (h, spawned_h) ↦ ground (arith, fresh h)
  ]
    where
      fresh : (h : Handle) → All IsFreshCall (serve p cfg r h (booted r h s)).1
      fresh h = serve-IsFreshCall r.boot_seen h (booted r h s) refl (booted-Inv r h s ord.0 e v)

  iteration-IsFreshCall :
      (s : Supervisor) → Ordered g r → Inv cfg n g s → All IsFreshCall (iteration p cfg r s).1
  unfolding iteration
  iteration-IsFreshCall s ord v = elim (Option-cases s.worker) [
    | inl e ↦ rw (e, iteration) (boot_and_serve-IsFreshCall s ord e v)
    | inr (h, e) ↦ rw (e, iteration) (serve-IsFreshCall g h s e v)
  ]

run-IsFreshCall :
    (p : Profile) (cfg : WorkersConfig) (rs : List Round) (n g : ℕ) (s : Supervisor)
    → n + length rs < u64_mod
    → Chronological g rs
    → Inv cfg n g s
    → All IsFreshCall (run p cfg rs s).1
unfolding run
run-IsFreshCall p cfg [] n g s small ord v = tt
run-IsFreshCall p cfg (r ∷ rs) n g s small ord v =
    go (iteration p cfg r s).0 (iteration p cfg r s).1
      (iteration-Inv p cfg r n (omega arith) g s ord.0 v)
      (iteration-IsFreshCall p cfg r n g s ord.0 v)
      (λ t w. run-IsFreshCall p cfg rs (suc n) r.done_seen t (omega arith) ord.1 w)
  where
    go :
        (o : Outcome) (e : List Effect)
        → StepPost cfg n r o
        → All IsFreshCall e
        → ((t : Supervisor) → Inv cfg (suc n) r.done_seen t → All IsFreshCall (run p cfg rs t).1)
        → All IsFreshCall (proceed o e (run p cfg rs)).1
    go (continues t) e w f ih = All-append IsFreshCall e _ f (ih t w)
    go returns e w f ih = f
    go panics e w f ih = f

-- With the generations of the reload channel in order, over fewer than 2^64 iterations, each call
-- of a worker that can be recycled is made on a worker that was booted at the generation which the
-- supervisor saw when it took the request: no such request runs on code older than a reload.
pub run-fresh :
    (p : Profile) (cfg : WorkersConfig) (rs : List Round) (g now : ℕ)
    → length rs < u64_mod
    → Chronological g rs
    → All IsFreshCall (run p cfg rs (start g now)).1
run-fresh p cfg rs g now small ord =
    run-IsFreshCall p cfg rs 0 g (start g now) (omega arith) ord (start-Inv cfg g now)
