-- ===== src/Pool/Supervisor/Balance.antt =====
-- Permits and workers of the supervisor of worker_pool.rs, read off what it does to the outside.
use folk_core.Base.{
  ℕ, ◌≡◌, ◌≢◌, inl, inr, refl, ap, Option, some, none, List, [], ◌∷◌, ◌++◌, arith, append_assoc,
  append-nil, Option-cases,
}
use folk_core.Config.{WorkersConfig}
use folk_core.Slot.{Profile, mark_ready}
use folk_core.Pool.Supervisor.{
  Handle, Round, Supervisor, Outcome, Effect, continues, returns, panics, spawned, terminated,
  received, released, boot_worker, serve, boot_and_serve, iteration, proceed, run, start,
}
use folk_core.Pool.Supervisor.Invariant.{booted}

abbrev pub picks : (Effect → Option ℕ) → List Effect → List ℕ
picks f [] = []
picks f (e ∷ es) = elim (f e) [ none ↦ picks f es | some q ↦ q ∷ picks f es ]

abbrev receipt : Effect → Option ℕ
receipt (received q) = some q
receipt _ = none

abbrev release : Effect → Option ℕ
release (released q) = some q
release _ = none

abbrev spawning : Effect → Option ℕ
spawning (spawned w) = some w
spawning _ = none

abbrev stopping : Effect → Option ℕ
stopping (terminated w) = some w
stopping _ = none

-- The requests taken from the inbox, and those whose permit was given back.
abbrev pub receipts : List Effect → List ℕ
receipts = picks receipt

abbrev pub releases : List Effect → List ℕ
releases = picks release

-- The workers spawned, and those terminated.
abbrev pub spawns : List Effect → List ℕ
spawns = picks spawning

abbrev pub stops : List Effect → List ℕ
stops = picks stopping

picks-append :
    (f : Effect → Option ℕ) (es fs : List Effect) → picks f (es ++ fs) ≡ picks f es ++ picks f fs
picks-append f [] fs = refl
picks-append f (e ∷ es) fs = ground (arith, picks-append f es fs)

abbrev pub worker_id : Option Handle → List ℕ
worker_id none = []
worker_id (some h) = h.id ∷ []

-- The worker that a task still holds.
abbrev pub held : Outcome → List ℕ
held (continues s) = worker_id s.worker
held _ = []

module _ (p : Profile) (cfg : WorkersConfig) (r : Round) where
  serve-permits :
      (h : Handle) (s : Supervisor)
      → releases (serve p cfg r h s).1 ≡ receipts (serve p cfg r h s).1
  unfolding serve
  serve-permits h s = ground arith

  boot_and_serve-permits :
      (s : Supervisor)
      → releases (boot_and_serve p cfg r s).1 ≡ receipts (boot_and_serve p cfg r s).1
  unfolding boot_and_serve boot_worker mark_ready
  boot_and_serve-permits s = elim (Option-cases r.boot.spawn) [
    | inl none_spawned ↦ ground arith
    | inr (h, spawned_h) ↦ ground (arith, serve-permits h (booted r h s))
  ]

  iteration-permits :
      (s : Supervisor) → releases (iteration p cfg r s).1 ≡ receipts (iteration p cfg r s).1
  unfolding iteration
  iteration-permits s = elim (Option-cases s.worker) [
    | inl e ↦ rw (e, iteration) (boot_and_serve-permits s)
    | inr (h, e) ↦ rw (e, iteration) (serve-permits h s)
  ]

  serve-workers :
      (h : Handle) (s : Supervisor)
      → s.worker ≡ some h
      → (serve p cfg r h s).0 ≢ panics
      → h.id ∷ spawns (serve p cfg r h s).1
        ≡ stops (serve p cfg r h s).1 ++ held (serve p cfg r h s).0
  unfolding serve
  serve-workers h s e calm = ground arith

  boot_and_serve-workers :
      (s : Supervisor)
      → s.worker ≡ none
      → (boot_and_serve p cfg r s).0 ≢ panics
      → spawns (boot_and_serve p cfg r s).1
        ≡ stops (boot_and_serve p cfg r s).1 ++ held (boot_and_serve p cfg r s).0
  unfolding boot_and_serve boot_worker mark_ready
  boot_and_serve-workers s none_yet calm = elim (Option-cases r.boot.spawn) [
    | inl none_spawned ↦ ground arith
    | inr (h, spawned_h) ↦ ground (arith, serve-workers h (booted r h s))
  ]

  iteration-workers :
      (s : Supervisor)
      → (iteration p cfg r s).0 ≢ panics
      → worker_id s.worker ++ spawns (iteration p cfg r s).1
        ≡ stops (iteration p cfg r s).1 ++ held (iteration p cfg r s).0
  unfolding iteration
  iteration-workers s = elim (Option-cases s.worker) [
    | inl e ↦ rw (e, iteration) (boot_and_serve-workers s e)
    | inr (h, e) ↦ rw (e, iteration) (serve-workers h s e)
  ]

-- Every request that a supervisor takes from its inbox has its semaphore permit released once, in
-- the order of arrival, whatever the worker does: finish, fail, run out of time or panic.
pub releases-run :
    (p : Profile) (cfg : WorkersConfig) (rs : List Round) (s : Supervisor)
    → releases (run p cfg rs s).1 ≡ receipts (run p cfg rs s).1
unfolding run
releases-run p cfg [] s = refl
releases-run p cfg (r ∷ rs) s =
    go (iteration p cfg r s).0 (iteration p cfg r s).1 (iteration-permits p cfg r s)
      (releases-run p cfg rs)
  where
    go :
        (o : Outcome) (e : List Effect)
        → releases e ≡ receipts e
        → ((t : Supervisor) → releases (run p cfg rs t).1 ≡ receipts (run p cfg rs t).1)
        → releases (proceed o e (run p cfg rs)).1 ≡ receipts (proceed o e (run p cfg rs)).1
    go (continues t) e same ih = simp (picks-append, same, ih t)
    go returns e same ih = same
    go panics e same ih = same

run-workers :
    (p : Profile) (cfg : WorkersConfig) (rs : List Round) (s : Supervisor)
    → (run p cfg rs s).0 ≢ panics
    → worker_id s.worker ++ spawns (run p cfg rs s).1
      ≡ stops (run p cfg rs s).1 ++ held (run p cfg rs s).0
unfolding run
run-workers p cfg [] s calm = append-nil (worker_id s.worker)
run-workers p cfg (r ∷ rs) s calm =
    go (iteration p cfg r s).0 (iteration p cfg r s).1 (iteration-workers p cfg r s)
      (run-workers p cfg rs) calm
  where
    go :
        (o : Outcome) (e : List Effect)
        → (o ≢ panics → worker_id s.worker ++ spawns e ≡ stops e ++ held o)
        → ((t : Supervisor)
            → (run p cfg rs t).0 ≢ panics
            → worker_id t.worker ++ spawns (run p cfg rs t).1
              ≡ stops (run p cfg rs t).1 ++ held (run p cfg rs t).0)
        → (proceed o e (run p cfg rs)).0 ≢ panics
        → worker_id s.worker ++ spawns (proceed o e (run p cfg rs)).1
          ≡ stops (proceed o e (run p cfg rs)).1 ++ held (proceed o e (run p cfg rs)).0
    go (continues t) e same ih calm' =
        simp (picks-append, ← append_assoc, same (λ q. cc))
          (simp append_assoc (ap (λ l. stops e ++ l) (ih t calm')))
    go returns e same ih calm' = same calm'
    go panics e same ih calm' = absurd (calm' refl)

-- A supervisor that has not panicked has terminated every worker it spawned but the one it still
-- holds, in the order of spawning; once it returns, it holds none.
pub spawns-run :
    (p : Profile) (cfg : WorkersConfig) (rs : List Round) (g now : ℕ)
    → (run p cfg rs (start g now)).0 ≢ panics
    → spawns (run p cfg rs (start g now)).1
      ≡ stops (run p cfg rs (start g now)).1 ++ held (run p cfg rs (start g now)).0
unfolding start
spawns-run p cfg rs g now = run-workers p cfg rs (start g now)
