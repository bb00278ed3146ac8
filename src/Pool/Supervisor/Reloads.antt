-- ===== src/Pool/Supervisor/Reloads.antt =====
-- When the supervisor of worker_pool.rs gives up its worker, and when it does not.
use folk_core.Base.{
  ℕ, ◌≤◌, ◌<◌, ◌≡◌, ◌≢◌, refl, true, none, some, List, [], ◌∷◌, map, length, All, arith,
  Option-cases, inl, inr,
}
use folk_core.Config.{WorkersConfig}
use folk_core.Slot.{Profile, u64_mod, new, mark_ready}
use folk_core.Pool.Supervisor.{
  Handle, Round, Supervisor, Outcome, Effect, exec_ok, exec_panic, continues, returns, panics,
  terminated, boot_worker, serve, boot_and_serve, iteration, proceed, run, start,
}
use folk_core.Pool.Supervisor.Invariant.{Chronological, booted, reached-Inv}

serve-reload :
    (p : Profile) (cfg : WorkersConfig) (r : Round) (h : Handle) (s : Supervisor)
    → h.recyclable ≡ true
    → s.seen ≤ s.boot_generation
    → s.boot_generation < r.poll_seen
    → r.poll_seen ≤ r.borrow_seen
    → serve p cfg r h s ≡ (
      continues (record s { worker = none; slot = new r.now; seen = r.poll_seen }),
      terminated h.id ∷ [],
    )
unfolding serve
serve-reload p cfg r h s live old newer later = ground arith

-- No reload is missed: a supervisor that has run for a while and finds, in the reload channel, a
-- generation newer than its recyclable worker terminates that worker in this very iteration,
-- instead of taking a request, and starts over with a new slot.
pub run-reloads :
    (p : Profile) (cfg : WorkersConfig) (rs : List Round) (r : Round) (g now : ℕ) (h : Handle)
    (t : Supervisor)
    → length rs < u64_mod
    → Chronological g rs
    → (run p cfg rs (start g now)).0 ≡ continues t
    → t.worker ≡ some h
    → h.recyclable ≡ true
    → t.boot_generation < r.poll_seen
    → r.poll_seen ≤ r.borrow_seen
    → iteration p cfg r t ≡ (
      continues (record t { worker = none; slot = new r.now; seen = r.poll_seen }),
      terminated h.id ∷ [],
    )
unfolding iteration
run-reloads p cfg rs r g now h t small ord e at live newer later =
    let (m, v) = reached-Inv p cfg rs g now t small ord e in
    let old : t.seen ≤ t.boot_generation = ground (arith, v.fresh) in
    rw (at, iteration) (serve-reload p cfg r h t live old newer later)

-- The round in which the worker's call has succeeded.
abbrev pub succeeded : Round → Round
succeeded r = record r { exec = exec_ok }

module _ (p : Profile) (cfg : WorkersConfig) (r : Round) (calm : r.exec ≢ exec_panic) where
  serve-succeeded :
      (h : Handle) (s : Supervisor) → serve p cfg (succeeded r) h s ≡ serve p cfg r h s
  unfolding serve
  serve-succeeded h s = ground arith

  boot_and_serve-succeeded :
      (s : Supervisor) → boot_and_serve p cfg (succeeded r) s ≡ boot_and_serve p cfg r s
  unfolding boot_and_serve boot_worker mark_ready
  boot_and_serve-succeeded s = elim (Option-cases r.boot.spawn) [
    | inl none_spawned ↦ ground arith
    | inr (h, spawned_h) ↦ ground (arith, serve-succeeded h (booted r h s))
  ]

  iteration-succeeded : (s : Supervisor) → iteration p cfg (succeeded r) s ≡ iteration p cfg r s
  unfolding iteration
  iteration-succeeded s = elim (Option-cases s.worker) [
    | inl e ↦ rw (e, iteration) (boot_and_serve-succeeded s)
    | inr (h, e) ↦ rw (e, iteration) (serve-succeeded h s)
  ]

-- The supervisor is blind to how a call ends, as long as it does not panic: if calls that failed or
-- ran out of time had succeeded, it would have kept the same workers, made the same calls and come
-- to the same state.
pub run-succeeded :
    (p : Profile) (cfg : WorkersConfig) (rs : List Round) (s : Supervisor)
    → All (λ r. r.exec ≢ exec_panic) rs
    → run p cfg (map succeeded rs) s ≡ run p cfg rs s
unfolding run
run-succeeded p cfg [] s calm = refl
run-succeeded p cfg (r ∷ rs) s calm =
    rw (iteration-succeeded p cfg r calm.0 s)
      (go (iteration p cfg r s).0 (iteration p cfg r s).1 (λ t. run-succeeded p cfg rs t calm.1))
  where
    go :
        (o : Outcome) (e : List Effect)
        → ((t : Supervisor) → run p cfg (map succeeded rs) t ≡ run p cfg rs t)
        → proceed o e (run p cfg (map succeeded rs)) ≡ proceed o e (run p cfg rs)
    go (continues t) e ih = rw (ih t) refl
    go returns e ih = refl
    go panics e ih = refl
