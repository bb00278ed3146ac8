-- ===== src/Pool/Supervisor/Invariant.antt =====
-- What holds of the supervisor of worker_pool.rs between two iterations, over every list of rounds
-- of which fewer than 2^64 are run, so that the u64 job counter does not overflow.
use folk_core.Base.{
  ℕ, suc, ◌+◌, ◌≤◌, ◌<◌, ◌≡◌, ◌≢◌, ◌⊎◌, inl, inr, true, false, Option, none, some, List, [], ◌∷◌,
  length, All, subst, arith, Option-cases,
}
use folk_core.Config.{WorkersConfig}
use folk_core.Slot.{
  SlotState, SlotInfo, Profile, u64_mod, new, should_recycle, mark_ready, mark_busy, mark_idle,
}
use folk_core.Pool.Supervisor.{
  Handle, Round, Supervisor, Outcome, continues, returns, panics, exec_panic, boot_worker, serve,
  boot_and_serve, iteration, proceed, run, start, Effect,
}

-- A slot is idle while it has a worker, and new while it has none.
abbrev pub SlotFits : Option Handle → SlotInfo → Type 0
SlotFits none slot = (slot.state ≡ SlotState.spawning) × (slot.jobs_handled ≡ 0)
SlotFits (some h) slot = slot.state ≡ SlotState.idle

-- A worker that can be recycled was booted after the last reload that its supervisor has seen.
abbrev pub BootedAfter : Option Handle → ℕ → ℕ → Type 0
BootedAfter none booted seen = Unit
BootedAfter (some h) booted seen = h.recyclable ≡ true → seen ≤ booted

-- A worker that can be recycled has not used up its jobs.
abbrev pub HasJobsLeft : WorkersConfig → Option Handle → SlotInfo → Type 0
HasJobsLeft cfg none slot = Unit
HasJobsLeft cfg (some h) slot =
    (h.recyclable ≡ false) ⊎ (slot.jobs_handled < cfg.max_jobs) ⊎ (slot.jobs_handled ≡ 0)

-- The supervisor after `n` rounds, when the reload channel is at generation `g`.
pub record Inv (cfg : WorkersConfig) (n g : ℕ) (s : Supervisor) : Type 0 where
  pub fits : SlotFits s.worker s.slot
  pub counted : s.slot.jobs_handled ≤ n
  pub seen_past : s.seen ≤ g
  pub fresh : BootedAfter s.worker s.boot_generation s.seen
  pub jobs_left : HasJobsLeft cfg s.worker s.slot

-- The reload channel only moves on.
abbrev pub Ordered : ℕ → Round → Type 0
Ordered g r =
    (g ≤ r.boot_seen)
    × (r.boot_seen ≤ r.poll_seen)
    × (r.poll_seen ≤ r.borrow_seen)
    × (r.borrow_seen ≤ r.done_seen)

abbrev pub Chronological : ℕ → List Round → Type 0
Chronological g [] = Unit
Chronological g (r ∷ rs) = Ordered g r × Chronological r.done_seen rs

abbrev pub StepPost : WorkersConfig → ℕ → Round → Outcome → Type 0
StepPost cfg n r (continues s) = Inv cfg (suc n) r.done_seen s
StepPost cfg n r returns = Unit
StepPost cfg n r panics = r.exec ≡ exec_panic

-- The supervisor when `boot_worker` has returned the worker `h`.
abbrev pub booted : Round → Handle → Supervisor → Supervisor
booted r h s = record s {
  boot_generation = r.boot_seen;
  worker = some h;
  slot = record s.slot { state = SlotState.idle; pid = some h.id };
}

pub booted-Inv :
    {cfg : WorkersConfig} {n g : ℕ} (r : Round) (h : Handle) (s : Supervisor)
    → g ≤ r.boot_seen
    → s.worker ≡ none
    → Inv cfg n g s
    → Inv cfg n r.boot_seen (booted r h s)
booted-Inv r h s le e v = ground arith

module _ (p : Profile) (cfg : WorkersConfig) (r : Round) (n : ℕ) (small : suc n < u64_mod) where
  serve-Inv :
      (g : ℕ) (h : Handle) (s : Supervisor)
      → (g ≤ r.poll_seen) × (r.poll_seen ≤ r.borrow_seen) × (r.borrow_seen ≤ r.done_seen)
      → s.worker ≡ some h
      → Inv cfg n g s
      → StepPost cfg n r (serve p cfg r h s).0
  unfolding serve mark_busy mark_idle new should_recycle
  serve-Inv g h s ord e v = ground arith

  boot_and_serve-Inv :
      (g : ℕ) (s : Supervisor)
      → Ordered g r
      → s.worker ≡ none
      → Inv cfg n g s
      → StepPost cfg n r (boot_and_serve p cfg r s).0
  unfolding boot_and_serve boot_worker mark_ready
  boot_and_serve-Inv g s ord e v = elim (Option-cases r.boot.spawn) [
    | inl none_spawned ↦ ground arith
    | inr (h, spawned_h) ↦ ground (arith, serve-Inv r.boot_seen h (booted r h s), booted-Inv r h s)
  ]

  pub iteration-Inv :
      (g : ℕ) (s : Supervisor)
      → Ordered g r
      → Inv cfg n g s
      → StepPost cfg n r (iteration p cfg r s).0
  unfolding iteration
  iteration-Inv g s ord v = elim (Option-cases s.worker) [
    | inl e ↦ rw (e, iteration) (boot_and_serve-Inv g s ord e v)
    | inr (h, e) ↦ rw (e, iteration) (serve-Inv g h s (omega arith, omega arith, omega arith) e v)
  ]

abbrev RunPost : WorkersConfig → ℕ → List Round → Outcome → Type 0
RunPost cfg n rs (continues t) = (g : ℕ) × Inv cfg (n + length rs) g t
RunPost cfg n rs returns = Unit
RunPost cfg n rs panics = ¬ All (λ r. r.exec ≢ exec_panic) rs

Inv-weaken :
    {cfg : WorkersConfig} {m n g : ℕ} {s : Supervisor} → m ≤ n → Inv cfg m g s → Inv cfg n g s
Inv-weaken le v = record {
  fits = v.fits;
  counted = omega arith;
  seen_past = v.seen_past;
  fresh = v.fresh;
  jobs_left = v.jobs_left;
}

run-Inv :
    (p : Profile) (cfg : WorkersConfig) (rs : List Round) (n g : ℕ) (s : Supervisor)
    → n + length rs < u64_mod
    → Chronological g rs
    → Inv cfg n g s
    → RunPost cfg n rs (run p cfg rs s).0
unfolding run
run-Inv p cfg [] n g s small ord v = (g, Inv-weaken (omega arith) v)
run-Inv p cfg (r ∷ rs) n g s small ord v =
    go (iteration p cfg r s).0 (iteration p cfg r s).1
      (iteration-Inv p cfg r n (omega arith) g s ord.0 v)
      (λ t w. run-Inv p cfg rs (suc n) r.done_seen t (omega arith) ord.1 w)
  where
    rest : (o : Outcome) → RunPost cfg (suc n) rs o → RunPost cfg n (r ∷ rs) o
    rest (continues t) (k, w) = (k, Inv-weaken (omega arith) w)
    rest returns w = tt
    rest panics w = λ calm. w calm.1

    go :
        (o : Outcome) (e : List Effect)
        → StepPost cfg n r o
        → ((t : Supervisor)
            → Inv cfg (suc n) r.done_seen t
            → RunPost cfg (suc n) rs (run p cfg rs t).0)
        → RunPost cfg n (r ∷ rs) (proceed o e (run p cfg rs)).0
    go (continues t) e w ih = rest _ (ih t w)
    go returns e w ih = tt
    go panics e w ih = λ calm. calm.0 w

pub start-Inv : (cfg : WorkersConfig) (g now : ℕ) → Inv cfg 0 g (start g now)
unfolding start new
start-Inv cfg g now = ground arith

-- A supervisor whose calls of the worker do not panic does not panic either, in a debug build and
-- in a release build: over fewer than 2^64 iterations, with the generations of the reload channel
-- in order, no assertion of the slot's state machine fails and its job counter does not overflow.
pub run-ne-panics :
    (p : Profile) (cfg : WorkersConfig) (rs : List Round) (g now : ℕ)
    → length rs < u64_mod
    → Chronological g rs
    → All (λ r. r.exec ≢ exec_panic) rs
    → (run p cfg rs (start g now)).0 ≢ panics
run-ne-panics p cfg rs g now small ord calm e =
    subst (RunPost cfg 0 rs) e
      (run-Inv p cfg rs 0 g (start g now) (omega arith) ord (start-Inv cfg g now)) calm

pub reached-Inv :
    (p : Profile) (cfg : WorkersConfig) (rs : List Round) (g now : ℕ) (t : Supervisor)
    → length rs < u64_mod
    → Chronological g rs
    → (run p cfg rs (start g now)).0 ≡ continues t
    → (m : ℕ) × Inv cfg (0 + length rs) m t
reached-Inv p cfg rs g now t small ord e =
    subst (RunPost cfg 0 rs) e
      (run-Inv p cfg rs 0 g (start g now) (omega arith) ord (start-Inv cfg g now))

-- Between two iterations a slot is idle if it has a worker, and new if it has none; and a worker
-- that can be recycled has handled fewer than `max_jobs` requests, or none yet.
pub run-jobs_left :
    (p : Profile) (cfg : WorkersConfig) (rs : List Round) (g now : ℕ) (t : Supervisor)
    → length rs < u64_mod
    → Chronological g rs
    → (run p cfg rs (start g now)).0 ≡ continues t
    → SlotFits t.worker t.slot × HasJobsLeft cfg t.worker t.slot
run-jobs_left p cfg rs g now t small ord e =
    let (k, v) = reached-Inv p cfg rs g now t small ord e in (v.fits, v.jobs_left)
