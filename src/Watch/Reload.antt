-- ===== src/Watch/Reload.antt =====
-- From a changed file to the worker that has loaded it: the callback of
-- crates/folk-core/src/watch.rs, `trigger_reload` and `slot_supervisor` of
-- crates/folk-core/src/worker_pool.rs.
use folk_core.Base.{
  ℕ, zero, suc, ◌≤◌, ◌<◌, ◌≡◌, refl, ap, ◌∙◌, String, Bool, true, none, some, List, [], ◌∷◌, length,
  get_elem?, arith,
}
use mathlib.Core.Option.{some-injective}
use folk_core.Config.{WorkersConfig, DevConfig}
use folk_core.Slot.{Profile, debug, release, u64_mod, add_one_u64, new}
use folk_core.Pool.Executor.{trigger_reload, caches_invalidated, generation_sent}
use folk_core.Pool.Supervisor.{
  Handle, Round, Supervisor, continues, terminated, run, start, iteration,
}
use folk_core.Pool.Supervisor.Invariant.{Chronological}
use folk_core.Pool.Supervisor.Reloads.{run-reloads}
use folk_core.Watch.{
  Text, OsUnit, OsText, FilePath, matches_extension, watched_extensions, events, any_matches,
  on_debounced,
}
use folk_core.Watch.Extensions.{HasNoDot, dotted, StandsFor, matches_extension-StandsFor}

any_matches-get :
    (exts : List Text) (ps : List FilePath) (j : ℕ) (q : FilePath)
    → get_elem? ps j ≡ some q
    → matches_extension q exts ≡ true
    → any_matches exts ps ≡ true
any_matches-get exts [] j q at m = cc
any_matches-get exts (p ∷ ps) zero q at m =
    let here : matches_extension p exts ≡ true =
      ap (λ f. matches_extension f exts) (some-injective _ _ at) ∙ m in
    ground (arith, here)
any_matches-get exts (p ∷ ps) (suc j) q at m =
    let later = any_matches-get exts ps j q at m in ground (arith, later)

add_one_u64-suc : (p : Profile) (n : ℕ) → suc n < u64_mod → add_one_u64 p n ≡ some (suc n)
add_one_u64-suc debug n small = ground arith
add_one_u64-suc release n small = ap some (omega (arith, small))

-- Below 2^64 reloads, each makes the next generation, whether the caches could be invalidated or not.
pub trigger_reload-suc :
    (p : Profile) (reload_ok : Bool) (generation : ℕ)
    → suc generation < u64_mod
    → trigger_reload p reload_ok generation
      ≡ some (suc generation, caches_invalidated reload_ok ∷ generation_sent (suc generation) ∷ [])
unfolding trigger_reload
trigger_reload-suc p reload_ok generation small =
    rw (add_one_u64-suc p generation small, trigger_reload) refl

-- No change is missed: if a file that the watcher reports has an extension that is configured, the
-- callback triggers a reload; this makes a new generation even if the caches cannot be invalidated;
-- and when the supervisor of a recyclable worker next looks, it terminates the worker, which had
-- booted before the reload.
pub on_debounced-reloads :
    (p : Profile) (cfg : WorkersConfig) (rs : List Round) (r : Round) (g now : ℕ) (h : Handle)
    (t : Supervisor) (dev : DevConfig) (paths : List FilePath) (j : ℕ) (u : OsUnit) (stem : OsText)
    (ext : Text) (i : ℕ) (e : String) (reload_ok : Bool) (generation : ℕ)
    → get_elem? paths j ≡ some (some (u ∷ dotted stem ext))
    → HasNoDot ext
    → StandsFor dev ext i e
    → suc generation < u64_mod
    → length rs < u64_mod
    → Chronological g rs
    → (run p cfg rs (start g now)).0 ≡ continues t
    → t.worker ≡ some h
    → h.recyclable ≡ true
    → t.boot_generation ≤ generation
    → r.poll_seen ≡ suc generation
    → r.borrow_seen ≡ suc generation
    → (on_debounced dev (events paths) ≡ true)
      × (trigger_reload p reload_ok generation
          ≡ some (
            suc generation,
            caches_invalidated reload_ok ∷ generation_sent (suc generation) ∷ [],
          ))
      × (iteration p cfg r t ≡ (
        continues (record t { worker = none; slot = new r.now; seen = r.poll_seen }),
        terminated h.id ∷ [],
      ))
unfolding on_debounced
on_debounced-reloads p cfg rs r g now h t dev paths j u stem ext i e reload_ok generation reported
      plain stands small short ord ran at live old polled borrowed =
    (
      any_matches-get (watched_extensions dev) paths j (some (u ∷ dotted stem ext)) reported
          ((matches_extension-StandsFor dev u stem ext plain).1 (i, e, stands)),
      trigger_reload-suc p reload_ok generation small,
      run-reloads p cfg rs r g now h t short ord ran at live (omega (arith, old, polled))
          (omega (arith, polled, borrowed)),
    )
