-- ===== src/Server/Sequence.antt =====
-- In what order a server of server.rs starts and stops.
use folk_core.Base.{
  ◌≡◌, count_if, count_if-append, append_assoc, refl, ap, ◌∙◌, inl, inr, Bool, true, false, none,
  some, List, [], ◌∷◌, ◌++◌, map, reverse, append-nil, arith, Option-cases, if◌then◌else◌,
}
use folk_core.Config.{FolkConfig}
use folk_core.Config.Effective.{normalize-one}
use folk_core.Plugins.{PluginRegistry, PluginEvent, booted, boot_failed, boot_all, shutdown_all}
use folk_core.Plugins.Order.{
  boots, shutdowns, bootable, first_failure, tried, result_of, boot_all-Order,
  shutdowns-shutdown_all, bootable_all,
}
use folk_core.Server.{
  FolkServer, ServerEvent, logging_set_up, dev_mode_set, warmed_up, pool_started, watcher_started,
  plugin_event, Environment, stopped, boot_error, cut_at, prepare, stop_plugins, run,
}

-- The calls of the plugins in a run.
abbrev pub plugin_events : List ServerEvent → List PluginEvent
plugin_events [] = []
plugin_events (plugin_event e ∷ es) = e ∷ plugin_events es
plugin_events (_ ∷ es) = plugin_events es

plugin_events-append :
    (es fs : List ServerEvent) → plugin_events (es ++ fs) ≡ plugin_events es ++ plugin_events fs
plugin_events-append [] fs = refl
plugin_events-append (e ∷ es) fs = ground (arith, plugin_events-append es fs)

plugin_events-map : (es : List PluginEvent) → plugin_events (map plugin_event es) ≡ es
plugin_events-map [] = refl
plugin_events-map (e ∷ es) = ap (λ l. e ∷ l) (plugin_events-map es)

plugin_events-prepare : (env : Environment) (c : FolkConfig) → plugin_events (prepare env c) ≡ []
unfolding prepare
plugin_events-prepare env c = ground arith

plugin_events-stop :
    (env : Environment) (r : PluginRegistry)
    → env.cut ≡ none
    → plugin_events (stop_plugins env r) ≡ shutdown_all r
unfolding stop_plugins
plugin_events-stop env r whole = rw whole (plugin_events-map (shutdown_all r))

shutdowns-append : (es fs : List PluginEvent) → shutdowns (es ++ fs) ≡ shutdowns es ++ shutdowns fs
shutdowns-append [] fs = refl
shutdowns-append (e ∷ es) fs = ground (arith, shutdowns-append es fs)

boots-append : (es fs : List PluginEvent) → boots (es ++ fs) ≡ boots es ++ boots fs
boots-append [] fs = refl
boots-append (e ∷ es) fs = ground (arith, boots-append es fs)

-- Over the whole run of a server whose shutdown is not cut off by its timeout, each plugin whose
-- boot has succeeded is shut down once, in reverse, whether a later boot fails or not; the others
-- are never shut down. The run ends with an error exactly if a boot fails.
pub run-shutdowns :
    (env : Environment) (s : FolkServer)
    → env.cut ≡ none
    → (shutdowns (plugin_events (run env s).1) ≡ reverse (bootable s.plugins.plugins))
      × (boots (plugin_events (run env s).1) ≡ tried s.plugins.plugins)
      × ((run env s).0 ≡ (elim (first_failure s.plugins.plugins) [
        | none ↦ stopped
        | some f ↦ boot_error (result_of (some f))
      ]))
unfolding run
run-shutdowns env s whole =
    let r = s.plugins in
    let (result, up, down) = boot_all-Order r in
    let (down', up') = shutdowns-shutdown_all r in
    elim (Option-cases (first_failure r.plugins)) [
      | inl none_fails ↦
          let ok : (boot_all r).0 ≡ booted = result ∙ ap result_of none_fails in
          let events : plugin_events
                (prepare env s.config ++ map plugin_event (boot_all r).1 ++ stop_plugins env r)
              ≡ (boot_all r).1 ++ shutdown_all r =
            simp (
              plugin_events-append,
              plugin_events-prepare,
              plugin_events-map,
              plugin_events-stop env r whole,
            ) in
          rw (ok, run)
            (rw events (
              ground (
                arith,
                none_fails,
                up,
                down,
                up',
                down',
                bootable_all r.plugins none_fails,
                shutdowns-append (boot_all r).1 (shutdown_all r),
                boots-append (boot_all r).1 (shutdown_all r),
                append-nil (bootable r.plugins),
              )))
      | inr (f, failing) ↦
          let failed : (boot_all r).0 ≡ boot_failed f.0.name f.1 = result ∙ ap result_of failing in
          let events : plugin_events (prepare env s.config ++ map plugin_event (boot_all r).1)
              ≡ (boot_all r).1 =
            simp (plugin_events-append, plugin_events-prepare, plugin_events-map) in
          rw (failed, run) (rw events (ground (arith, failing, up, down)))
    ]

abbrev is_dev_mode : ServerEvent → Bool
is_dev_mode dev_mode_set = true
is_dev_mode _ = false

abbrev is_pool_start : ServerEvent → Bool
is_pool_start (pool_started w) = true
is_pool_start _ = false

count_plugin :
    (es : List PluginEvent)
    → (count_if is_dev_mode (map plugin_event es) ≡ 0)
      × (count_if is_pool_start (map plugin_event es) ≡ 0)
count_plugin [] = (refl, refl)
count_plugin (e ∷ es) = count_plugin es

-- How a run splits at the start of its pool.
pub record StartsPool (s : FolkServer) (es : List ServerEvent) : Type 0 where
  pub before : List ServerEvent
  pub after : List ServerEvent
  pub split :
      es
      ≡ before ++ pool_started (record s.config.workers { max_concurrent_per_worker = 1 }) ∷ after
  pub quiet : plugin_events before ≡ []
  pub once : (count_if is_pool_start before ≡ 0) × (count_if is_pool_start after ≡ 0)
  pub dev_mode :
      (count_if is_dev_mode before ≡ (if s.config.dev.watch then 1 else 0))
      × (count_if is_dev_mode after ≡ 0)

abbrev before_pool : FolkConfig → List ServerEvent
before_pool c =
    logging_set_up c.log
    ∷ ((if c.dev.watch then dev_mode_set ∷ [] else [])
        ++ (if c.workers.warmup then warmed_up ∷ [] else []))

abbrev after_pool : Environment → FolkConfig → List ServerEvent
after_pool env c =
    if c.dev.watch then (if env.watcher_ok then watcher_started c.dev ∷ [] else []) else []

prepare-split :
    (env : Environment) (c : FolkConfig)
    → prepare env c
      ≡ before_pool c
        ++ pool_started (record c.workers { max_concurrent_per_worker = 1 }) ∷ after_pool env c
unfolding prepare
prepare-split env c = rw normalize-one (ground arith)

abbrev later_events : Environment → PluginRegistry → List ServerEvent
later_events env r = elim (boot_all r).0 [
  | booted ↦ map plugin_event (boot_all r).1 ++ stop_plugins env r
  | boot_failed name e ↦ map plugin_event (boot_all r).1
]

run-split :
    (env : Environment) (s : FolkServer)
    → (run env s).1 ≡ prepare env s.config ++ later_events env s.plugins
unfolding run
run-split env s = ground (
  arith,
  append_assoc (prepare env s.config) (map plugin_event (boot_all s.plugins).1)
      (stop_plugins env s.plugins),
)

later-counts :
    (env : Environment) (r : PluginRegistry)
    → (count_if is_dev_mode (later_events env r) ≡ 0)
      × (count_if is_pool_start (later_events env r) ≡ 0)
unfolding stop_plugins
later-counts env r = ground (
  arith,
  count_plugin (boot_all r).1,
  count_plugin (cut_at env.cut (shutdown_all r)),
  count_if-append is_dev_mode (map plugin_event (boot_all r).1) (stop_plugins env r),
  count_if-append is_pool_start (map plugin_event (boot_all r).1) (stop_plugins env r),
)

-- A server starts its pool once, with the configured workers limited to one request at a time;
-- before it calls any plugin; and after it has set `FOLK_DEV_MODE`, once, exactly if the watch mode
-- is on.
pub run-StartsPool : (env : Environment) (s : FolkServer) → StartsPool s (run env s).1
run-StartsPool env s = record {
  before = before_pool s.config;
  after = after_pool env s.config ++ later_events env s.plugins;
  split =
      run-split env s
      ∙ ap (λ l. l ++ later_events env s.plugins) (prepare-split env s.config)
      ∙ append_assoc (before_pool s.config) (_ ∷ after_pool env s.config)
          (later_events env s.plugins);
  quiet = ground arith;
  once = ground (
    arith,
    later-counts env s.plugins,
    count_if-append is_pool_start (after_pool env s.config) (later_events env s.plugins),
  );
  dev_mode = ground (
    arith,
    later-counts env s.plugins,
    count_if-append is_dev_mode (after_pool env s.config) (later_events env s.plugins),
  );
}
