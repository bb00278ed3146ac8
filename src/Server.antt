-- ===== src/Server.antt =====
-- `FolkServer` of crates/folk-core/src/server.rs. The run of a server is the list of what it does
-- to the outside, in order; log lines are left out but for the logger's own set-up.
pub mod Sequence
use folk_core.Base.{
  ℕ, Bool, true, false, Option, none, some, List, [], ◌∷◌, ◌++◌, map, take, if◌then◌else◌,
}
use folk_core.Config.{FolkConfig, WorkersConfig, LogConfig, DevConfig, normalize}
use folk_core.Plugins.{
  Plugin, PluginRegistry, PluginEvent, BootResult, booted, boot_failed, boot_all, shutdown_all,
}
use folk_core.Plugins

pub record FolkServer : Type 0 where
  pub config : FolkConfig
  pub plugins : PluginRegistry
  pub rpc_registrar : Option ℕ

pub data ServerEvent : Type 0 where
  logging_set_up : LogConfig → ServerEvent
  dev_mode_set : ServerEvent
  warmed_up : ServerEvent
  pool_started : WorkersConfig → ServerEvent
  watcher_started : DevConfig → ServerEvent
  plugin_event : PluginEvent → ServerEvent
  signal_received : ServerEvent
  shutdown_sent : ServerEvent

-- What the server finds outside: whether the watcher starts, and after how many calls the shutdown
-- timeout cuts the shutdown of the plugins, if it does.
pub record Environment : Type 0 where
  pub watcher_ok : Bool
  pub cut : Option ℕ

pub data RunResult : Type 0 where
  stopped : RunResult
  boot_error : BootResult → RunResult

unfoldable pub new : FolkConfig → FolkServer
unfolding Plugins.new
new config = record { config = config; plugins = Plugins.new; rpc_registrar = none }

unfoldable pub set_rpc_registrar : FolkServer → ℕ → FolkServer
set_rpc_registrar s registrar = record s { rpc_registrar = some registrar }

unfoldable pub register_plugin : FolkServer → Plugin → FolkServer
unfolding Plugins.register
register_plugin s plugin = record s { plugins = Plugins.register s.plugins plugin }

abbrev pub cut_at {ℓ} : {A : Type ℓ} → Option ℕ → List A → List A
cut_at none xs = xs
cut_at (some k) xs = take k xs

-- What stands in front of the boot of the plugins.
unfoldable pub prepare : Environment → FolkConfig → List ServerEvent
prepare env c =
    logging_set_up c.log
    ∷ ((if c.dev.watch then dev_mode_set ∷ [] else [])
        ++ ((if c.workers.warmup then warmed_up ∷ [] else [])
            ++ (pool_started (normalize c.workers)
                ∷ (if c.dev.watch
                    then (if env.watcher_ok then watcher_started c.dev ∷ [] else [])
                    else []))))

unfoldable pub stop_plugins : Environment → PluginRegistry → List ServerEvent
stop_plugins env r =
    signal_received ∷ shutdown_sent ∷ map plugin_event (cut_at env.cut (shutdown_all r))

unfoldable pub run : Environment → FolkServer → RunResult × List ServerEvent
run env s =
    let (result, es) = boot_all s.plugins in
    let started = prepare env s.config ++ map plugin_event es in
    elim result [
      | booted ↦ (stopped, started ++ stop_plugins env s.plugins)
      | boot_failed name e ↦ (boot_error (boot_failed name e), started)
    ]
