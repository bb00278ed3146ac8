-- ===== src/Examples/Boot.antt =====
-- Examples for what a server sets up: crates/folk-core/src/worker_slot.rs, the registries,
-- crates/folk-core/src/server.rs, crates/folk-core/src/plugin_registry.rs and
-- crates/folk-core/src/config.rs.
use folk_core.Base.{List, Bool, String, ◌≡◌, refl, true, false, Option, none, some, [], ◌∷◌}
use folk_core.Config.{
  LogConfig, default_log, effective_filter, directives, plugin_name_to_target, default_config,
  default_workers, default_dev,
}
use folk_core.Slot.{SlotState, SlotInfo}
use folk_core.Slot.Lifecycle.{Operation, ready, busy, idle, stop}
use folk_core.Registries.{Answer, answered, refused}
use folk_core.Api.{Bytes}
use folk_core.Plugins.{Plugin, PluginRegistry, boot_all, boot_failed}
use folk_core.Plugins.Order.{boots, shutdowns, boot_all-Order}
use folk_core.Server.{FolkServer, Environment, run, boot_error}
use folk_core.Server.Sequence.{plugin_events, run-shutdowns}

abbrev plugin : String → Option String → Plugin
plugin name boot = record { name = name; boot = boot; shutdown = some "busy" }

-- The third of four plugins does not boot.
abbrev four_plugins : PluginRegistry
four_plugins = record {
  plugins =
      plugin "http" none
      ∷ plugin "jobs" none
      ∷ plugin "grpc" (some "port in use")
      ∷ plugin "metrics" none
      ∷ [];
}

abbrev server : FolkServer
server = record {
  config = record default_config {
    dev = record default_dev { watch = true };
    workers = record default_workers { max_concurrent_per_worker = 8 };
  };
  plugins = four_plugins;
  rpc_registrar = none;
}

abbrev outside : Environment
outside = record { watcher_ok = false; cut = none }

boot_all-Order_example :
    ((boot_all four_plugins).0 ≡ boot_failed "grpc" "port in use")
    × (boots (boot_all four_plugins).1
        ≡ plugin "http" none ∷ plugin "jobs" none ∷ plugin "grpc" (some "port in use") ∷ [])
    × (shutdowns (boot_all four_plugins).1 ≡ plugin "jobs" none ∷ plugin "http" none ∷ [])
boot_all-Order_example = boot_all-Order four_plugins

run-shutdowns_example :
    (shutdowns (plugin_events (run outside server).1)
      ≡ plugin "jobs" none ∷ plugin "http" none ∷ [])
    × (boots (plugin_events (run outside server).1)
        ≡ plugin "http" none ∷ plugin "jobs" none ∷ plugin "grpc" (some "port in use") ∷ [])
    × ((run outside server).0 ≡ boot_error (boot_failed "grpc" "port in use"))
run-shutdowns_example = run-shutdowns outside server refl

abbrev one_job : List Operation
one_job = ready 7 ∷ busy ∷ stop ∷ idle ∷ []

abbrev stopping_slot : SlotInfo
stopping_slot = record {
  state = SlotState.stopping;
  pid = some 7;
  jobs_handled = 1;
  created_at = 5;
}

-- `echo` is registered twice.
abbrev handlers : List (String × (Bytes → Answer))
handlers =
    ("echo", λ payload. refused "old")
    ∷ ("ping", λ payload. answered [])
    ∷ ("echo", λ payload. answered payload)
    ∷ []

abbrev checks : List (String × Bool)
checks = ("http", false) ∷ ("jobs", true) ∷ ("http", true) ∷ []

abbrev log : LogConfig
log = record default_log { plugins = ("http", "debug") ∷ ("folk_core", "trace") ∷ [] }

log_filter : effective_filter log ≡ "info,folk_plugin_http=debug,folk_core=trace"
unfolding effective_filter directives plugin_name_to_target
log_filter = refl
