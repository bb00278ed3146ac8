-- ===== src/Plugins.antt =====
-- crates/folk-core/src/plugin_registry.rs: boot in the order of registration, shutdown in reverse.
-- A plugin is its name and what its `boot` and `shutdown` answer: nothing, or the text of an error.
pub mod Order
use folk_core.Base.{
  ℕ, zero, suc, String, Option, none, some, List, [], ◌∷◌, ◌++◌, map, reverse, take, length,
}

pub record Plugin : Type 0 where
  pub name : String
  pub boot : Option String
  pub shutdown : Option String

pub record PluginRegistry : Type 0 where
  pub plugins : List Plugin

-- The calls of the plugins, and the errors of a shutdown that are logged.
pub data PluginEvent : Type 0 where
  booting : Plugin → PluginEvent
  shutting_down : Plugin → PluginEvent
  shutdown_error : Plugin → String → PluginEvent

-- The error of `boot_all`: the plugin whose boot failed, and its error.
pub data BootResult : Type 0 where
  booted : BootResult
  boot_failed : String → String → BootResult

unfoldable pub new : PluginRegistry
new = record { plugins = [] }

unfoldable pub register : PluginRegistry → Plugin → PluginRegistry
register r plugin = record { plugins = r.plugins ++ plugin ∷ [] }

abbrev pub logged : Plugin → Option String → List PluginEvent
logged plugin none = []
logged plugin (some e) = shutdown_error plugin e ∷ []

-- The loop of `shutdown_partial`, over the plugins that it visits.
unfoldable pub shutdown_each : List Plugin → List PluginEvent
shutdown_each [] = []
shutdown_each (plugin ∷ plugins) =
    shutting_down plugin ∷ (logged plugin plugin.shutdown ++ shutdown_each plugins)

unfoldable pub shutdown_partial : PluginRegistry → ℕ → List PluginEvent
shutdown_partial r count = shutdown_each (reverse (take count r.plugins))

-- The loop of `boot_all`, with the number of plugins that have booted.
unfoldable pub boot_from : PluginRegistry → ℕ → List Plugin → BootResult × List PluginEvent
boot_from r booted_count [] = (booted, [])
boot_from r booted_count (plugin ∷ plugins) =
    let rest = boot_from r (suc booted_count) plugins in
    elim plugin.boot [
      | none ↦ (rest.0, booting plugin ∷ rest.1)
      | some e ↦ (boot_failed plugin.name e, booting plugin ∷ shutdown_partial r booted_count)
    ]

unfoldable pub boot_all : PluginRegistry → BootResult × List PluginEvent
boot_all r = boot_from r 0 r.plugins

unfoldable pub shutdown_all : PluginRegistry → List PluginEvent
shutdown_all r = shutdown_partial r (length r.plugins)

unfoldable pub names : PluginRegistry → List String
names r = map (λ p. p.name) r.plugins
