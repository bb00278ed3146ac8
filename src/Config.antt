-- ===== src/Config.antt =====
-- crates/folk-core/src/config.rs: the configuration records, their defaults and `normalize`.
-- A `Duration` is its number of nanoseconds, a `HashMap` its entries in iteration order.
pub mod Effective
pub mod Layers
use Prim.Native.String.{◌++◌ as str_append}
use folk_core.Base.{
  str_eq, ℕ, ◌*◌, String, Bool, true, false, List, [], ◌∷◌, ltb, ◌==◌, if◌then◌else◌,
}

-- Duration::from_secs, Duration::from_millis
abbrev pub from_secs : ℕ → ℕ
from_secs n = n * 1_000_000_000

abbrev pub from_millis : ℕ → ℕ
from_millis n = n * 1_000_000

pub record ServerConfig : Type 0 where
  pub rpc_socket : String
  pub shutdown_timeout : ℕ

pub record WorkersConfig : Type 0 where
  pub script : String
  pub php : String
  pub count : ℕ
  pub max_concurrent_per_worker : ℕ
  pub max_jobs : ℕ
  pub ttl : ℕ
  pub exec_timeout : ℕ
  pub boot_timeout : ℕ
  pub warmup : Bool

pub data LogFormat : Type 0 where
  text json pretty : LogFormat

pub record LogConfig : Type 0 where
  pub filter : String
  pub format : LogFormat
  pub plugins : List (String × String)

pub record DevConfig : Type 0 where
  pub watch : Bool
  pub watch_paths : List String
  pub watch_extensions : List String
  pub debounce : ℕ

pub record FolkConfig : Type 0 where
  pub server : ServerConfig
  pub workers : WorkersConfig
  pub log : LogConfig
  pub dev : DevConfig

abbrev pub default_server : ServerConfig
default_server = record { rpc_socket = "/tmp/folk.sock"; shutdown_timeout = from_secs 30 }

abbrev pub default_workers : WorkersConfig
default_workers = record {
  script = "vendor/bin/folk-worker";
  php = "php";
  count = 4;
  max_concurrent_per_worker = 1;
  max_jobs = 1000;
  ttl = from_secs 3600;
  exec_timeout = from_secs 30;
  boot_timeout = from_secs 30;
  warmup = true;
}

abbrev pub default_log : LogConfig
default_log = record { filter = "info"; format = LogFormat.text; plugins = [] }

abbrev pub default_dev : DevConfig
default_dev = record {
  watch = false;
  watch_paths = "app" ∷ "src" ∷ "routes" ∷ "config" ∷ [];
  watch_extensions = "php" ∷ [];
  debounce = from_millis 300;
}

-- `#[derive(Default)]`
abbrev pub default_config : FolkConfig
default_config = record {
  server = default_server;
  workers = default_workers;
  log = default_log;
  dev = default_dev;
}

-- The warning is a log line and is left out.
unfoldable pub normalize : WorkersConfig → WorkersConfig
normalize c =
    if ltb 1 c.max_concurrent_per_worker
    then record c { max_concurrent_per_worker = 1 }
    else if c.max_concurrent_per_worker == 0
    then record c { max_concurrent_per_worker = 1 }
    else c

-- The friendly names and their targets.
abbrev pub targets : List (String × String)
targets =
    ("http", "folk_plugin_http")
    ∷ ("jobs", "folk_plugin_jobs")
    ∷ ("grpc", "folk_plugin_grpc")
    ∷ ("metrics", "folk_plugin_metrics")
    ∷ ("process", "folk_plugin_process")
    ∷ ("core", "folk_core")
    ∷ ("ext", "folk_ext")
    ∷ []

-- The `match`, over the arms that are left.
abbrev pub match_name : List (String × String) → String → String
match_name [] name = name
match_name ((friendly, target) ∷ rest) name =
    if str_eq friendly name then target else match_name rest name

unfoldable pub plugin_name_to_target : String → String
plugin_name_to_target name = match_name targets name

-- The loop over the overrides: `format!("{target}={level}")` for each.
unfoldable pub directives : List (String × String) → List String
directives [] = []
directives ((plugin, level) ∷ rest) =
    str_append (plugin_name_to_target plugin) (str_append "=" level) ∷ directives rest

-- `join(",")`
abbrev pub join : List String → String
join [] = ""
join (s ∷ []) = s
join (s ∷ t ∷ rest) = str_append s (str_append "," (join (t ∷ rest)))

unfoldable pub effective_filter : LogConfig → String
effective_filter c = elim c.plugins [
  | [] ↦ c.filter
  | plugins ↦ join (c.filter ∷ directives plugins)
]
