-- ===== src/Logging.antt =====
-- `init` of crates/folk-core/src/logging.rs: the subscriber that it installs, once for the process.
use folk_core.Base.{String, Bool, true, false, Option, none, some}
use folk_core.Config.{LogConfig, LogFormat, effective_filter}

-- The layer of a format: whether it shows targets, thread identifiers and thread names, where the
-- code says so.
pub data Layer : Type 0 where
  text_layer : (with_target with_thread_ids with_thread_names : Bool) → Layer
  json_layer : (with_target flatten_event : Bool) → Layer
  pretty_layer : Layer

pub record Subscriber : Type 0 where
  pub filter : String
  pub layer : Layer

pub data InitResult : Type 0 where
  initialised already_initialised : InitResult

unfoldable pub layer_of : LogFormat → Layer
layer_of LogFormat.text = text_layer true false false
layer_of LogFormat.json = json_layer true true
layer_of LogFormat.pretty = pretty_layer

-- The filter of the environment, if there is a valid one.
abbrev pub or_else : Option String → String → String
or_else (some filter) configured = filter
or_else none configured = configured

-- `global` is the subscriber of the process, `rust_log` the filter of the environment.
unfoldable pub init : Option String → LogConfig → Option Subscriber → InitResult × Option Subscriber
init rust_log config (some s) = (already_initialised, some s)
init rust_log config none = (
  initialised,
  some (record {
    filter = or_else rust_log (effective_filter config);
    layer = layer_of config.format;
  }),
)
