-- ===== src/Config/Layers.antt =====
-- `FolkConfig::load` and `load_from` of crates/folk-core/src/config.rs: the layers that the crate
-- figment merges, the later ones over the earlier ones, and extracts.
use folk_core.Base.{String, Bool, Option, List, [], ◌∷◌, ◌++◌, if◌then◌else◌}
use folk_core.Config.{FolkConfig, default_config}

-- A layer: the defaults, a TOML file, or the variables with a prefix, split at a separator.
pub data Layer : Type 0 where
  serialized : FolkConfig → Layer
  toml_file : String → Layer
  env : (prefix separator : String) → Layer

-- Whether a path exists, and figment's merge and extraction.
pub record Figment : Type 0 where
  pub exists : String → Bool
  pub extract : List Layer → Option FolkConfig

unfoldable pub load_from : Figment → String → Option FolkConfig
load_from fig path = fig.extract (
    serialized default_config
    ∷ ((if fig.exists path then toml_file path ∷ [] else []) ++ env "FOLK_" "__" ∷ []))

unfoldable pub load : Figment → Option FolkConfig
load fig = load_from fig "folk.toml"
