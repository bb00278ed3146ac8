-- ===== src/Config/Effective.antt =====
-- The configuration that takes effect: `normalize` and the log filter of config.rs.
use folk_core.Base.{
  All, ◌⊎◌, ◌≡◌, refl, ap, arith, String, List, [], ◌∷◌, map, str_eq, Bool-cases, inl, inr,
  if◌then◌else◌,
}
use folk_core.Config.{
  WorkersConfig, LogConfig, normalize, targets, match_name, plugin_name_to_target, directives, join,
  effective_filter,
}

-- Whatever was configured, a worker handles one request at a time, and `normalize` changes nothing
-- else.
pub normalize-one : (c : WorkersConfig) → normalize c ≡ record c { max_concurrent_per_worker = 1 }
unfolding normalize
normalize-one c = ground arith

abbrev IsTarget : String → Type 0
IsTarget s = match_name targets s ≡ s

-- Each arm of the `match` ends in a target, and the last arm keeps the name.
match_name-cases :
    (name : String) (arms : List (String × String))
    → All (λ e. IsTarget e.1) arms
    → (match_name arms name ≡ name) ⊎ IsTarget (match_name arms name)
match_name-cases name [] h = inl refl
match_name-cases name ((friendly, target) ∷ rest) h = elim (Bool-cases (str_eq friendly name)) [
  | inl e ↦ inr (rw (e, match_name, if◌then◌else◌) h.0)
  | inr e ↦ rw (e, if◌then◌else◌) (match_name-cases name rest h.1)
]

-- A target stands for itself.
target-target :
    (name : String)
    → plugin_name_to_target (plugin_name_to_target name) ≡ plugin_name_to_target name
unfolding plugin_name_to_target
target-target name =
    elim (match_name-cases name targets
      (refl, (refl, (refl, (refl, (refl, (refl, (refl, tt)))))))) [
        | inl e ↦ ap (match_name targets) e
        | inr f ↦ f
      ]

directives-targets :
    (plugins : List (String × String))
    → directives (map (λ e. (plugin_name_to_target e.0, e.1)) plugins) ≡ directives plugins
unfolding directives
directives-targets [] = refl
directives-targets ((plugin, level) ∷ rest) = rw (target-target plugin, directives-targets rest)

-- The log filter is the same whether the overrides name plugins or the crates that stand for them.
pub effective_filter-targets :
    (c : LogConfig)
    → effective_filter
        (record c { plugins = map (λ e. (plugin_name_to_target e.0, e.1)) c.plugins })
      ≡ effective_filter c
unfolding effective_filter
effective_filter-targets c = go c.plugins
  where
    go :
        (plugins : List (String × String))
        → effective_filter
            (record c { plugins = map (λ e. (plugin_name_to_target e.0, e.1)) plugins })
          ≡ effective_filter (record c { plugins = plugins })
    go [] = refl
    go (e ∷ rest) = ap (λ l. join (c.filter ∷ l)) (directives-targets (e ∷ rest))
