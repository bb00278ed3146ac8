-- ===== src/Metrics.antt =====
-- `MetricsRegistryImpl` of crates/folk-core/src/metrics_registry.rs: the metrics that plugins ask for.
-- The crate prometheus is a record of operations; log lines are left out. The child Adapters holds
-- what a metric hands over to the crate.
pub mod Registered
pub mod Adapters
use folk_core.Base.{String, Option, none, some, List, [], ◌∷◌}
use folk_core.Api.{Bytes}

pub data Kind : Type 0 where
  counter gauge histogram : Kind

-- A registry, a vector of metrics, and what the crate does with them: `new` checks the
-- specification, `register` and `encode` can fail.
pub record Prometheus : Type 1 where
  pub Registry : Type 0
  pub Vector : Type 0
  pub empty : Registry
  pub new : Kind → String → String → List String → Option Vector
  pub register : Vector → Registry → Option Registry
  pub encode : Registry → Option Bytes

-- What the caller gets: a panic, or the metric, which works whether it is registered or not.
pub data Metric (V : Type 0) : Type 0 where
  panicked : Metric V
  metric : V → Metric V

module _ (prom : Prometheus) where
  -- `MetricsRegistryImpl::new`
  unfoldable pub new_registry : prom.Registry
  new_registry = prom.empty

  -- The second half of the three functions: an error is only a warning.
  abbrev pub kept : prom.Registry → Option prom.Registry → prom.Registry
  kept r none = r
  kept r (some r') = r'

  abbrev pub vector :
      Kind → String → String → List String → prom.Registry → Metric prom.Vector × prom.Registry
  vector kind name help label_keys r = elim (prom.new kind name help label_keys) [
    | none ↦ (panicked, r)
    | some v ↦ (metric v, kept r (prom.register v r))
  ]

  unfoldable pub counter_vec :
      String → String → List String → prom.Registry → Metric prom.Vector × prom.Registry
  counter_vec = vector counter

  unfoldable pub gauge_vec :
      String → String → List String → prom.Registry → Metric prom.Vector × prom.Registry
  gauge_vec = vector gauge

  unfoldable pub histogram_vec :
      String → String → List String → prom.Registry → Metric prom.Vector × prom.Registry
  histogram_vec = vector histogram

  -- `none` is a panic of `expect`; `String::from_utf8` is the parameter.
  unfoldable pub render : (Bytes → Option String) → prom.Registry → Option String
  render from_utf8 r = elim (prom.encode r) [ none ↦ none | some buf ↦ from_utf8 buf ]
