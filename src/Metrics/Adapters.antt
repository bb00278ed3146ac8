-- ===== src/Metrics/Adapters.antt =====
-- The adapters of crates/folk-core/src/metrics_registry.rs, which hand the calls on a metric over to
-- the crate prometheus. A counter and a gauge hold an `f64`; it is here the whole number that it is,
-- since what the adapters put in and add is whole.
pub mod Exact
use folk_core.Base.{
  ℕ, zero, suc, ◌+◌, ◌-◌, ◌*◌, ◌%◌, ◌^◌, min, Bool, true, false, Option, List, String, ltb, leb,
  ◌==◌, if◌then◌else◌,
}
use Prim.Native.Nat.{◌/◌}
use folk_core.Entry.{ℤ, pos, negsuc}

-- Up to 2 ^ 53 every whole number is an `f64`.
abbrev pub limit : ℕ
limit = 9007199254740992

-- To the nearest multiple of `step`, and from the middle to the even one.
abbrev pub nearest : ℕ → ℕ → ℕ
nearest step n =
    let q = n / step in
    let r = n % step in
    if ltb (r + r) step
    then q * step
    else if ltb step (r + r)
    then suc q * step
    else if q % 2 == 0
    then q * step
    else suc q * step

-- Between 2 ^ 53 * step / 2 and 2 ^ 53 * step the numbers lie `step` apart; beyond the exponents of
-- `f64` the steps stay as they are.
abbrev pub to_double : ℕ → ℕ → ℕ → ℕ
to_double zero step n = nearest step n
to_double (suc exponents) step n =
    let wider = to_double exponents (step + step) n in
    if leb n (limit * step) then nearest step n else wider

unfoldable pub rounded : ℕ → ℕ
rounded n = to_double 970 2 n

-- `v as f64`, where 2 ^ 53 fits and so is itself.
unfoldable pub as_f64 : ℕ → ℕ
as_f64 n = if leb n limit then n else rounded n

abbrev pub signed : ℤ → ℤ
signed (pos n) = pos (as_f64 n)
signed (negsuc n) = negsuc (as_f64 (suc n) - 1)

-- `f64 as u64` and `f64 as i64` stop at the bounds of the type.
abbrev pub as_u64 : ℕ → ℕ
as_u64 n = min n (2 ^ 64 - 1)

abbrev pub as_i64 : ℤ → ℤ
as_i64 (pos n) = pos (min n (2 ^ 63 - 1))
as_i64 (negsuc n) = negsuc (min n (2 ^ 63 - 1))

-- The crate: a vector has the metrics of all label values, and a metric names the one it stands for;
-- `with_label_values` panics on labels that do not match the vector's, here `none`.
pub record CounterVec : Type 1 where
  pub Vector : Type 0
  pub Metric : Type 0
  pub with_label_values : List String → Vector → Option (Metric × Vector)
  pub inc : Metric → Vector → Vector
  pub inc_by : ℕ → Metric → Vector → Vector
  pub get : Metric → Vector → ℕ

pub record GaugeVec : Type 1 where
  pub Vector : Type 0
  pub Metric : Type 0
  pub with_label_values : List String → Vector → Option (Metric × Vector)
  pub set : ℤ → Metric → Vector → Vector
  pub inc : Metric → Vector → Vector
  pub dec : Metric → Vector → Vector
  pub get : Metric → Vector → ℤ

pub record HistogramVec : Type 1 where
  pub F64 : Type 0
  pub Vector : Type 0
  pub Metric : Type 0
  pub with_label_values : List String → Vector → Option (Metric × Vector)
  pub observe : F64 → Metric → Vector → Vector

module _ (prom : CounterVec) where
  unfoldable pub counter_with_labels :
      List String → prom.Vector → Option (prom.Metric × prom.Vector)
  counter_with_labels labels v = prom.with_label_values labels v

  unfoldable pub counter_inc : prom.Metric → prom.Vector → prom.Vector
  counter_inc c v = prom.inc c v

  unfoldable pub counter_inc_by : ℕ → prom.Metric → prom.Vector → prom.Vector
  counter_inc_by n c v = prom.inc_by (as_f64 n) c v

  unfoldable pub counter_get : prom.Metric → prom.Vector → ℕ
  counter_get c v = as_u64 (prom.get c v)

module _ (prom : GaugeVec) where
  unfoldable pub gauge_with_labels : List String → prom.Vector → Option (prom.Metric × prom.Vector)
  gauge_with_labels labels v = prom.with_label_values labels v

  unfoldable pub gauge_set : ℤ → prom.Metric → prom.Vector → prom.Vector
  gauge_set z g v = prom.set (signed z) g v

  unfoldable pub gauge_inc : prom.Metric → prom.Vector → prom.Vector
  gauge_inc g v = prom.inc g v

  unfoldable pub gauge_dec : prom.Metric → prom.Vector → prom.Vector
  gauge_dec g v = prom.dec g v

  unfoldable pub gauge_get : prom.Metric → prom.Vector → ℤ
  gauge_get g v = as_i64 (prom.get g v)

module _ (prom : HistogramVec) where
  unfoldable pub histogram_with_labels :
      List String → prom.Vector → Option (prom.Metric × prom.Vector)
  histogram_with_labels labels v = prom.with_label_values labels v

  unfoldable pub histogram_observe : prom.F64 → prom.Metric → prom.Vector → prom.Vector
  histogram_observe x h v = prom.observe x h v
