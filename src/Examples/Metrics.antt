-- ===== src/Examples/Metrics.antt =====
-- Examples for crates/folk-core/src/metrics_registry.rs: small crates in place of prometheus, in which
-- a metric is its name, or a number for each label.
use folk_core.Base.{
  ◌++◌, map, ap, ◌∙◌, Option, ℕ, ◌+◌, ◌==◌, arith, length, ◌≡◌, refl, sym, String, none, some, List,
  [], ◌∷◌, if◌then◌else◌,
}
use mathlib.Core.Option.{some-injective}
use folk_core.Api.{Bytes}
use folk_core.Metrics.{counter, gauge, Prometheus, metric, new_registry, render}
use folk_core.Metrics.Adapters.{CounterVec, as_f64, rounded}
use folk_core.Metrics.Adapters.Exact.{
  same_labels, CounterLaws, Use, by_one, by_number, use_all, read_counter, use_all-read_counter,
}
use folk_core.Metrics.Registered.{contains, firsts, Laws, Request, ask_all, ask_all-names}

abbrev by_name : Prometheus
by_name = record {
  Registry = List String;
  Vector = String;
  empty = [];
  new = λ kind name help keys. some name;
  register = λ v r. if contains r v then none else some (r ++ v ∷ []);
  encode = λ r. some (length r ∷ []);
}

-- The names of a list of names.
map_self : (ns : List String) → map (λ n. n) ns ≡ ns
map_self [] = refl
map_self (n ∷ ns) = ap (λ ms. n ∷ ms) (map_self ns)

by_name-Laws : Laws by_name
by_name-Laws = record {
  vectors = λ r. r;
  name_of = λ v. v;
  print = λ vs. length vs ∷ [];
  vectors-empty = refl;
  name_of-new = λ k name help keys v e. sym (some-injective _ _ e);
  taken = λ v r e. rw (sym (ap (λ ns. contains ns v) (map_self r)) ∙ e, if◌then◌else◌) refl;
  fresh = λ v r e.
      (r ++ v ∷ [], rw (sym (ap (λ ns. contains ns v) (map_self r)) ∙ e, if◌then◌else◌) refl, refl);
  encodes = λ r. refl;
}

-- The name of the first request is asked for again.
abbrev three_metrics : List Request
three_metrics =
    record { kind = counter; name = "requests"; help = "Requests."; label_keys = "method" ∷ [] }
    ∷ record { kind = gauge; name = "workers"; help = "Workers."; label_keys = [] }
    ∷ record { kind = gauge; name = "requests"; help = "Again."; label_keys = [] }
    ∷ []

abbrev told_length : Bytes → Option String
told_length b = if length b == 1 then some "one byte" else none

ask_all-names_example :
    (got : List String) × ((ask_all by_name three_metrics (new_registry by_name)).0
      ≡ map metric got)
    × (map by_name-Laws.name_of got ≡ "requests" ∷ "workers" ∷ "requests" ∷ [])
    × (render by_name told_length (ask_all by_name three_metrics (new_registry by_name)).1
        ≡ told_length (by_name-Laws.print (firsts by_name-Laws.name_of [] got)))
ask_all-names_example =
    ask_all-names by_name by_name-Laws told_length three_metrics (refl, (refl, (refl, tt)))

-- The metric of the third request is left out.
three_firsts :
    firsts (λ n. n) [] ("requests" ∷ "workers" ∷ "requests" ∷ []) ≡ "requests" ∷ "workers" ∷ []
three_firsts = refl

-- A vector with one label: the number under each of its values.
abbrev by_labels : CounterVec
by_labels = record {
  Vector = List String → ℕ;
  Metric = List String;
  with_label_values = λ ls f. if length ls == 1 then some (ls, f) else none;
  inc = λ c f m. if same_labels c m then as_f64 (f m + 1) else f m;
  inc_by = λ n c f m. if same_labels c m then as_f64 (f m + n) else f m;
  get = λ c f. f c;
}

by_labels-Laws : CounterLaws by_labels
by_labels-Laws = record {
  accepts = λ ls. length ls == 1;
  labels_of = λ c. c;
  count = λ m f. f m;
  refused = λ ls f e. rw (e, if◌then◌else◌) refl;
  selects = λ ls f e. (ls, f, rw (e, if◌then◌else◌) refl, refl, λ m. refl);
  get-count = λ c f. refl;
  count-inc = λ m c f. refl;
  count-inc_by = λ n m c f. refl;
}

-- One use lacks the label.
abbrev four_uses : List Use
four_uses = by_one ("GET" ∷ []) ∷ by_number 40 ("GET" ∷ []) ∷ by_one ("POST" ∷ []) ∷ by_one [] ∷ []

use_all-read_counter_example :
    read_counter by_labels ("GET" ∷ []) (use_all by_labels four_uses (λ m. 0)) ≡ some 41
unfolding by_labels-Laws
use_all-read_counter_example =
    use_all-read_counter by_labels by_labels-Laws ("GET" ∷ []) four_uses (λ m. 0) refl refl
      (omega arith)

-- From 2 ^ 53 on, a counter stands still when it goes up by one, and is rounded.
at_the_limit :
    (as_f64 9007199254740993 ≡ 9007199254740992)
    × (as_f64 9007199254740995 ≡ 9007199254740996)
    × (as_f64 18446744073709551615 ≡ 18446744073709551616)
unfolding as_f64 rounded
at_the_limit = (refl, refl, refl)
