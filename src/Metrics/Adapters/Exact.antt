-- ===== src/Metrics/Adapters/Exact.antt =====
-- How far the counters of metrics_registry.rs count exactly.
use folk_core.Base.{
  ℕ, suc, ◌+◌, ◌-◌, ◌^◌, min, ◌≤◌, ◌≡◌, refl, sym, ap, ◌∙◌, Bool, true, false, Option, none, some,
  subst, List, [], ◌∷◌, String, ◌&&◌, str_eq, eq_iff, Bool-cases, inl, inr, arith, if◌then◌else◌,
  leb,
}
use native.Mathlib.Nat.{min-eq_left}
use mathlib.Core.Bool.{false≢true}
use folk_core.Entry.{ℤ, pos, negsuc}
use folk_core.Metrics.Adapters.{
  limit, as_f64, as_u64, as_i64, signed, CounterVec, counter_with_labels, counter_inc,
  counter_inc_by, counter_get,
}

abbrev pub same_labels : List String → List String → Bool
same_labels [] [] = true
same_labels (x ∷ xs) (y ∷ ys) = str_eq x y && same_labels xs ys
same_labels _ _ = false

-- What the crate documents: the labels select one of the metrics, each starts at 0, and they are
-- added to on their own, as `f64` adds.
pub record CounterLaws (prom : CounterVec) : Type 0 where
  pub accepts : List String → Bool
  pub labels_of : prom.Metric → List String
  pub count : List String → prom.Vector → ℕ
  pub refused :
      (ls : List String) (v : prom.Vector) → accepts ls ≡ false → prom.with_label_values ls v ≡ none
  pub selects :
      (ls : List String) (v : prom.Vector)
      → accepts ls ≡ true
      → (c : prom.Metric) × (v' : prom.Vector) × (prom.with_label_values ls v ≡ some (c, v'))
        × (labels_of c ≡ ls)
        × ((m : List String) → count m v' ≡ count m v)
  pub get-count : (c : prom.Metric) (v : prom.Vector) → prom.get c v ≡ count (labels_of c) v
  pub count-inc :
      (m : List String) (c : prom.Metric) (v : prom.Vector)
      → count m (prom.inc c v)
        ≡ (if same_labels (labels_of c) m then as_f64 (count m v + 1) else count m v)
  pub count-inc_by :
      (n : ℕ) (m : List String) (c : prom.Metric) (v : prom.Vector)
      → count m (prom.inc_by n c v)
        ≡ (if same_labels (labels_of c) m then as_f64 (count m v + n) else count m v)

-- A use of a counter: of the metric with some labels, by one or by a number.
pub data Use : Type 0 where
  by_one : List String → Use
  by_number : ℕ → List String → Use

abbrev labels : Use → List String
labels (by_one ls) = ls
labels (by_number n ls) = ls

abbrev amount : Use → ℕ
amount (by_one ls) = 1
amount (by_number n ls) = n

abbrev share : List String → Use → ℕ
share m u = if same_labels (labels u) m then amount u else 0

-- What was added for some labels.
abbrev pub total : List String → List Use → ℕ
total m [] = 0
total m (u ∷ us) = share m u + total m us

abbrev magnitude : ℤ → ℕ
magnitude (pos n) = n
magnitude (negsuc n) = suc n

within : (n b : ℕ) → n ≤ b → leb n b ≡ true
within n b small = ground (arith, small)

as_f64-small : (n : ℕ) → n ≤ limit → as_f64 n ≡ n
unfolding as_f64
as_f64-small n small = rw (within n limit small, as_f64, if◌then◌else◌) refl

-- What a gauge is set to.
as_i64-signed : (z : ℤ) → magnitude z ≤ limit → as_i64 (signed z) ≡ z
as_i64-signed (pos n) small =
    ap (λ k. pos (min k (2 ^ 63 - 1))) (as_f64-small n small)
    ∙ ap pos (min-eq_left (omega (arith, small)))
as_i64-signed (negsuc n) small =
    ap (λ k. negsuc (min (k - 1) (2 ^ 63 - 1))) (as_f64-small (suc n) small)
    ∙ ap negsuc (omega (arith, small))

add_exact :
    (here : Bool) (k n n' : ℕ)
    → (n ≤ limit → n' ≡ n)
    → k + (if here then n else 0) ≤ limit
    → (if here then as_f64 (k + n') else k) ≡ k + (if here then n else 0)
add_exact true k n n' same small =
    ap (λ j. as_f64 (k + j)) (same (omega (arith, small))) ∙ as_f64-small (k + n) small
add_exact false k n n' same small = omega arith

same_labels_sound : (xs ys : List String) → same_labels xs ys ≡ true → xs ≡ ys
same_labels_sound [] [] e = refl
same_labels_sound [] (y ∷ ys) e = absurd (false≢true e)
same_labels_sound (x ∷ xs) [] e = absurd (false≢true e)
same_labels_sound (x ∷ xs) (y ∷ ys) e = elim (Bool-cases (str_eq x y)) [
  | inr f ↦ absurd (false≢true (sym (ap (λ b. b && same_labels xs ys) f) ∙ e))
  | inl f ↦
      let rest : same_labels xs ys ≡ true = sym (ap (λ b. b && same_labels xs ys) f) ∙ e in
      ap (λ z. z ∷ xs) ((eq_iff x y).0 f) ∙ ap (λ zs. y ∷ zs) (same_labels_sound xs ys rest)
]

module _ (prom : CounterVec) where
  abbrev added : Use → prom.Metric → prom.Vector → prom.Vector
  added (by_one ls) c v = counter_inc prom c v
  added (by_number n ls) c v = counter_inc_by prom n c v

  -- A caller whose labels the vector refuses panics, and adds nothing.
  unfoldable pub use_counter : Use → prom.Vector → prom.Vector
  use_counter u v = elim (counter_with_labels prom (labels u) v) [
    | none ↦ v
    | some (c, v') ↦ added u c v'
  ]

  unfoldable pub use_all : List Use → prom.Vector → prom.Vector
  use_all [] v = v
  use_all (u ∷ us) v = use_all us (use_counter u v)

  unfoldable pub read_counter : List String → prom.Vector → Option ℕ
  read_counter m v = elim (counter_with_labels prom m v) [
    | none ↦ none
    | some (c, v') ↦ some (counter_get prom c v')
  ]

  module _ (laws : CounterLaws prom) (m : List String) where
    added-count :
        (u : Use) (c : prom.Metric) (v : prom.Vector)
        → laws.labels_of c ≡ labels u
        → laws.count m v + share m u ≤ limit
        → laws.count m (added u c v) ≡ laws.count m v + share m u
    unfolding counter_inc counter_inc_by
    added-count (by_one ls) c v is small =
        laws.count-inc m c v
        ∙ ap (λ xs. if same_labels xs m then as_f64 (laws.count m v + 1) else laws.count m v) is
        ∙ add_exact (same_labels ls m) (laws.count m v) 1 1 (λ fits. refl) small
    added-count (by_number n ls) c v is small =
        laws.count-inc_by (as_f64 n) m c v
        ∙ ap (λ xs. if same_labels xs m then as_f64 (laws.count m v + as_f64 n) else laws.count m v)
            is
        ∙ add_exact (same_labels ls m) (laws.count m v) n (as_f64 n) (as_f64-small n) small

    -- What a refused use would have added is for other labels.
    share-refused :
        (u : Use) → laws.accepts m ≡ true → laws.accepts (labels u) ≡ false → share m u ≡ 0
    share-refused u ok refused = elim (Bool-cases (same_labels (labels u) m)) [
      | inr other ↦ rw (other, if◌then◌else◌) refl
      | inl same ↦
          absurd
            (false≢true (sym refused ∙ ap laws.accepts (same_labels_sound (labels u) m same) ∙ ok))
    ]

    use_counter-count :
        (u : Use) (v : prom.Vector)
        → laws.accepts m ≡ true
        → laws.count m v + share m u ≤ limit
        → laws.count m (use_counter u v) ≡ laws.count m v + share m u
    unfolding use_counter counter_with_labels
    use_counter-count u v ok small = elim (Bool-cases (laws.accepts (labels u))) [
      | inr bad ↦
          rw (laws.refused (labels u) v bad, use_counter, counter_with_labels)
            (omega (arith, share-refused u ok bad))
      | inl fits ↦
          let (c, v', found, is, same) = laws.selects (labels u) v fits in
          rw (found, use_counter, counter_with_labels)
            (added-count u c v' is (subst (λ k. k + share m u ≤ limit) (sym (same m)) small)
              ∙ ap (λ k. k + share m u) (same m))
    ]

    use_all-count :
        (us : List Use) (v : prom.Vector)
        → laws.accepts m ≡ true
        → laws.count m v + total m us ≤ limit
        → laws.count m (use_all us v) ≡ laws.count m v + total m us
    unfolding use_all
    use_all-count [] v ok small = omega arith
    use_all-count (u ∷ us) v ok small =
        let one = use_counter-count u v ok (omega (arith, small)) in
        let more = use_all-count us (use_counter u v) ok (omega (arith, small, one)) in
        omega (arith, one, more)

    -- A counter whose labels the vector accepts, and for which no more than 2 ^ 53 is added in all,
    -- reads exactly what was added for these labels, in whatever uses of the whole vector.
    pub use_all-read_counter :
        (us : List Use) (v : prom.Vector)
        → laws.accepts m ≡ true
        → laws.count m v ≡ 0
        → total m us ≤ limit
        → read_counter m (use_all us v) ≡ some (total m us)
    unfolding read_counter counter_with_labels counter_get
    use_all-read_counter us v ok fresh small =
        let counted = use_all-count us v ok (omega (arith, fresh, small)) in
        let (c, v', found, is, same) = laws.selects m (use_all us v) ok in
        let held : prom.get c v' ≡ total m us =
          laws.get-count c v'
          ∙ ap (λ ls. laws.count ls v') is
          ∙ same m
          ∙ omega (arith, counted, fresh) in
        rw (found, read_counter, counter_with_labels, counter_get)
          (ap (λ k. some (as_u64 k)) held ∙ ap some (min-eq_left (omega (arith, small))))
