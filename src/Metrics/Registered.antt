-- ===== src/Metrics/Registered.antt =====
-- Which metrics of crates/folk-core/src/metrics_registry.rs are rendered after any registrations.
use folk_core.Base.{
  ◌≡◌, inl, inr, refl, sym, ap, ◌∙◌, Option, if◌then◌else◌, String, Bool, true, false, none, some,
  List, [], ◌∷◌, map, ◌++◌, append-nil, append_assoc, map-append, ◌||◌, str_eq, Bool-cases,
  Option-cases, All, is_some,
}
use mathlib.Core.Bool.{false≢true}
use folk_core.Api.{Bytes}
use folk_core.Metrics.{
  Kind, counter, gauge, histogram, Prometheus, Metric, metric, kept, vector, new_registry,
  counter_vec, gauge_vec, histogram_vec, render,
}

abbrev pub contains : List String → String → Bool
contains [] n = false
contains (m ∷ ms) n = str_eq m n || contains ms n

or_swap : (a b c : Bool) → (a || (b || c)) ≡ (b || (a || c))
or_swap true true c = refl
or_swap true false c = refl
or_swap false true c = refl
or_swap false false c = refl

contains-last :
    (ns : List String) (m n : String) → contains (ns ++ m ∷ []) n ≡ (str_eq m n || contains ns n)
contains-last [] m n = refl
contains-last (k ∷ ns) m n =
    ap (λ b. str_eq k n || b) (contains-last ns m n)
    ∙ or_swap (str_eq k n) (str_eq m n) (contains ns n)

-- The first of the vectors under each name, where the names in `seen` have been taken before.
abbrev pub firsts {ℓ} : {V : Type ℓ} → (V → String) → List String → List V → List V
firsts name_of seen [] = []
firsts name_of seen (v ∷ vs) =
    let later = firsts name_of seen vs in
    let first = v ∷ firsts name_of (name_of v ∷ seen) vs in
    if contains seen (name_of v) then later else first

-- What the crate documents: a name is taken by the first vector that registers under it, and nothing
-- else makes a registration fail; and what is printed are the registered vectors.
pub record Laws (prom : Prometheus) : Type 0 where
  pub vectors : prom.Registry → List prom.Vector
  pub name_of : prom.Vector → String
  pub print : List prom.Vector → Bytes
  pub vectors-empty : vectors prom.empty ≡ []
  pub name_of-new :
      (k : Kind) (name help : String) (keys : List String) (v : prom.Vector)
      → prom.new k name help keys ≡ some v
      → name_of v ≡ name
  pub taken :
      (v : prom.Vector) (r : prom.Registry)
      → contains (map name_of (vectors r)) (name_of v) ≡ true
      → prom.register v r ≡ none
  pub fresh :
      (v : prom.Vector) (r : prom.Registry)
      → contains (map name_of (vectors r)) (name_of v) ≡ false
      → (r' : prom.Registry) × (prom.register v r ≡ some r') × (vectors r' ≡ vectors r ++ v ∷ [])
  pub encodes : (r : prom.Registry) → prom.encode r ≡ some (print (vectors r))

-- What a plugin asks for.
pub record Request : Type 0 where
  pub kind : Kind
  pub name : String
  pub help : String
  pub label_keys : List String

module _ (prom : Prometheus) where
  -- The call for a kind of metric.
  abbrev pub ask :
      Kind → String → String → List String → prom.Registry → Metric prom.Vector × prom.Registry
  ask counter = counter_vec prom
  ask gauge = gauge_vec prom
  ask histogram = histogram_vec prom

  -- The calls of plugins, one after another.
  unfoldable pub ask_all : List Request → prom.Registry → List (Metric prom.Vector) × prom.Registry
  ask_all [] r = ([], r)
  ask_all (q ∷ qs) r =
      let (m, r') = ask q.kind q.name q.help q.label_keys r in
      let (ms, r'') = ask_all qs r' in (m ∷ ms, r'')

  -- Each request has a specification that the crate accepts.
  abbrev pub AllValid : List Request → Type 0
  AllValid qs = All (λ q. is_some (prom.new q.kind q.name q.help q.label_keys) ≡ true) qs

  ask-vector :
      (k : Kind) (name help : String) (keys : List String) (r : prom.Registry)
      → ask k name help keys r ≡ vector prom k name help keys r
  unfolding counter_vec gauge_vec histogram_vec
  ask-vector counter name help keys r = refl
  ask-vector gauge name help keys r = refl
  ask-vector histogram name help keys r = refl

  module _ (laws : Laws prom) where
    abbrev names : prom.Registry → List String
    names r = map laws.name_of (laws.vectors r)

    -- What the requests have got, and left, from a registry whose names are those in `seen`.
    record Asked (qs : List Request) (seen : List String) (r : prom.Registry) : Type 0 where
      got : List prom.Vector
      metrics : (ask_all qs r).0 ≡ map metric got
      named : map laws.name_of got ≡ map (λ q. q.name) qs
      left : laws.vectors (ask_all qs r).1 ≡ laws.vectors r ++ firsts laws.name_of seen got

    -- One request, which gets the vector `v` and leaves `r1`.
    step :
        (q : Request) (qs : List Request) (seen seen1 : List String) (r r1 : prom.Registry)
        (v : prom.Vector)
        → ask q.kind q.name q.help q.label_keys r ≡ (metric v, r1)
        → laws.name_of v ≡ q.name
        → ((vs : List prom.Vector)
            → laws.vectors r1 ++ firsts laws.name_of seen1 vs
              ≡ laws.vectors r ++ firsts laws.name_of seen (v ∷ vs))
        → Asked qs seen1 r1
        → Asked (q ∷ qs) seen r
    unfolding ask_all
    step q qs seen seen1 r r1 v asked name moves later = record {
      got = v ∷ later.got;
      metrics = ap (λ o. o.0 ∷ (ask_all qs o.1).0) asked ∙ ap (λ ms. metric v ∷ ms) later.metrics;
      named = ap (λ n. n ∷ map laws.name_of later.got) name ∙ ap (λ ns. q.name ∷ ns) later.named;
      left = ap (λ o. laws.vectors (ask_all qs o.1).1) asked ∙ later.left ∙ moves later.got;
    }

    -- The names of a registry with one vector more.
    names-added :
        (v : prom.Vector) (r r' : prom.Registry) (n : String)
        → laws.vectors r' ≡ laws.vectors r ++ v ∷ []
        → contains (names r') n ≡ (str_eq (laws.name_of v) n || contains (names r) n)
    names-added v r r' n added =
        ap (λ vs. contains (map laws.name_of vs) n) added
        ∙ ap (λ ns. contains ns n) (map-append laws.name_of (laws.vectors r) (v ∷ []))
        ∙ contains-last (names r) (laws.name_of v) n

    ask_all-Asked :
        (qs : List Request) (seen : List String) (r : prom.Registry)
        → AllValid qs
        → ((n : String) → contains seen n ≡ contains (names r) n)
        → Asked qs seen r
    unfolding ask_all
    ask_all-Asked [] seen r valid same = record {
      got = [];
      metrics = refl;
      named = refl;
      left = sym (append-nil (laws.vectors r));
    }
    ask_all-Asked (q ∷ qs) seen r valid same =
        elim (Option-cases (prom.new q.kind q.name q.help q.label_keys)) [
          | inl e ↦ absurd (false≢true (ap is_some (sym e) ∙ valid.0))
          | inr (v, e) ↦
              let name = laws.name_of-new q.kind q.name q.help q.label_keys v e in
              let asked = ask-vector q.kind q.name q.help q.label_keys r in
              elim (Bool-cases (contains (names r) (laws.name_of v))) [
                | inl used ↦
                    step q qs seen seen r r v
                      (asked ∙ rw (e, laws.taken v r used, vector, kept) refl) name
                      (λ vs. rw (same (laws.name_of v) ∙ used, if◌then◌else◌) refl)
                      (ask_all-Asked qs seen r valid.1 same)
                | inr free ↦
                    let (r', done, added) = laws.fresh v r free in
                    step q qs seen (laws.name_of v ∷ seen) r r' v
                      (asked ∙ rw (e, done, vector, kept) refl) name
                      (λ vs.
                        ap (λ xs. xs ++ firsts laws.name_of (laws.name_of v ∷ seen) vs) added
                        ∙ append_assoc (laws.vectors r) (v ∷ []) _
                        ∙ rw (same (laws.name_of v) ∙ free, if◌then◌else◌) refl)
                      (ask_all-Asked qs (laws.name_of v ∷ seen) r' valid.1 (λ n.
                        ap (λ b. str_eq (laws.name_of v) n || b) (same n)
                        ∙ sym (names-added v r r' n added)))
              ]
        ]

    -- After any requests with valid specifications, every caller has got a metric under the name that
    -- it asked for, also where the name was taken; and `render` gives what the crate prints for those
    -- that were first requested under their names, in the order of the requests, and for no other.
    pub ask_all-names :
        (from_utf8 : Bytes → Option String) (qs : List Request)
        → AllValid qs
        → (got : List prom.Vector) × ((ask_all qs (new_registry prom)).0 ≡ map metric got)
          × (map laws.name_of got ≡ map (λ q. q.name) qs)
          × (render prom from_utf8 (ask_all qs (new_registry prom)).1
              ≡ from_utf8 (laws.print (firsts laws.name_of [] got)))
    unfolding new_registry render
    ask_all-names from_utf8 qs valid =
        let a =
          ask_all-Asked qs [] prom.empty valid
            (λ n. sym (ap (λ vs. contains (map laws.name_of vs) n) laws.vectors-empty)) in
        (
          a.got,
          a.metrics,
          a.named,
          rw (laws.encodes (ask_all qs prom.empty).1, render)
              (ap (λ vs. from_utf8 (laws.print vs))
                (a.left ∙ ap (λ xs. xs ++ firsts laws.name_of [] a.got) laws.vectors-empty)),
        )
