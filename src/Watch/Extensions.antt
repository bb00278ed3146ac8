-- ===== src/Watch/Extensions.antt =====
-- Which files make the callback of crates/folk-core/src/watch.rs reload the workers.
use folk_core.Base.{
  ℕ, zero, suc, ◌≡◌, ◌≢◌, ◌↔◌, inl, inr, refl, sym, ap, ◌∙◌, String, true, none, some, List, [],
  ◌∷◌, ◌++◌, map, All, get_elem?, arith, ==_iff, ==_self, ◌==◌, Bool-cases, if◌then◌else◌,
}
use mathlib.Core.Option.{some-injective}
use folk_core.Config.{DevConfig}
use folk_core.Watch.{
  Text, code_points, dot, to_ascii_lowercase, trim_dots, OsUnit, character, OsText, to_str,
  behind_last_dot, text_eq, contains_text, matches_extension, watched_extensions,
}

abbrev pub HasNoDot : Text → Type 0
HasNoDot t = All (λ c. c ≢ dot) t

-- A file name in two parts, with a dot between them.
abbrev pub dotted : OsText → Text → OsText
dotted stem ext = stem ++ character dot ∷ map character ext

behind_last_dot-none : (t : Text) → HasNoDot t → behind_last_dot (map character t) ≡ none
behind_last_dot-none [] h = refl
behind_last_dot-none (c ∷ t) h = elim (Bool-cases (c == dot)) [
  | inl e ↦ absurd (h.0 ((==_iff c dot).0 e))
  | inr e ↦ rw (behind_last_dot-none t h.1, e, if◌then◌else◌) refl
]

behind_last_dot-dotted :
    (stem : OsText) (ext : Text)
    → HasNoDot ext
    → behind_last_dot (dotted stem ext) ≡ some (map character ext)
behind_last_dot-dotted [] ext h = rw (behind_last_dot, behind_last_dot-none ext h) refl
behind_last_dot-dotted (u ∷ stem) ext h =
    rw (behind_last_dot, behind_last_dot-dotted stem ext h) refl

to_str-map : (t : Text) → to_str (map character t) ≡ some t
to_str-map [] = refl
to_str-map (c ∷ t) = rw (to_str-map t) refl

text_eq→same : (s t : Text) → text_eq s t ≡ true → s ≡ t
text_eq→same [] [] e = refl
text_eq→same [] (d ∷ t) e = cc
text_eq→same (c ∷ s) [] e = cc
text_eq→same (c ∷ s) (d ∷ t) e = elim (Bool-cases (c == d)) [
  | inl h ↦ rw ((==_iff c d).0 h) (ap (λ r. d ∷ r) (text_eq→same s t (ground (arith, e, h))))
  | inr h ↦ absurd (ground (arith, e, h))
]

text_eq_self : (t : Text) → text_eq t t ≡ true
text_eq_self [] = refl
text_eq_self (c ∷ t) = rw (==_self c, text_eq_self t) refl

-- The configured extension `e`, in place `i`, stands for `ext`: leading dots and the case of ASCII
-- letters do not matter.
abbrev pub StandsFor : DevConfig → Text → ℕ → String → Type 0
StandsFor dev ext i e =
    (get_elem? dev.watch_extensions i ≡ some e)
    × (to_ascii_lowercase (trim_dots (code_points e)) ≡ to_ascii_lowercase ext)

module _ (f : String → Text) (t : Text) where
  contains_text→some :
      (es : List String)
      → contains_text (map f es) t ≡ true
      → (i : ℕ) × (e : String) × ((get_elem? es i ≡ some e) × (f e ≡ t))
  contains_text→some [] h = cc
  contains_text→some (e ∷ es) h = elim (Bool-cases (text_eq (f e) t)) [
    | inl g ↦ (0, e, (refl, text_eq→same (f e) t g))
    | inr g ↦ let (i, d, found) = contains_text→some es (ground (arith, h, g)) in (suc i, d, found)
  ]

  some→contains_text :
      (es : List String) (i : ℕ) (e : String)
      → get_elem? es i ≡ some e
      → f e ≡ t
      → contains_text (map f es) t ≡ true
  some→contains_text [] i e at same = cc
  some→contains_text (d ∷ es) zero e at same =
      let here : f d ≡ t = ap f (some-injective _ _ at) ∙ same in rw (here, text_eq_self t) refl
  some→contains_text (d ∷ es) (suc i) e at same =
      let later = some→contains_text es i e at same in ground (arith, later)

matches_extension-dotted :
    (exts : List Text) (u : OsUnit) (stem : OsText) (ext : Text)
    → HasNoDot ext
    → matches_extension (some (u ∷ dotted stem ext)) exts
      ≡ contains_text exts (to_ascii_lowercase ext)
unfolding matches_extension
matches_extension-dotted exts u stem ext h =
    rw (matches_extension, behind_last_dot-dotted stem ext h, to_str-map ext) refl

-- A changed file with a name before its extension triggers a reload just if its extension is one of
-- those configured, up to leading dots in the configuration and the case of ASCII letters; only what
-- follows the last dot of the name counts.
pub matches_extension-StandsFor :
    (dev : DevConfig) (u : OsUnit) (stem : OsText) (ext : Text)
    → HasNoDot ext
    → (matches_extension (some (u ∷ dotted stem ext)) (watched_extensions dev) ≡ true)
      ↔ ((i : ℕ) × (e : String) × StandsFor dev ext i e)
unfolding watched_extensions
matches_extension-StandsFor dev u stem ext h = (
  λ matches.
      contains_text→some kept (to_ascii_lowercase ext) dev.watch_extensions (sym same ∙ matches),
  λ (i, e, found).
      same
      ∙ some→contains_text kept (to_ascii_lowercase ext) dev.watch_extensions i e found.0 found.1,
)
  where
    kept : String → Text
    kept e = to_ascii_lowercase (trim_dots (code_points e))

    same :
        matches_extension (some (u ∷ dotted stem ext)) (map kept dev.watch_extensions)
        ≡ contains_text (map kept dev.watch_extensions) (to_ascii_lowercase ext)
    same = matches_extension-dotted (map kept dev.watch_extensions) u stem ext h
