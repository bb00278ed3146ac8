-- ===== src/Registries/Lookup.antt =====
-- What a registry of health_registry.rs or registry.rs answers after any registrations.
use folk_core.Base.{
  ◌≡◌, refl, ◌∙◌, ◌⊎◌, inl, inr, String, false, Option, none, some, List, [], ◌∷◌, str_eq, eq_iff,
  if◌then◌else◌, arith, Bool-cases, Option-cases, ap, sym,
}
use mathlib.Core.Bool.{false≢true}
use folk_core.Api.{Bytes}
use folk_core.Registries.{
  HashMap, get, insert, register_check, collect_statuses, check_all, Answer, method_not_found,
  register_raw, call,
}

-- The registrations of handlers, one after another.
unfoldable pub register_all :
    List (String × (Bytes → Answer)) → HashMap (Bytes → Answer) → HashMap (Bytes → Answer)
register_all [] m = m
register_all ((name, handler) ∷ rest) m = register_all rest (register_raw name handler m)

-- The last registration under a name.
abbrev pub last_of {ℓ} : {A : Type ℓ} → String → List (String × A) → Option A → Option A
last_of k [] o = o
last_of k ((j, a) ∷ rest) o = last_of k rest (if str_eq j k then some a else o)

abbrev pub answer_of : String → Option (Bytes → Answer) → Bytes → Answer
answer_of method none payload = method_not_found method
answer_of method (some handler) payload = handler payload

module _ {ℓ} {A : Type ℓ} where
  pub insert_all : List (String × A) → HashMap A → HashMap A
  insert_all [] m = m
  insert_all ((j, a) ∷ rest) m = insert_all rest (insert j a m)

  get-insert :
      (k j : String) (a : A) (m : HashMap A)
      → get k (insert j a m) ≡ (if str_eq j k then some a else get k m)
  get-insert k j a [] = refl
  get-insert k j a ((i, b) ∷ m) = elim (Bool-cases (str_eq i j)) [
    | inl h ↦ let same : i ≡ j = (eq_iff i j).0 h in rw (h, ← same) (ground arith)
    | inr h ↦ ground (arith, get-insert k j a m, different h)
  ]
    where
      different : str_eq i j ≡ false → (str_eq i k ≡ false) ⊎ (str_eq j k ≡ false)
      different h = elim (Bool-cases (str_eq i k)) [
        | inr f ↦ inl f
        | inl e ↦ elim (Bool-cases (str_eq j k)) [
          | inr f ↦ inr f
          | inl e' ↦ absurd (clash ((eq_iff i k).0 e ∙ sym ((eq_iff j k).0 e')))
        ]
      ]
        where
          clash : i ≡ j → ⊥
          clash same = false≢true (sym h ∙ (eq_iff i j).1 same)

  pub get-last_of :
      (k : String) (entries : List (String × A)) (m : HashMap A)
      → get k (insert_all entries m) ≡ last_of k entries (get k m)
  unfolding insert_all
  get-last_of k [] m = refl
  get-last_of k ((j, a) ∷ rest) m =
      get-last_of k rest (insert j a m) ∙ ap (last_of k rest) (get-insert k j a m)

  -- No key stands twice.
  abbrev Unique : HashMap A → Type ℓ
  Unique [] = Unit
  Unique ((j, a) ∷ m) = (get j m ≡ none) × Unique m

  insert-Unique : (k : String) (a : A) (m : HashMap A) → Unique m → Unique (insert k a m)
  insert-Unique k a [] u = (refl, tt)
  insert-Unique k a ((j, b) ∷ m) u = elim (Bool-cases (str_eq j k)) [
    | inl h ↦ rw (h, if◌then◌else◌) u
    | inr h ↦
        rw (h, if◌then◌else◌)
          (
            get-insert j k a m ∙ ap (λ b. if b then some a else get j m) (flip h) ∙ u.0,
            insert-Unique k a m u.1,
          )
  ]
    where
      flip : str_eq j k ≡ false → str_eq k j ≡ false
      flip h = elim (Bool-cases (str_eq k j)) [
        | inr f ↦ f
        | inl e ↦ absurd (false≢true (sym h ∙ (eq_iff j k).1 (sym ((eq_iff k j).0 e))))
      ]

  insert_all-Unique :
      (entries : List (String × A)) (m : HashMap A) → Unique m → Unique (insert_all entries m)
  unfolding insert_all
  insert_all-Unique [] m u = u
  insert_all-Unique ((j, a) ∷ rest) m u =
      insert_all-Unique rest (insert j a m) (insert-Unique j a m u)

  last_of-get :
      (k : String) (m : HashMap A) (o : Option A)
      → Unique m
      → last_of k m o ≡ (elim (get k m) [ none ↦ o | some a ↦ some a ])
  last_of-get k [] o u = refl
  last_of-get k ((j, a) ∷ m) o u = elim (Bool-cases (str_eq j k)) [
    | inl h ↦
        let none_later : get k m ≡ none = ap (λ i. get i m) (sym ((eq_iff j k).0 h)) ∙ u.0 in
        rw (h, if◌then◌else◌) (last_of-get k m (some a) u.1 ∙ rw none_later refl)
    | inr h ↦ rw (h, if◌then◌else◌) (last_of-get k m o u.1)
  ]

  -- Collecting the entries of a map into a map gives the same answers.
  pub get-insert_all :
      (k : String) (entries : List (String × A))
      → get k (insert_all (insert_all entries []) []) ≡ last_of k entries none
  get-insert_all k entries =
      get-last_of k (insert_all entries []) []
      ∙ last_of-get k (insert_all entries []) none (insert_all-Unique entries [] tt)
      ∙ same (get k (insert_all entries []))
      ∙ get-last_of k entries []
    where
      same : (o : Option A) → (elim o [ none ↦ none | some a ↦ some a ]) ≡ o
      same none = refl
      same (some a) = refl

register_all-insert_all :
    (entries : List (String × (Bytes → Answer))) (m : HashMap (Bytes → Answer))
    → register_all entries m ≡ insert_all entries m
unfolding register_all register_raw insert_all
register_all-insert_all [] m = refl
register_all-insert_all ((name, handler) ∷ rest) m =
    register_all-insert_all rest (insert name handler m)

call-answer_of :
    (m : HashMap (Bytes → Answer)) (method : String) (payload : Bytes)
    → call m method payload ≡ answer_of method (get method m) payload
unfolding call
call-answer_of m method payload = elim (Option-cases (get method m)) [
  | inl e ↦ rw (e, call) refl
  | inr (handler, e) ↦ rw (e, call) refl
]

-- After any registrations, a call runs the handler that was registered last under its method, and
-- is refused with the method's name if there is none.
pub call-register_all :
    (entries : List (String × (Bytes → Answer))) (method : String) (payload : Bytes)
    → call (register_all entries []) method payload
      ≡ answer_of method (last_of method entries none) payload
call-register_all entries method payload =
    call-answer_of (register_all entries []) method payload
    ∙ ap (λ m. answer_of method (get method m) payload) (register_all-insert_all entries [])
    ∙ ap (λ o. answer_of method o payload) (get-last_of method entries [])

module _ (HealthStatus : Type 0) where
  -- The registrations of checks, one after another.
  pub register_checks : List (String × HealthStatus) → HashMap HealthStatus → HashMap HealthStatus
  register_checks [] m = m
  register_checks ((name, check) ∷ rest) m =
      register_checks rest (register_check HealthStatus name check m)

  collect_statuses-insert_all :
      (es m : HashMap HealthStatus) → collect_statuses HealthStatus es m ≡ insert_all es m
  unfolding collect_statuses insert_all
  collect_statuses-insert_all [] m = refl
  collect_statuses-insert_all ((j, a) ∷ rest) m = collect_statuses-insert_all rest (insert j a m)

  register_checks-insert_all :
      (es m : HashMap HealthStatus) → register_checks es m ≡ insert_all es m
  unfolding register_checks register_check insert_all
  register_checks-insert_all [] m = refl
  register_checks-insert_all ((j, a) ∷ rest) m = register_checks-insert_all rest (insert j a m)

  -- After any registrations, `check_all` reports the check that was registered last under each name,
  -- and no other.
  pub check_all-register_checks :
      (entries : List (String × HealthStatus)) (plugin_name : String)
      → get plugin_name (check_all HealthStatus (register_checks entries []))
        ≡ last_of plugin_name entries none
  unfolding check_all
  check_all-register_checks entries plugin_name =
      ap (get plugin_name) (collect_statuses-insert_all (register_checks entries []) [])
      ∙ ap (λ m. get plugin_name (insert_all m [])) (register_checks-insert_all entries [])
      ∙ get-insert_all plugin_name entries
