-- ===== src/Registries.antt =====
-- The maps behind locks that plugins register with: `HealthRegistryImpl` of
-- crates/folk-core/src/health_registry.rs and `InProcessRegistry` of crates/folk-ext/src/registry.rs.
-- A check is what it answers, a handler its function; a lock is held for a whole operation.
pub mod Lookup
use folk_core.Base.{
  ℕ, String, Bool, Option, none, some, List, [], ◌∷◌, map, str_eq, is_some, if◌then◌else◌,
}
use folk_core.Api.{Bytes}

-- `HashMap`, as its entries.
abbrev pub HashMap {ℓ} : Type ℓ → Type ℓ
HashMap A = List (String × A)

abbrev pub get {ℓ} : {A : Type ℓ} → String → HashMap A → Option A
get k [] = none
get k ((j, a) ∷ m) = if str_eq j k then some a else get k m

abbrev pub insert {ℓ} : {A : Type ℓ} → String → A → HashMap A → HashMap A
insert k a [] = (k, a) ∷ []
insert k a ((j, b) ∷ m) = if str_eq j k then (j, a) ∷ m else (j, b) ∷ insert k a m

abbrev pub keys {ℓ} : {A : Type ℓ} → HashMap A → List String
keys m = map (λ e. e.0) m

-- `HealthStatus` is a parameter; a check is the status that it answers when it is asked.
module _ (HealthStatus : Type 0) where
  -- `register`
  unfoldable pub register_check :
      String → HealthStatus → HashMap HealthStatus → HashMap HealthStatus
  register_check plugin_name check checks = insert plugin_name check checks

  -- The collection of the pairs of `check_all` into a map.
  unfoldable pub collect_statuses :
      List (String × HealthStatus) → HashMap HealthStatus → HashMap HealthStatus
  collect_statuses [] m = m
  collect_statuses ((name, status) ∷ rest) m = collect_statuses rest (insert name status m)

  unfoldable pub check_all : HashMap HealthStatus → HashMap HealthStatus
  check_all checks = collect_statuses checks []

-- A handler answers with bytes, or with the text of an error.
pub data Answer : Type 0 where
  answered : Bytes → Answer
  refused : String → Answer
  method_not_found : String → Answer

unfoldable pub register_raw :
    String → (Bytes → Answer) → HashMap (Bytes → Answer) → HashMap (Bytes → Answer)
register_raw name handler handlers = insert name handler handlers

unfoldable pub call : HashMap (Bytes → Answer) → String → Bytes → Answer
call handlers method payload = elim (get method handlers) [
  | none ↦ method_not_found method
  | some handler ↦ handler payload
]

unfoldable pub methods : HashMap (Bytes → Answer) → List String
methods handlers = keys handlers
