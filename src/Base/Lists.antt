-- ===== src/Base/Lists.antt =====
-- Lists measured and indexed by native numbers, under the library's names.
use Prim.Native.Nat.{ℕ, zero, suc, ◌+◌, ◌≤◌}
use mathlib.Core.Path.{◌≡◌, refl, sym, ap, subst}
use mathlib.Core.List.{List, [], ◌∷◌, ◌++◌}
use mathlib.Core.Logic.{◌≢◌}
use mathlib.Core.Bool.{Bool, true, false}
use mathlib.Core.Option.{Option, none, some, some-injective}
use native.Mathlib.Omega.{arith}

module _ {ℓ} {A : Type ℓ} where
  abbrev pub length : List A → ℕ
  length [] = 0
  length (x ∷ xs) = suc (length xs)

  abbrev pub get_elem? : List A → ℕ → Option A
  get_elem? [] i = none
  get_elem? (x ∷ xs) zero = some x
  get_elem? (x ∷ xs) (suc i) = get_elem? xs i

  abbrev pub get_or : List A → ℕ → A → A
  get_or [] i d = d
  get_or (x ∷ xs) zero d = x
  get_or (x ∷ xs) (suc i) d = get_or xs i d

  abbrev pub set : List A → ℕ → A → List A
  set [] i v = []
  set (x ∷ xs) zero v = v ∷ xs
  set (x ∷ xs) (suc i) v = x ∷ set xs i v

  abbrev pub take : ℕ → List A → List A
  take zero xs = []
  take (suc n) [] = []
  take (suc n) (x ∷ xs) = x ∷ take n xs

  abbrev pub drop : ℕ → List A → List A
  drop zero xs = xs
  drop (suc n) [] = []
  drop (suc n) (x ∷ xs) = drop n xs

  abbrev pub replicate : ℕ → A → List A
  replicate zero a = []
  replicate (suc n) a = a ∷ replicate n a

  abbrev pub concat : List (List A) → List A
  concat [] = []
  concat (x ∷ xs) = x ++ concat xs

  abbrev pub count_if : (A → Bool) → List A → ℕ
  count_if p [] = 0
  count_if p (x ∷ xs) = elim (p x) [ true ↦ suc (count_if p xs) | false ↦ count_if p xs ]

  abbrev pub is_empty : List A → Bool
  is_empty [] = true
  is_empty (x ∷ xs) = false

  abbrev pub All {κ} : (A → Type κ) → List A → Type κ
  All P [] = Unit
  All P (x ∷ xs) = P x × All P xs

module _ {ℓ} {A : Type ℓ} where
  pub length-append : (xs ys : List A) → length (xs ++ ys) ≡ length xs + length ys
  length-append [] ys = omega arith
  length-append (x ∷ xs) ys = omega (arith, length-append xs ys)

  pub take-append-drop : (n : ℕ) (xs : List A) → take n xs ++ drop n xs ≡ xs
  take-append-drop zero xs = refl
  take-append-drop (suc n) [] = refl
  take-append-drop (suc n) (x ∷ xs) = rw (take-append-drop n xs)

  pub length-take-le : (n : ℕ) (xs : List A) → length (take n xs) ≤ n
  length-take-le zero xs = omega arith
  length-take-le (suc n) [] = omega arith
  length-take-le (suc n) (x ∷ xs) = omega (arith, length-take-le n xs)

  pub length-set : (xs : List A) (i : ℕ) (v : A) → length (set xs i v) ≡ length xs
  length-set [] i v = refl
  length-set (x ∷ xs) zero v = refl
  length-set (x ∷ xs) (suc i) v = ap suc (length-set xs i v)

  pub length-replicate : (n : ℕ) (a : A) → length (replicate n a) ≡ n
  length-replicate zero a = refl
  length-replicate (suc n) a = ap suc (length-replicate n a)

  pub count_if-append :
      (p : A → Bool) (xs ys : List A) → count_if p (xs ++ ys) ≡ count_if p xs + count_if p ys
  count_if-append p [] ys = omega arith
  count_if-append p (x ∷ xs) ys = ground (arith, count_if-append p xs ys)

module _ {ℓ κ} {A : Type ℓ} (P : A → Type κ) where
  pub All-append : (xs ys : List A) → All P xs → All P ys → All P (xs ++ ys)
  All-append [] ys hx hy = hy
  All-append (x ∷ xs) ys hx hy = (hx.0, All-append xs ys hx.1 hy)

  pub All-set : (xs : List A) (i : ℕ) (v : A) → All P xs → P v → All P (set xs i v)
  All-set [] i v h hv = tt
  All-set (x ∷ xs) zero v h hv = (hv, h.1)
  All-set (x ∷ xs) (suc i) v h hv = (h.0, All-set xs i v h.1 hv)

  pub All-get_elem? : (xs : List A) (i : ℕ) (x : A) → All P xs → get_elem? xs i ≡ some x → P x
  All-get_elem? [] i x h e = cc
  All-get_elem? (y ∷ ys) zero x h e = subst P (some-injective _ _ e) h.0
  All-get_elem? (y ∷ ys) (suc i) x h e = All-get_elem? ys i x h.1 e

module _ {ℓ κ μ} {A : Type ℓ} (P : A → Type κ) (Q : A → Type μ) where
  pub All-weaken : (xs : List A) → ((x : A) → P x → Q x) → All P xs → All Q xs
  All-weaken [] f h = tt
  All-weaken (x ∷ xs) f h = (f x h.0, All-weaken xs f h.1)

abbrev pub bit : Bool → ℕ
bit true = 1
bit false = 0

module _ {ℓ} {A : Type ℓ} (p : A → Bool) where
  pub count_if-set :
      (xs : List A) (i : ℕ) (v old : A)
      → get_elem? xs i ≡ some old
      → count_if p (set xs i v) + bit (p old) ≡ count_if p xs + bit (p v)
  count_if-set [] i v old e = cc
  count_if-set (x ∷ xs) zero v old e = rw (← some-injective _ _ e) (ground arith)
  count_if-set (x ∷ xs) (suc i) v old e = ground (arith, count_if-set xs i v old e)

  pub count_if-le : (xs : List A) → count_if p xs ≤ length xs
  count_if-le [] = omega arith
  count_if-le (x ∷ xs) = ground (arith, count_if-le xs)

module _ {ℓ} {A : Type ℓ} where
  pub set-set : (xs : List A) (i : ℕ) (v w : A) → set (set xs i v) i w ≡ set xs i w
  set-set [] i v w = refl
  set-set (x ∷ xs) zero v w = refl
  set-set (x ∷ xs) (suc i) v w = ap (λ ys. x ∷ ys) (set-set xs i v w)

  pub get_elem?-set :
      (xs : List A) (i : ℕ) (v old : A)
      → get_elem? xs i ≡ some old
      → get_elem? (set xs i v) i ≡ some v
  get_elem?-set [] i v old e = cc
  get_elem?-set (x ∷ xs) zero v old e = refl
  get_elem?-set (x ∷ xs) (suc i) v old e = get_elem?-set xs i v old e

  pub get_elem?-set_other :
      (xs : List A) (i j : ℕ) (v : A) → i ≢ j → get_elem? (set xs i v) j ≡ get_elem? xs j
  get_elem?-set_other [] i j v ne = refl
  get_elem?-set_other (x ∷ xs) zero zero v ne = absurd (ne refl)
  get_elem?-set_other (x ∷ xs) zero (suc j) v ne = refl
  get_elem?-set_other (x ∷ xs) (suc i) zero v ne = refl
  get_elem?-set_other (x ∷ xs) (suc i) (suc j) v ne =
      get_elem?-set_other xs i j v (λ e. ne (ap suc e))

  pub set_self : (xs : List A) (i : ℕ) (v : A) → get_elem? xs i ≡ some v → set xs i v ≡ xs
  set_self [] i v e = refl
  set_self (x ∷ xs) zero v e = ap (λ y. y ∷ xs) (sym (some-injective _ _ e))
  set_self (x ∷ xs) (suc i) v e = ap (λ ys. x ∷ ys) (set_self xs i v e)

module _ {ℓ κ} {A : Type ℓ} {B : Type κ} (f : A → Option B) where
  abbrev pub filter_map : List A → List B
  filter_map [] = []
  filter_map (x ∷ xs) = elim (f x) [ none ↦ filter_map xs | some y ↦ y ∷ filter_map xs ]

  pub filter_map-append : (xs ys : List A) → filter_map (xs ++ ys) ≡ filter_map xs ++ filter_map ys
  filter_map-append [] ys = refl
  filter_map-append (x ∷ xs) ys = ground (arith, filter_map-append xs ys)
