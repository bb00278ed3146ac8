-- ===== src/Runtime/Numbered.antt =====
-- Workers of crates/folk-core/src/runtime.rs that are numbered in the order of their spawns.
use folk_core.Base.{
  ℕ, zero, suc, ◌+◌, ◌≡◌, subst, some, List, [], ◌∷◌, ◌++◌, length, get_elem?, set, arith,
}
use mathlib.Core.Option.{some-injective}
use folk_core.Runtime.{MockWorker, contains, terminate}

-- The worker in place `i` has the `i`th identifier, and panics if `i` is among the slots.
abbrev pub IsNth : List ℕ → ℕ → MockWorker → Type 0
IsNth panics i w = (w.id ≡ 10000 + i) × (w.should_panic ≡ contains panics i)

abbrev pub AllNth : List ℕ → ℕ → List MockWorker → Type 0
AllNth panics i [] = Unit
AllNth panics i (w ∷ ws) = IsNth panics i w × AllNth panics (suc i) ws

pub AllNth-get :
    (panics : List ℕ) (k i : ℕ) (ws : List MockWorker) (w : MockWorker)
    → AllNth panics k ws
    → get_elem? ws i ≡ some w
    → IsNth panics (k + i) w
AllNth-get panics k i [] w all at = cc
AllNth-get panics k zero (v ∷ ws) w all at =
    subst (IsNth panics (k + 0)) (some-injective _ _ at)
      (subst (λ n. IsNth panics n v) (omega arith) all.0)
AllNth-get panics k (suc i) (v ∷ ws) w all at =
    subst (λ n. IsNth panics n w) (omega arith) (AllNth-get panics (suc k) i ws w all.1 at)

pub AllNth-append :
    (panics : List ℕ) (k : ℕ) (ws : List MockWorker) (w : MockWorker)
    → AllNth panics k ws
    → IsNth panics (k + length ws) w
    → AllNth panics k (ws ++ w ∷ [])
AllNth-append panics k [] w all is = (subst (λ n. IsNth panics n w) (omega arith) is, tt)
AllNth-append panics k (v ∷ ws) w all is = (
  all.0,
  AllNth-append panics (suc k) ws w all.1 (subst (λ n. IsNth panics n w) (omega arith) is),
)

pub AllNth-terminate :
    (panics : List ℕ) (k i : ℕ) (ws : List MockWorker) (w : MockWorker)
    → AllNth panics k ws
    → get_elem? ws i ≡ some w
    → AllNth panics k (set ws i (terminate w))
unfolding terminate
AllNth-terminate panics k i [] w all at = cc
AllNth-terminate panics k zero (v ∷ ws) w all at =
    (subst (IsNth panics k) (some-injective _ _ at) all.0, all.1)
AllNth-terminate panics k (suc i) (v ∷ ws) w all at =
    (all.0, AllNth-terminate panics (suc k) i ws w all.1 at)
