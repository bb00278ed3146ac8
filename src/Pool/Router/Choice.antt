-- ===== src/Pool/Router/Choice.antt =====
-- Which slot the round robin of `pool_main` picks for one request.
use folk_core.Base.{
  ℕ, zero, suc, ◌+◌, ◌-◌, ◌%◌, ◌≤◌, ◌<◌, ◌≡◌, ◌⊎◌, inl, inr, refl, ap, sym, ◌∙◌, Option-cases, Bool,
  true, false, not, ◌||◌, Option, none, some, List, [], ◌∷◌, get_or, set, length, length-set, arith,
  if◌then◌else◌, Bool-cases,
}
use native.Mathlib.Nat.{mod-lt, mod-eq_of_lt, add-mod_right}
use native.Mathlib.Decide.{dec_le}
use mathlib.Core.Path.{fun_ext}
use mathlib.Core.Bool.{false≢true}
use folk_core.Pool.Router.{Router, usize_mod, chosen_slot, try_slot, attempts, route}

-- A slot that takes no request: marked dead, or with a closed inbox.
abbrev pub is_gone : List Bool → List Bool → ℕ → Bool
is_gone opened dead c = get_or dead c false || not (get_or opened c false)

get_or-set_self_or :
    (xs : List Bool) (i j : ℕ) (v d : Bool)
    → (get_or (set xs i v) j d ≡ get_or xs j d) ⊎ ((i ≡ j) × (get_or (set xs i v) j d ≡ v))
get_or-set_self_or [] i j v d = inl refl
get_or-set_self_or (x ∷ xs) zero zero v d = inr (refl, refl)
get_or-set_self_or (x ∷ xs) zero (suc j) v d = inl refl
get_or-set_self_or (x ∷ xs) (suc i) zero v d = inl refl
get_or-set_self_or (x ∷ xs) (suc i) (suc j) v d = ground (arith, get_or-set_self_or xs i j v d)

-- Marking a slot with a closed inbox changes nothing of which slots are gone.
is_gone-set :
    (opened dead : List Bool) (c j : ℕ)
    → get_or opened c false ≡ false
    → is_gone opened (set dead c true) j ≡ is_gone opened dead j
is_gone-set opened dead c j e = ground (arith, get_or-set_self_or dead c j true false)

-- The first slot that is not gone, in the cyclic order from `next`.
pub first_live : ℕ → ℕ → ℕ → ℕ → (ℕ → Bool) → Option ℕ
first_live zero n next attempt gone = none
first_live (suc left) n next attempt gone =
    let later = first_live left n next (suc attempt) gone in
    if gone ((next + attempt) % n) then later else some ((next + attempt) % n)

first_live-gone :
    (left n next attempt : ℕ) (f g : ℕ → Bool)
    → ((j : ℕ) → f j ≡ g j)
    → first_live left n next attempt f ≡ first_live left n next attempt g
first_live-gone left n next attempt f g h = ap (first_live left n next attempt) (fun_ext h)

module _ (n : ℕ) (opened : List Bool) where
  try_slot-first_live :
      (left attempt c : ℕ) (r : Router) (later : Router → Router × Option ℕ)
      → (r.next + attempt) % n ≡ c
      → ((d : List Bool)
          → (later (record r { dead = d })).1
            ≡ first_live left n r.next (suc attempt) (is_gone opened d))
      → (try_slot later opened r c).1
        ≡ first_live (suc left) n r.next attempt (is_gone opened r.dead)
  unfolding try_slot first_live
  try_slot-first_live left attempt c r later e ih = elim (Bool-cases (get_or opened c false)) [
    | inl open_slot ↦ rw e (ground (arith, ih r.dead))
    | inr shut ↦
        let same =
          first_live-gone left n r.next (suc attempt) _ _
            (λ j. is_gone-set opened r.dead c j shut) in
        rw e (ground (arith, ih r.dead, ih (set r.dead c true) ∙ same))
  ]

  -- The loop finds the first slot that is not gone.
  attempts-first_live :
      (left attempt : ℕ) (r : Router)
      → r.next + attempt + left ≤ usize_mod
      → (attempts left n attempt opened r).1
        ≡ first_live left n r.next attempt (is_gone opened r.dead)
  unfolding attempts first_live
  attempts-first_live zero attempt r room = refl
  attempts-first_live (suc left) attempt r room =
      try_slot-first_live left attempt (chosen_slot n r.next attempt) r _
        (ap (λ (k : ℕ). k % n) (omega arith))
        (λ d. attempts-first_live left (suc attempt) (record r { dead = d }) (omega arith))

  -- The loop keeps which slots are gone, and the number of slots.
  attempts-keeps :
      (left attempt j : ℕ) (r : Router)
      → (is_gone opened (attempts left n attempt opened r).0.dead j ≡ is_gone opened r.dead j)
        × (length (attempts left n attempt opened r).0.dead ≡ length r.dead)
  unfolding attempts try_slot
  attempts-keeps zero attempt j r = (refl, refl)
  attempts-keeps (suc left) attempt j r =
      let c = chosen_slot n r.next attempt in
      let marked = record r { dead = set r.dead c true } in
      ground (
        arith,
        attempts-keeps left (suc attempt) j r,
        attempts-keeps left (suc attempt) j marked,
        is_gone-set opened r.dead c j,
        length-set r.dead c true,
      )

first_live-none :
    (left n next attempt k : ℕ) (gone : ℕ → Bool)
    → first_live left n next attempt gone ≡ none
    → k < left
    → gone ((next + (attempt + k)) % n) ≡ true
unfolding first_live
first_live-none zero n next attempt k gone e lt = absurd (omega arith)
first_live-none (suc left) n next attempt zero gone e lt = ground arith
first_live-none (suc left) n next attempt (suc k) gone e lt =
    let later = first_live-none left n next (suc attempt) k gone in
    let same : suc attempt + k ≡ attempt + suc k = omega arith in
    rw (← same) (ground (arith, later))

first_live-some :
    (left n next attempt c : ℕ) (gone : ℕ → Bool)
    → first_live left n next attempt gone ≡ some c
    → 0 < n
    → (gone c ≡ false) × (c < n)
unfolding first_live
first_live-some zero n next attempt c gone e pos = cc
first_live-some (suc left) n next attempt c gone e pos =
    ground (arith, first_live-some left n next (suc attempt) c gone, mod-lt (next + attempt) pos)

-- From any `next` up to `n`, the attempts reach every slot.
reach : (n next c : ℕ) → c < n → next ≤ n → (k : ℕ) × (k < n) × ((next + (0 + k)) % n ≡ c)
reach n next c lt le = elim (dec_le next c) [
  | yes before ↦ (c - next, omega arith, ap (λ (k : ℕ). k % n) (omega arith) ∙ mod-eq_of_lt lt)
  | no after ↦ (
    c + n - next,
    omega arith,
    ap (λ (k : ℕ). k % n) (omega arith) ∙ add-mod_right c n ∙ mod-eq_of_lt lt,
  )
]

-- The request goes to the first slot in the cyclic order from `next` that is neither marked dead
-- nor closed, and to none if there is no such slot.
pub route-first_live :
    (opened : List Bool) (r : Router)
    → r.next + length r.dead ≤ usize_mod
    → (route opened r).1
      ≡ first_live (length r.dead) (length r.dead) r.next 0 (is_gone opened r.dead)
unfolding route
route-first_live opened r room =
    attempts-first_live (length r.dead) opened (length r.dead) 0 r (omega arith)

-- The slots are as gone after the request as before it: a slot is marked dead only if it is closed.
pub route-keeps :
    (opened : List Bool) (r : Router) (j : ℕ)
    → (is_gone opened (route opened r).0.dead j ≡ is_gone opened r.dead j)
      × (length (route opened r).0.dead ≡ length r.dead)
unfolding route
route-keeps opened r j = attempts-keeps (length r.dead) opened (length r.dead) 0 j r

-- If some slot is not gone, the request is delivered to one that is not.
pub route-delivers :
    (opened : List Bool) (r : Router) (c : ℕ)
    → r.next ≤ length r.dead
    → r.next + length r.dead ≤ usize_mod
    → c < length r.dead
    → is_gone opened r.dead c ≡ false
    → (d : ℕ) × ((route opened r).1 ≡ some d)
      × (is_gone opened r.dead d ≡ false)
      × (d < length r.dead)
route-delivers opened r c le room lt live = elim (Option-cases (route opened r).1) [
  | inl e ↦
      let (k, below, hit) = reach (length r.dead) r.next c lt le in
      let missed =
        first_live-none (length r.dead) (length r.dead) r.next 0 k (is_gone opened r.dead)
          (sym found ∙ e) below in
      absurd (false≢true (sym live ∙ ap (is_gone opened r.dead) (sym hit) ∙ missed))
  | inr (d, e) ↦
      let (fit, small) =
        first_live-some (length r.dead) (length r.dead) r.next 0 d (is_gone opened r.dead)
          (sym found ∙ e) (omega arith) in
      (d, e, fit, small)
]
  where
    found :
        (route opened r).1
        ≡ first_live (length r.dead) (length r.dead) r.next 0 (is_gone opened r.dead)
    found = route-first_live opened r room

route-none : (opened : List Bool) (r : Router) → length r.dead ≡ 0 → (route opened r).1 ≡ none
unfolding route attempts
route-none opened r e = rw (e, attempts)

-- The slot that takes the request is one of the slots, and is not gone.
pub route_sound :
    (opened : List Bool) (r : Router) (d : ℕ)
    → r.next + length r.dead ≤ usize_mod
    → (route opened r).1 ≡ some d
    → (is_gone opened r.dead d ≡ false) × (d < length r.dead)
route_sound opened r d room taken =
    first_live-some (length r.dead) (length r.dead) r.next 0 d (is_gone opened r.dead)
      (sym (route-first_live opened r room) ∙ taken) has_slots
  where
    has_slots : 0 < length r.dead
    has_slots = ground (arith, route-none opened r)
