-- ===== src/Pool/Router/History.antt =====
-- The round robin of `pool_main` over the whole life of a pool.
use native.Mathlib.Numerals.{add-one}
use native.Mathlib.Nat.{mod-lt, mod-add-mod}
use folk_core.Base.{
  ℕ, zero, suc, ◌+◌, ◌%◌, ◌≤◌, ◌<◌, ◌≡◌, ◌⊎◌, inl, inr, refl, ap, ◌∙◌, Bool, true, false, Option,
  none, some, List, [], ◌∷◌, get_or, length, replicate, length-replicate, set, arith, Option-cases,
}
use folk_core.Pool.Router.{
  Router, usize_mod, init, route, route_all, attempts, try_slot, wrapping_add, chosen_slot,
}
use folk_core.Pool.Router.Choice.{is_gone, route-keeps, route-delivers, route_sound}

-- A slot is marked dead only if its inbox is closed.
abbrev pub MarksClosed : List Bool → List Bool → Type 0
MarksClosed opened dead = (c : ℕ) → get_or opened c false ≡ true → get_or dead c false ≡ false

-- What has closed stays closed.
abbrev pub Closing : List Bool → List (List Bool) → Type 0
Closing before [] = Unit
Closing before (opened ∷ later) =
    ((c : ℕ) → get_or opened c false ≡ true → get_or before c false ≡ true) × Closing opened later

-- Each request goes into an inbox that is open, or is dropped because all of them have closed.
abbrev pub AllDelivered : ℕ → List (List Bool) → List (Option ℕ) → Type 0
AllDelivered n (opened ∷ later) (slot ∷ slots) =
    (((d : ℕ) × (slot ≡ some d) × (d < n) × (get_or opened d false ≡ true))
      ⊎ ((slot ≡ none) × ((c : ℕ) → c < n → get_or opened c false ≡ false)))
    × AllDelivered n later slots
AllDelivered n [] [] = Unit
AllDelivered n _ _ = ⊥

attempts-next :
    (left n attempt : ℕ) (opened : List Bool) (r : Router)
    → n + n ≤ usize_mod
    → r.next ≤ n
    → left ≤ n
    → (attempts left n attempt opened r).0.next ≤ n
unfolding attempts try_slot
attempts-next zero n attempt opened r small le fits = le
attempts-next (suc left) n attempt opened r small le fits =
    let c = chosen_slot n r.next attempt in
    let c-lt : c < n = mod-lt (wrapping_add r.next attempt) {m = n} (omega arith) in
    ground (
      arith,
      c-lt,
      attempts-next left n (suc attempt) opened r,
      attempts-next left n (suc attempt) opened (record r { dead = set r.dead c true }),
    )

-- The index of the next slot to try stays within the number of slots.
pub route-next_le :
    (n : ℕ) (opened : List Bool) (r : Router)
    → n + n ≤ usize_mod
    → length r.dead ≡ n
    → r.next ≤ n
    → (route opened r).0.next ≤ n
route-next_le n opened r small sized le =
    unfold route in rw sized (attempts-next n n 0 opened r small le (omega arith))

-- The locals of the loop between two requests.
record Inv (n : ℕ) (opened : List Bool) (r : Router) : Type 0 where
  sized : length r.dead ≡ n
  next_le : r.next ≤ n
  marks : MarksClosed opened r.dead

route-Inv :
    (n : ℕ) (opened : List Bool) (r : Router)
    → n + n ≤ usize_mod
    → Inv n opened r
    → Inv n opened (route opened r).0
route-Inv n opened r small v = record {
  sized = (route-keeps opened r 0).1 ∙ v.sized;
  next_le = next_le;
  marks = λ c o. marked c o (v.marks c o) (route-keeps opened r c).0;
}
  where
    next_le : (route opened r).0.next ≤ n
    next_le =
        unfold route in rw v.sized (attempts-next n n 0 opened r small v.next_le (omega arith))

    marked :
        (c : ℕ)
        → get_or opened c false ≡ true
        → get_or r.dead c false ≡ false
        → is_gone opened (route opened r).0.dead c ≡ is_gone opened r.dead c
        → get_or (route opened r).0.dead c false ≡ false
    marked c o m same = ground arith

route_all-AllDelivered :
    (n : ℕ) (before : List Bool) (history : List (List Bool)) (r : Router)
    → n + n ≤ usize_mod
    → Closing before history
    → Inv n before r
    → AllDelivered n history (route_all history r)
unfolding route_all
route_all-AllDelivered n before [] r small closing v = tt
route_all-AllDelivered n before (opened ∷ later) r small closing v = (
  fate,
  route_all-AllDelivered n opened later (route opened r).0 small closing.1
      (route-Inv n opened r small now),
)
  where
    now : Inv n opened r
    now = record { sized = v.sized; next_le = v.next_le; marks = λ c o. v.marks c (closing.0 c o) }

    delivered :
        (c : ℕ)
        → c < n
        → get_or opened c false ≡ true
        → (d : ℕ) × ((route opened r).1 ≡ some d) × (d < n) × (get_or opened d false ≡ true)
    delivered c lt o =
        let e = v.sized in
        let m = now.marks c o in
        let (d, taken, live, below) =
          route-delivers opened r c (omega arith) (omega arith) (omega arith) (ground arith) in
        (d, taken, omega arith, ground arith)

    shut :
        (route opened r).1 ≡ none
        → (c : ℕ) → c < n
        → (b : Bool) → get_or opened c false ≡ b
        → b ≡ false
    shut dropped c lt false o = refl
    shut dropped c lt true o = let (d, taken, below, live) = delivered c lt o in cc

    fate :
        ((d : ℕ) × ((route opened r).1 ≡ some d) × (d < n) × (get_or opened d false ≡ true))
        ⊎ (((route opened r).1 ≡ none) × ((c : ℕ) → c < n → get_or opened c false ≡ false))
    fate = elim (Option-cases (route opened r).1) [
      | inl dropped ↦ inr (dropped, λ c lt. shut dropped c lt _ refl)
      | inr (d, taken) ↦
          let (live, below) = route_sound opened r d (omega (arith, v.sized, v.next_le)) taken in
          inl (d, taken, omega (arith, v.sized), ground (arith, live))
    ]

get_or-replicate : (n c : ℕ) → get_or (replicate n false) c false ≡ false
get_or-replicate zero c = refl
get_or-replicate (suc n) zero = refl
get_or-replicate (suc n) (suc c) = get_or-replicate n c

init-Inv : (n : ℕ) (opened : List Bool) → Inv n opened (init n)
unfolding init
init-Inv n opened = record {
  sized = length-replicate n false;
  next_le = omega arith;
  marks = λ c o. get_or-replicate n c;
}

-- In a pool of `n` slots, each request has one outcome: it goes into an inbox that is open, or it is
-- dropped, and then every inbox has closed; whichever inboxes close over time and in what order.
pub pool-delivers :
    (n : ℕ) (before : List Bool) (history : List (List Bool))
    → n + n ≤ usize_mod
    → Closing before history
    → AllDelivered n history (route_all history (init n))
pool-delivers n before history small closing =
    route_all-AllDelivered n before history (init n) small closing (init-Inv n before)

-- The `k` slots in turn, from `m` on.
abbrev pub turns : ℕ → ℕ → ℕ → List (Option ℕ)
turns n zero m = []
turns n (suc k) m = some (m % n) ∷ turns n k (suc m)

route-all_open :
    (n : ℕ) (opened : List Bool) (r : Router)
    → n + n ≤ usize_mod
    → 0 < n
    → Inv n opened r
    → get_or opened (r.next % n) false ≡ true
    → ((route opened r).1 ≡ some (r.next % n)) × ((route opened r).0.next ≡ r.next % n + 1)
unfolding route attempts try_slot
route-all_open zero opened r small pos v o = elim pos [ ]
route-all_open (suc n) opened r small pos v o =
    let below : r.next % suc n < suc n = mod-lt r.next (omega arith) in
    let marked = v.marks (r.next % suc n) o in
    let chosen : chosen_slot (suc n) r.next 0 ≡ r.next % suc n =
      ap (λ (k : ℕ). k % suc n) (omega (arith, v.next_le)) in
    rw (v.sized, attempts) (rw chosen (ground (arith, marked)))

route_all-turns :
    (n k m : ℕ) (opened : List Bool) (r : Router)
    → n + n ≤ usize_mod
    → 0 < n
    → ((c : ℕ) → c < n → get_or opened c false ≡ true)
    → r.next % n ≡ m % n
    → Inv n opened r
    → route_all (replicate k opened) r ≡ turns n k m
unfolding route_all
route_all-turns n zero m opened r small pos opens e v = refl
route_all-turns n (suc k) m opened r small pos opens e v =
    let (slot, next) =
      route-all_open n opened r small pos v (opens (r.next % n) (mod-lt r.next pos)) in
    let same : (route opened r).0.next % n ≡ suc m % n =
      ap (λ (x : ℕ). x % n) (next ∙ ap (λ (x : ℕ). x + 1) e)
      ∙ mod-add-mod m n 1
      ∙ ap (λ (x : ℕ). x % n) (add-one m) in
    rw (slot, e)
      (ap (λ l. some (m % n) ∷ l)
        (route_all-turns n k (suc m) opened (route opened r).0 small pos opens same
          (route-Inv n opened r small v)))

-- While every inbox stays open, the requests go to the slots in turn: the one with number `j` goes
-- to slot `j % n`.
pub pool-turns :
    (n k : ℕ) (opened : List Bool)
    → n + n ≤ usize_mod
    → 0 < n
    → ((c : ℕ) → c < n → get_or opened c false ≡ true)
    → route_all (replicate k opened) (init n) ≡ turns n k 0
pool-turns n k opened small pos opens =
    route_all-turns n k 0 opened (init n) small pos opens (unfold init in refl) (init-Inv n opened)
