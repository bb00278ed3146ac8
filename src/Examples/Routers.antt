-- ===== src/Examples/Routers.antt =====
-- Examples for the round robin of crates/folk-core/src/worker_pool.rs.
use folk_core.Base.{
  ℕ, zero, suc, ◌<◌, ◌≡◌, refl, Bool, true, false, none, some, List, [], ◌∷◌, arith, get_or,
  replicate,
}
use folk_core.Pool.Router.{Router, route, route_all, init, attempts, try_slot}
use folk_core.Pool.Router.Choice.{is_gone, first_live, route-first_live}
use folk_core.Pool.Router.History.{Closing, AllDelivered, pool-delivers, pool-turns, turns}

-- Three slots, of which slot 0 closes after the first request and the last two by the end.
abbrev closing_history : List (List Bool)
closing_history =
    (true ∷ true ∷ true ∷ [])
    ∷ (false ∷ true ∷ true ∷ [])
    ∷ (false ∷ true ∷ true ∷ [])
    ∷ (false ∷ true ∷ false ∷ [])
    ∷ (false ∷ false ∷ false ∷ [])
    ∷ []

-- Slot 0 is marked dead, slot 1 has closed.
abbrev one_dead : Router
one_dead = record { next = 0; dead = true ∷ false ∷ false ∷ [] }

abbrev one_left : List Bool
one_left = true ∷ false ∷ true ∷ []

closing_slots : route_all closing_history (init 3) ≡ some 0 ∷ some 1 ∷ some 2 ∷ some 1 ∷ none ∷ []
unfolding route_all route attempts try_slot init
closing_slots = refl

route-first_live_example :
    (route one_left one_dead).1 ≡ first_live 3 3 0 0 (is_gone one_left one_dead.dead)
route-first_live_example = route-first_live one_left one_dead (omega arith)

stays_open :
    (c : ℕ)
    → get_or (true ∷ true ∷ true ∷ []) c false ≡ true
    → get_or (true ∷ true ∷ true ∷ []) c false ≡ true
stays_open c o = o

closes_0 :
    (c : ℕ)
    → get_or (false ∷ true ∷ true ∷ []) c false ≡ true
    → get_or (true ∷ true ∷ true ∷ []) c false ≡ true
closes_0 zero o = refl
closes_0 (suc c) o = o

closes_2 :
    (c : ℕ)
    → get_or (false ∷ true ∷ false ∷ []) c false ≡ true
    → get_or (false ∷ true ∷ true ∷ []) c false ≡ true
closes_2 zero o = o
closes_2 (suc zero) o = refl
closes_2 (suc (suc zero)) o = refl
closes_2 (suc (suc (suc c))) o = o

closes_1 :
    (c : ℕ)
    → get_or (false ∷ false ∷ false ∷ []) c false ≡ true
    → get_or (false ∷ true ∷ false ∷ []) c false ≡ true
closes_1 zero o = o
closes_1 (suc zero) o = refl
closes_1 (suc (suc zero)) o = o
closes_1 (suc (suc (suc c))) o = o

stays_closed :
    (c : ℕ)
    → get_or (false ∷ true ∷ true ∷ []) c false ≡ true
    → get_or (false ∷ true ∷ true ∷ []) c false ≡ true
stays_closed c o = o

history_closes : Closing (true ∷ true ∷ true ∷ []) closing_history
history_closes = (stays_open, (closes_0, (stays_closed, (closes_2, (closes_1, tt)))))

all_open : (c : ℕ) → c < 2 → get_or (true ∷ true ∷ []) c false ≡ true
all_open zero lt = refl
all_open (suc zero) lt = refl
all_open (suc (suc c)) lt = absurd (omega arith)

pool-delivers_example : AllDelivered 3 closing_history (route_all closing_history (init 3))
pool-delivers_example =
    pool-delivers 3 (true ∷ true ∷ true ∷ []) closing_history (omega arith) history_closes

pool-turns_example : route_all (replicate 5 (true ∷ true ∷ [])) (init 2) ≡ turns 2 5 0
pool-turns_example = pool-turns 2 5 (true ∷ true ∷ []) (omega arith) (omega arith) all_open
