-- ===== src/Pool/Router.antt =====
-- The dispatch loop of `pool_main` in crates/folk-core/src/worker_pool.rs: round robin over the
-- slots' inboxes. Which inboxes are open is an argument; an inbox that has closed stays closed.
pub mod Choice
pub mod History
use folk_core.Base.{
  ℕ, zero, suc, ◌+◌, ◌%◌, ◌^◌, Bool, true, false, Option, none, some, List, [], ◌∷◌, get_or, set,
  length, replicate,
}

-- The locals of the loop: `next` and `dead`.
pub record Router : Type 0 where
  pub next : ℕ
  pub dead : List Bool

abbrev pub usize_mod : ℕ
usize_mod = 2 ^ 64

-- `usize::wrapping_add`
abbrev pub wrapping_add : ℕ → ℕ → ℕ
wrapping_add a b = (a + b) % usize_mod

abbrev pub chosen_slot : ℕ → ℕ → ℕ → ℕ
chosen_slot n next attempt = wrapping_add next attempt % n

-- One attempt, with the attempts that follow it. A send fails on a closed inbox, and gives the
-- request back. The answer is the slot that took the request.
unfoldable pub try_slot : (Router → Router × Option ℕ) → List Bool → Router → ℕ → Router × Option ℕ
try_slot later opened r chosen = elim (get_or r.dead chosen false) [
  | true ↦ later r
  | false ↦ elim (get_or opened chosen false) [
    | true ↦ (record r { next = wrapping_add chosen 1 }, some chosen)
    | false ↦ later (record r { dead = set r.dead chosen true })
  ]
]

-- `for attempt in 0..n`, with the attempts that are left.
unfoldable pub attempts : ℕ → ℕ → ℕ → List Bool → Router → Router × Option ℕ
attempts zero n attempt opened r = (r, none)
attempts (suc left) n attempt opened r =
    try_slot (attempts left n (suc attempt) opened) opened r (chosen_slot n r.next attempt)

-- One request.
unfoldable pub route : List Bool → Router → Router × Option ℕ
route opened r = attempts (length r.dead) (length r.dead) 0 opened r

-- `next = 0`, `dead = vec![false; n]`
unfoldable pub init : ℕ → Router
init n = record { next = 0; dead = replicate n false }

-- The requests in the order of arrival, each with the inboxes that are open then.
unfoldable pub route_all : List (List Bool) → Router → List (Option ℕ)
route_all [] r = []
route_all (opened ∷ later) r = let (r', slot) = route opened r in slot ∷ route_all later r'
