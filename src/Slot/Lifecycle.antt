-- ===== src/Slot/Lifecycle.antt =====
-- The life of a slot of worker_slot.rs, whatever is done to it.
use folk_core.Base.{
  ℕ, ◌+◌, ◌≡◌, Option, none, some, List, [], ◌∷◌, count_if, Bool, true, false, ◌||◌,
}
use folk_core.Slot.{
  SlotState, SlotInfo, Profile, debug, mark_ready, mark_busy, mark_idle, mark_dead, request_stop,
}

pub data Operation : Type 0 where
  ready : ℕ → Operation
  busy idle dead stop : Operation

-- What an operation makes of a slot; `none` is a panic.
abbrev pub operate : Profile → Operation → SlotInfo → Option SlotInfo
operate p (ready pid) s = mark_ready p pid s
operate p busy s = mark_busy p s
operate p idle s = mark_idle p s
operate p dead s = some (mark_dead s)
operate p stop s = some (request_stop s)

unfoldable pub operate_all : Profile → List Operation → SlotInfo → Option SlotInfo
operate_all p [] s = some s
operate_all p (o ∷ os) s = elim (operate p o s) [ none ↦ none | some s' ↦ operate_all p os s' ]

abbrev pub is_idle_call : Operation → Bool
is_idle_call idle = true
is_idle_call _ = false

-- A slot that is on its way out: it has been asked to stop, or is dead.
abbrev pub is_leaving : SlotState → Bool
is_leaving SlotState.stopping = true
is_leaving SlotState.dead = true
is_leaving _ = false

-- Whether a slot in this state is on its way out once the operation is done: `mark_dead` ends it, and
-- `request_stop` a slot that is idle or busy.
abbrev pub leaves : Operation → SlotState → Bool
leaves dead state = true
leaves stop SlotState.idle = true
leaves stop SlotState.busy = true
leaves _ state = is_leaving state

-- Whether an operation, or an earlier one, has put the slot on its way out.
unfoldable pub has_left : List Operation → SlotInfo → Bool
has_left [] s = is_leaving s.state
has_left (o ∷ os) s =
    let later : Bool = elim (operate debug o s) [ none ↦ false | some s' ↦ has_left os s' ] in
    leaves o s.state || later

-- The slot after an operation.
abbrev Kept : SlotInfo → List Operation → Option SlotInfo → Type 0
Kept s os none = Unit
Kept s os (some t) =
    (t.created_at ≡ s.created_at)
    × (t.jobs_handled ≡ count_if is_idle_call os + s.jobs_handled)
    × (is_leaving t.state ≡ has_left os s)

-- One operation.
abbrev Steps : SlotInfo → Operation → Option SlotInfo → Type 0
Steps s o none = Unit
Steps s o (some t) =
    (t.created_at ≡ s.created_at)
    × (t.jobs_handled ≡ count_if is_idle_call (o ∷ []) + s.jobs_handled)
    × (is_leaving t.state ≡ leaves o s.state)
