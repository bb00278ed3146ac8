-- ===== src/Pool/Flow/Order.antt =====
-- In which order the requests of a pool of worker_pool.rs reach the workers.
use folk_core.Base.{
  ℕ, ◌≡◌, ◌≢◌, refl, sym, ap, subst, ◌∙◌, true, false, Option, none, some, List, [], ◌∷◌, ◌++◌, map,
  get_elem?, set, get_elem?-set, get_elem?-set_other, arith, Bool-cases, inl, inr, is_some,
  append-nil, append_assoc, filter_map, filter_map-append, ◌==◌, ==_iff, ==_self, if◌then◌else◌,
}
use mathlib.Core.Bool.{false≢true}
use mathlib.Core.Option.{some-injective}
use folk_core.Pool.Router.{route}
use folk_core.Pool.Flow.{PoolSlot, PoolState, Action, send, receive, deliver, act, settle}

-- What the tasks do to the requests in the channels: a caller puts one into the request channel, the
-- loop of `pool_main` takes one out and gives it to a slot, or to none, and a supervisor takes one.
pub data Entry : Type 0 where
  entered : ℕ → Entry
  dealt : Option ℕ → ℕ → Entry
  taken : ℕ → ℕ → Entry

-- The entry of an action that takes effect.
abbrev pub entry_of : Action → PoolState → List Entry
entry_of (send i) s = elim (get_elem? s.holding i) [ none ↦ [] | some q ↦ entered q ∷ [] ]
entry_of deliver s = elim s.queue [
  | [] ↦ []
  | q ∷ rest ↦ dealt (route (map (λ p. p.is_open) s.slots) s.router).1 q ∷ []
]
entry_of (receive i) s = elim (get_elem? s.slots i) [
  | none ↦ []
  | some slot ↦ elim slot.inbox [ [] ↦ [] | q ∷ rest ↦ taken i q ∷ [] ]
]
entry_of _ s = []

abbrev pub entry : Action → PoolState → List Entry
entry a s = if is_some (act a s) then entry_of a s else []

-- The entries of a schedule.
unfoldable pub recorded : List Action → PoolState → List Entry
recorded [] s = []
recorded (a ∷ actions) s = entry a s ++ recorded actions (settle s (act a s))

abbrev pub on_entered : Entry → Option ℕ
on_entered (entered q) = some q
on_entered _ = none

abbrev pub on_dealt : Entry → Option ℕ
on_dealt (dealt d q) = some q
on_dealt _ = none

abbrev pub on_dealt_to : ℕ → Entry → Option ℕ
on_dealt_to i (dealt (some d) q) = if d == i then some q else none
on_dealt_to i _ = none

abbrev pub on_taken_by : ℕ → Entry → Option ℕ
on_taken_by i (taken d q) = if d == i then some q else none
on_taken_by i _ = none

-- The requests that have entered the channel, those dealt, those dealt to a slot, and those that its
-- supervisor has taken.
abbrev pub all_entered : List Entry → List ℕ
all_entered = filter_map on_entered

abbrev pub all_dealt : List Entry → List ℕ
all_dealt = filter_map on_dealt

abbrev pub dealt_to : ℕ → List Entry → List ℕ
dealt_to i = filter_map (on_dealt_to i)

abbrev pub taken_by : ℕ → List Entry → List ℕ
taken_by i = filter_map (on_taken_by i)

-- A slot has been dealt what its supervisor has taken, then what is in its inbox, then what was lost
-- when it closed.
abbrev pub Fits : ℕ → List Entry → PoolSlot → Type 0
Fits i h slot =
    (lost : List ℕ) × (dealt_to i h ≡ taken_by i h ++ (slot.inbox ++ lost))
    × ((slot.is_open ≡ true) → lost ≡ [])

pub record Ordered (h : List Entry) (s : PoolState) : Type 0 where
  pub in_queue : all_entered h ≡ all_dealt h ++ s.queue
  pub in_slots : (i : ℕ) (slot : PoolSlot) → get_elem? s.slots i ≡ some slot → Fits i h slot

pub filter_map_quiet :
    (f : Entry → Option ℕ) (h e : List Entry)
    → filter_map f e ≡ []
    → filter_map f (h ++ e) ≡ filter_map f h
filter_map_quiet f h e nothing =
    filter_map-append f h e ∙ ap (λ xs. filter_map f h ++ xs) nothing ∙ append-nil (filter_map f h)

-- Entries that do not speak of a slot.
pub Fits-quiet :
    (i : ℕ) (h e : List Entry) (slot : PoolSlot)
    → dealt_to i e ≡ []
    → taken_by i e ≡ []
    → Fits i h slot
    → Fits i (h ++ e) slot
Fits-quiet i h e slot none_dealt none_taken (lost, same, live) = (
  lost,
  filter_map_quiet (on_dealt_to i) h e none_dealt
      ∙ same
      ∙ ap (λ xs. xs ++ (slot.inbox ++ lost))
          (sym (filter_map_quiet (on_taken_by i) h e none_taken)),
  live,
)

dealt_to_self : (i q : ℕ) → dealt_to i (dealt (some i) q ∷ []) ≡ q ∷ []
dealt_to_self i q = ground (arith, ==_self i)

taken_by_self : (i q : ℕ) → taken_by i (taken i q ∷ []) ≡ q ∷ []
taken_by_self i q = ground (arith, ==_self i)

pub dealt_to_other : (i d q : ℕ) → d ≢ i → dealt_to i (dealt (some d) q ∷ []) ≡ []
dealt_to_other i d q different = ground (arith, different)

pub taken_by_other : (i d q : ℕ) → d ≢ i → taken_by i (taken d q ∷ []) ≡ []
taken_by_other i d q different = ground (arith, different)

regroup : (t x : List ℕ) (q : ℕ) → (t ++ (x ++ [])) ++ (q ∷ []) ≡ t ++ ((x ++ (q ∷ [])) ++ [])
regroup t x q =
    ap (λ y. (t ++ y) ++ (q ∷ [])) (append-nil x)
    ∙ append_assoc t x (q ∷ [])
    ∙ ap (λ y. t ++ y) (sym (append-nil (x ++ (q ∷ []))))

-- A request that a slot has been dealt stands at the end of its inbox.
pub Fits-dealt :
    (i q : ℕ) (h : List Entry) (slot : PoolSlot)
    → slot.is_open ≡ true
    → Fits i h slot
    → Fits i (h ++ (dealt (some i) q ∷ [])) (record slot { inbox = slot.inbox ++ q ∷ [] })
Fits-dealt i q h slot alive (lost, same, live) = (
  [],
  filter_map-append (on_dealt_to i) h (dealt (some i) q ∷ [])
      ∙ ap (λ xs. dealt_to i h ++ xs) (dealt_to_self i q)
      ∙ ap (λ xs. xs ++ (q ∷ [])) (same ∙ ap (λ l. taken_by i h ++ (slot.inbox ++ l)) (live alive))
      ∙ regroup (taken_by i h) slot.inbox q
      ∙ ap (λ xs. xs ++ ((slot.inbox ++ (q ∷ [])) ++ []))
          (sym (filter_map_quiet (on_taken_by i) h (dealt (some i) q ∷ []) refl)),
  λ o. refl,
)

-- A request that the supervisor takes stood at the front.
pub Fits-taken :
    (i q : ℕ) (rest : List ℕ) (h : List Entry) (slot : PoolSlot)
    → slot.inbox ≡ q ∷ rest
    → Fits i h slot
    → Fits i (h ++ (taken i q ∷ [])) (record slot { inbox = rest; running = some q })
Fits-taken i q rest h slot front (lost, same, live) = (
  lost,
  filter_map_quiet (on_dealt_to i) h (taken i q ∷ []) refl
      ∙ same
      ∙ ap (λ xs. taken_by i h ++ (xs ++ lost)) front
      ∙ sym (append_assoc (taken_by i h) (q ∷ []) (rest ++ lost))
      ∙ ap (λ xs. xs ++ (rest ++ lost))
          (sym (
            filter_map-append (on_taken_by i) h (taken i q ∷ [])
            ∙ ap (λ xs. taken_by i h ++ xs) (taken_by_self i q))),
  live,
)

-- What was in the inbox of a slot that closes is lost.
pub Fits-closed :
    (i : ℕ) (h : List Entry) (slot : PoolSlot)
    → Fits i h slot
    → Fits i h (record slot { inbox = []; is_open = false; running = none })
Fits-closed i h slot (lost, same, live) = (slot.inbox ++ lost, same, λ o. absurd (false≢true o))

-- Slots of which one changes.
pub slots-after :
    (h e : List Entry) (ss : List PoolSlot) (d : ℕ) (old new : PoolSlot)
    → get_elem? ss d ≡ some old
    → ((i : ℕ) (slot : PoolSlot) → get_elem? ss i ≡ some slot → Fits i h slot)
    → Fits d (h ++ e) new
    → ((i : ℕ) → d ≢ i → (dealt_to i e ≡ []) × (taken_by i e ≡ []))
    → (i : ℕ) (slot : PoolSlot) → get_elem? (set ss d new) i ≡ some slot
    → Fits i (h ++ e) slot
slots-after h e ss d old new at fits here others i slot found = elim (Bool-cases (d == i)) [
  | inl same ↦
      let is : d ≡ i = (==_iff d i).0 same in
      let there : slot ≡ new =
        some-injective _ _
          (sym found ∙ ap (get_elem? (set ss d new)) (sym is) ∙ get_elem?-set ss d new old at) in
      subst (λ x. Fits i (h ++ e) x) (sym there) (subst (λ j. Fits j (h ++ e) new) is here)
  | inr different ↦
      let ne : d ≢ i = λ is. false≢true (sym different ∙ (==_iff d i).1 is) in
      let (none_dealt, none_taken) = others i ne in
      Fits-quiet i h e slot none_dealt none_taken
        (fits i slot (sym (get_elem?-set_other ss d i new ne) ∙ found))
]
