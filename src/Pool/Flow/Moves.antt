-- ===== src/Pool/Flow/Moves.antt =====
-- What each action of a pool of worker_pool.rs does to the order of its requests.
use folk_core.Base.{
  ℕ, ◌+◌, ◌≤◌, ◌≡◌, ◌≢◌, refl, sym, ap, subst, ◌∙◌, true, Option, none, some, List, [], ◌∷◌, ◌++◌,
  length, get_elem?, ltb, Option-cases, Bool-cases, inl, inr, append_assoc, filter_map-append,
  if◌then◌else◌,
}
use mathlib.Core.Option.{some-injective}
use folk_core.Pool.Router.{Router, route, usize_mod}
use folk_core.Pool.Flow.Slots.{opened, WellFormed, picked-open, get_or-map}
use folk_core.Pool.Flow.{
  submit, queue_capacity, inbox_capacity, put, forward, do_deliver, on_slot, receive_in, received,
  finished, crashed, PoolSlot, PoolState, send, receive, deliver,
}
use folk_core.Pool.Flow.Order.{
  Entry, entered, dealt, taken, entry_of, on_entered, on_dealt, all_entered, all_dealt, dealt_to,
  taken_by, Fits, Ordered, filter_map_quiet, Fits-quiet, taken_by_other, dealt_to_other, Fits-dealt,
  Fits-taken, Fits-closed, slots-after,
}

-- The log and the state after an action, where it takes effect.
abbrev pub After : List Entry → List Entry → Option PoolState → Type 0
After h e none = Unit
After h e (some s) = Ordered (h ++ e) s

module _ (h : List Entry) (s : PoolState) (v : Ordered h s) where
  pub quiet_queue :
      (e : List Entry)
      → all_entered e ≡ []
      → all_dealt e ≡ []
      → all_entered (h ++ e) ≡ all_dealt (h ++ e) ++ s.queue
  quiet_queue e none_entered none_dealt =
      filter_map_quiet on_entered h e none_entered
      ∙ v.in_queue
      ∙ ap (λ xs. xs ++ s.queue) (sym (filter_map_quiet on_dealt h e none_dealt))

  pub submit-After : (i : ℕ) → After h (entry_of (send i) s) (submit i s)
  unfolding submit
  submit-After i = elim (Option-cases (get_elem? s.holding i)) [
    | inl e ↦ rw (e, submit) tt
    | inr (q, e) ↦ elim (Bool-cases (ltb (length s.queue) queue_capacity)) [
      | inr full ↦ rw (e, full, submit) tt
      | inl room ↦
          rw (e, room, submit, entry_of)
            (record {
              in_queue =
                  filter_map-append on_entered h (entered q ∷ [])
                  ∙ ap (λ xs. xs ++ (q ∷ [])) v.in_queue
                  ∙ append_assoc (all_dealt h) s.queue (q ∷ [])
                  ∙ ap (λ xs. xs ++ (s.queue ++ (q ∷ [])))
                      (sym (filter_map_quiet on_dealt h (entered q ∷ []) refl));
              in_slots = λ j slot at.
                  Fits-quiet j h (entered q ∷ []) slot refl refl (v.in_slots j slot at);
            })
    ]
  ]

  queue-dealt :
      (chosen : Option ℕ) (q : ℕ) (rest : List ℕ)
      → s.queue ≡ q ∷ rest
      → all_entered (h ++ (dealt chosen q ∷ [])) ≡ all_dealt (h ++ (dealt chosen q ∷ [])) ++ rest
  queue-dealt chosen q rest e =
      filter_map_quiet on_entered h (dealt chosen q ∷ []) refl
      ∙ v.in_queue
      ∙ ap (λ xs. all_dealt h ++ xs) e
      ∙ sym (append_assoc (all_dealt h) (q ∷ []) rest)
      ∙ ap (λ xs. xs ++ rest) (sym (filter_map-append on_dealt h (dealt chosen q ∷ [])))

  put-After :
      (d q : ℕ) (rest : List ℕ) (router : Router)
      → s.queue ≡ q ∷ rest
      → ((slot : PoolSlot) → get_elem? s.slots d ≡ some slot → slot.is_open ≡ true)
      → After h (dealt (some d) q ∷ []) (put q d (record s { queue = rest; router = router }))
  unfolding put
  put-After d q rest router e alive = elim (Option-cases (get_elem? s.slots d)) [
    | inl f ↦ rw (f, put) tt
    | inr (slot, f) ↦ elim (Bool-cases (ltb (length slot.inbox) inbox_capacity)) [
      | inr full ↦ rw (f, full, put) tt
      | inl room ↦
          rw (f, room, put)
            (record {
              in_queue = queue-dealt (some d) q rest e;
              in_slots =
                  slots-after h (dealt (some d) q ∷ []) s.slots d slot
                    (record slot { inbox = slot.inbox ++ q ∷ [] }) f v.in_slots
                    (Fits-dealt d q h slot (alive slot f) (v.in_slots d slot f))
                    (λ i ne. (dealt_to_other i d q ne, refl));
            })
    ]
  ]

  forward-After :
      (chosen : Option ℕ) (q : ℕ) (rest : List ℕ) (router : Router)
      → s.queue ≡ q ∷ rest
      → ((d : ℕ) (slot : PoolSlot)
          → chosen ≡ some d
          → get_elem? s.slots d ≡ some slot
          → slot.is_open ≡ true)
      → After h
          (dealt chosen q ∷ [])
          (forward q chosen (record s { queue = rest; router = router }))
  unfolding forward
  forward-After none q rest router e alive = record {
    in_queue = queue-dealt none q rest e;
    in_slots =
        λ j slot at. Fits-quiet j h (dealt none q ∷ []) slot refl refl (v.in_slots j slot at);
  }
  forward-After (some d) q rest router e alive =
      put-After d q rest router e (λ slot at. alive d slot refl at)

  pub do_deliver-After :
      (n : ℕ) → n + n ≤ usize_mod → WellFormed n s → After h (entry_of deliver s) (do_deliver s)
  unfolding do_deliver
  do_deliver-After n small w = go s.queue refl
    where
      routed : Router × Option ℕ
      routed = route (opened s) s.router

      go : (qs : List ℕ) → s.queue ≡ qs → After h (entry_of deliver s) (do_deliver s)
      go [] e = rw (e, do_deliver) tt
      go (q ∷ rest) e =
          rw (e, do_deliver, entry_of)
            (forward-After routed.1 q rest routed.0 e
              (λ d slot c at. sym (get_or-map s.slots d slot at) ∙ (picked-open n small s d w c).0))

-- What a slot gives up and becomes, where it acts.
abbrev Shifts : ℕ → List Entry → Option (List ℕ × PoolSlot) → Type 0
Shifts i h none = Unit
Shifts i h (some (qs, slot)) = Fits i h slot

module _ (h : List Entry) (s : PoolState) (v : Ordered h s) (i : ℕ) where
  on_slot-After :
      (f : PoolSlot → Option (List ℕ × PoolSlot)) (e : List Entry)
      → all_entered e ≡ []
      → all_dealt e ≡ []
      → ((j : ℕ) → i ≢ j → (dealt_to j e ≡ []) × (taken_by j e ≡ []))
      → ((slot : PoolSlot) → get_elem? s.slots i ≡ some slot → Shifts i (h ++ e) (f slot))
      → After h e (on_slot f i s)
  unfolding on_slot
  on_slot-After f e none_entered none_dealt others shifts =
      elim (Option-cases (get_elem? s.slots i)) [
        | inl a ↦ rw (a, on_slot) tt
        | inr (slot, a) ↦ elim (Option-cases (f slot)) [
          | inl waits ↦ rw (a, waits, on_slot) tt
          | inr ((qs, slot'), done) ↦
              rw (a, done, on_slot)
                (record {
                  in_queue = quiet_queue h s v e none_entered none_dealt;
                  in_slots =
                      slots-after h e s.slots i slot slot' a v.in_slots
                        (subst (Shifts i (h ++ e)) done (shifts slot a)) others;
                })
        ]
      ]

  pub receive-After : After h (entry_of (receive i) s) (on_slot received i s)
  unfolding on_slot receive_in
  receive-After = elim (Option-cases (get_elem? s.slots i)) [
    | inl a ↦ rw (a, on_slot) tt
    | inr (slot, a) ↦ by_slot slot a slot.running refl slot.inbox refl
  ]
    where
      by_slot :
          (slot : PoolSlot)
          → get_elem? s.slots i ≡ some slot
          → (running : Option ℕ) → slot.running ≡ running
          → (inbox : List ℕ) → slot.inbox ≡ inbox
          → After h (entry_of (receive i) s) (on_slot received i s)
      by_slot slot a (some q) r inbox b = rw (a, r, on_slot, received, receive_in) tt
      by_slot slot a none r [] b = rw (a, r, b, on_slot, received, receive_in) tt
      by_slot slot a none r (q ∷ rest) b =
          let front : entry_of (receive i) s ≡ taken i q ∷ [] = rw (a, b, entry_of) refl in
          let shifted : Shifts i (h ++ (taken i q ∷ [])) (received slot) =
            rw (r, b, received, receive_in) (Fits-taken i q rest h slot b (v.in_slots i slot a)) in
          subst (λ e. After h e (on_slot received i s)) (sym front)
            (on_slot-After received (taken i q ∷ []) refl refl
              (λ j ne. (refl, taken_by_other j i q ne))
              (λ slot' at.
                subst (λ x. Shifts i (h ++ (taken i q ∷ [])) (received x))
                  (some-injective _ _ (sym a ∙ at)) shifted))

  pub finish-After : After h [] (on_slot finished i s)
  finish-After =
      on_slot-After finished [] refl refl (λ j ne. (refl, refl))
        (λ slot a. still slot (v.in_slots i slot a) slot.running refl)
    where
      still :
          (slot : PoolSlot)
          → Fits i h slot
          → (running : Option ℕ) → slot.running ≡ running
          → Shifts i (h ++ []) (finished slot)
      still slot fits none e = rw (e, finished) tt
      still slot fits (some q) e = rw (e, finished) (Fits-quiet i h [] slot refl refl fits)

  pub crash-After : After h [] (on_slot crashed i s)
  crash-After =
      on_slot-After crashed [] refl refl (λ j ne. (refl, refl))
        (λ slot a. closes slot (v.in_slots i slot a))
    where
      closes : (slot : PoolSlot) → Fits i h slot → Shifts i (h ++ []) (crashed slot)
      closes slot fits = elim (Bool-cases slot.is_open) [
        | inr e ↦ rw (e, crashed, if◌then◌else◌) tt
        | inl e ↦
            rw (e, crashed, if◌then◌else◌)
              (Fits-closed i (h ++ []) slot (Fits-quiet i h [] slot refl refl fits))
      ]
