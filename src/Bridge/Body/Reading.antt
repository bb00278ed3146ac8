-- ===== src/Bridge/Body/Reading.antt =====
-- What `do_read` and `do_read_all` of bridge.rs make of the chunks of a body.
use folk_core.Base.{
  ℕ, zero, suc, ◌≤◌, ◌≡◌, ◌⊎◌, ◌↔◌, inl, inr, refl, Option, none, some, List, [], ◌∷◌, ◌++◌, take,
  drop, min, length, concat, arith, Option-cases, take-append-drop, length-take-le, append_assoc,
  ap, sym, ◌∙◌,
}
use folk_core.Api.{Bytes, RequestBody}
use folk_core.Bridge.State.{WorkerState, Bridge}
use folk_core.Bridge.Body.{
  take_leftover, refill_and_take, read_step, do_read, read_all_step, do_read_all,
}

-- The bytes of a raw body that are still in its channel.
abbrev pub to_come : Option RequestBody → Bytes
to_come (some (RequestBody.raw chunks)) = concat chunks
to_come _ = []

abbrev pub unread : WorkerState → Bytes
unread s = s.current_body_leftover ++ to_come s.current_body

abbrev pub unread_by : Bridge → Bytes
unread_by b = elim b.worker [ none ↦ [] | some s ↦ unread s ]

take_leftover-unread :
    (len : ℕ) (s : WorkerState)
    → (take_leftover len s).0 ++ unread (take_leftover len s).1 ≡ unread s
unfolding take_leftover
take_leftover-unread len s =
    sym (append_assoc (take n l) (drop n l) (to_come s.current_body))
    ∙ ap (λ (x : Bytes). x ++ to_come s.current_body) (take-append-drop n l)
  where
    l : Bytes
    l = s.current_body_leftover

    n : ℕ
    n = min len (length l)

abbrev refilled : Bytes → List Bytes → WorkerState → WorkerState
refilled chunk rest s = record s {
  current_body = some (RequestBody.raw rest);
  current_body_leftover = chunk;
}

refill-unread :
    (len : ℕ) (o : Option RequestBody) (s : WorkerState)
    → s.current_body ≡ o
    → s.current_body_leftover ≡ []
    → (refill_and_take len o s).0 ++ unread (refill_and_take len o s).1 ≡ unread s
unfolding refill_and_take
refill-unread len (some (RequestBody.raw (chunk ∷ rest))) s e l =
    take_leftover-unread len (refilled chunk rest s) ∙ sym (rw (e, l))
refill-unread len (some (RequestBody.raw [])) s e l = refl
refill-unread len (some (RequestBody.parts rx)) s e l = refl
refill-unread len none s e l = refl

read_step-unread :
    (len : ℕ) (s : WorkerState) → (read_step len s).0 ++ unread (read_step len s).1 ≡ unread s
unfolding read_step
read_step-unread len s =
    ground (arith, refill-unread len s.current_body s refl, take_leftover-unread len s)

read_all_step-unread :
    (s : WorkerState) → ((read_all_step s).0 ≡ unread s) × (unread (read_all_step s).1 ≡ [])
unfolding read_all_step
read_all_step-unread s = ground arith

-- Successive calls of `folk_read`.
pub reads : List ℕ → Bridge → Bytes × Bridge
reads [] b = ([], b)
reads (len ∷ lens) b =
    let (first, b') = do_read len b in let (more, b'') = reads lens b' in (first ++ more, b'')

do_read-unread :
    (len : ℕ) (b : Bridge) → (do_read len b).0 ++ unread_by (do_read len b).1 ≡ unread_by b
unfolding do_read
do_read-unread len b = elim (Option-cases b.worker) [
  | inl e ↦ rw e
  | inr (s, e) ↦ rw e (read_step-unread len s)
]

reads-unread :
    (lens : List ℕ) (b : Bridge) → (reads lens b).0 ++ unread_by (reads lens b).1 ≡ unread_by b
unfolding reads
reads-unread [] b = refl
reads-unread (len ∷ lens) b =
    append_assoc (do_read len b).0 _ _
    ∙ ap (λ (x : Bytes). (do_read len b).0 ++ x) (reads-unread lens (do_read len b).1)
    ∙ do_read-unread len b

do_read_all-unread :
    (b : Bridge) → ((do_read_all b).0 ≡ unread_by b) × (unread_by (do_read_all b).1 ≡ [])
unfolding do_read_all
do_read_all-unread b = elim (Option-cases b.worker) [
  | inl e ↦ rw e (refl, refl)
  | inr (s, e) ↦ rw e (read_all_step-unread s)
]

-- Reads of any lengths, followed by a read of all that is left, give the bytes of the body in
-- order, none lost and none twice, however the body was cut into chunks; nothing is left behind.
pub reads-do_read_all :
    (lens : List ℕ) (b : Bridge)
    → let (first, b') = reads lens b in
      let (rest, b'') = do_read_all b' in (first ++ rest ≡ unread_by b) × (unread_by b'' ≡ [])
reads-do_read_all lens b =
    let (all, nothing) = do_read_all-unread (reads lens b).1 in
    (ap (λ (x : Bytes). (reads lens b).0 ++ x) all ∙ reads-unread lens b, nothing)

-- The next chunk of a raw body.
abbrev pub next_chunk : Option RequestBody → Bytes
next_chunk (some (RequestBody.raw (chunk ∷ rest))) = chunk
next_chunk _ = []

take_leftover-empty :
    (len : ℕ) (s : WorkerState)
    → ((take_leftover len s).0 ≡ []) ↔ ((len ≡ 0) ⊎ (s.current_body_leftover ≡ []))
unfolding take_leftover
take_leftover-empty len s = take_min len s.current_body_leftover
  where
    take_min : (n : ℕ) (l : Bytes) → (take (min n (length l)) l ≡ []) ↔ ((n ≡ 0) ⊎ (l ≡ []))
    take_min zero l =
        let none_left : min 0 (length l) ≡ 0 = omega arith in (λ _. inl refl, λ _. rw none_left)
    take_min (suc n) [] =
        let none_left : min (suc n) 0 ≡ 0 = omega arith in (λ _. inr refl, λ _. rw none_left)
    take_min (suc n) (x ∷ xs) =
        let some_left : min (suc n) (suc (length xs)) ≡ suc (min n (length xs)) = omega arith in
        rw some_left (ground arith)

take_leftover-length : (len : ℕ) (s : WorkerState) → length (take_leftover len s).0 ≤ len
unfolding take_leftover
take_leftover-length len s =
    omega (arith, length-take-le (min len (length s.current_body_leftover)) s.current_body_leftover)

refill-length :
    (len : ℕ) (o : Option RequestBody) (s : WorkerState) → length (refill_and_take len o s).0 ≤ len
unfolding refill_and_take
refill-length len (some (RequestBody.raw (chunk ∷ rest))) s =
    take_leftover-length len (refilled chunk rest s)
refill-length len o s = omega arith

refill-empty :
    (len : ℕ) (o : Option RequestBody) (s : WorkerState)
    → ((refill_and_take len o s).0 ≡ []) ↔ ((len ≡ 0) ⊎ (next_chunk o ≡ []))
unfolding refill_and_take
refill-empty len (some (RequestBody.raw (chunk ∷ rest))) s =
    take_leftover-empty len (refilled chunk rest s)
refill-empty len o s = (λ _. inr refl, λ _. refl)

read_step-length : (len : ℕ) (s : WorkerState) → length (read_step len s).0 ≤ len
unfolding read_step
read_step-length len s =
    ground (arith, refill-length len s.current_body s, take_leftover-length len s)

read_step-empty :
    (len : ℕ) (s : WorkerState)
    → ((read_step len s).0 ≡ [])
      ↔ ((len ≡ 0) ⊎ (s.current_body_leftover ++ next_chunk s.current_body ≡ []))
unfolding read_step
read_step-empty len s = ground (arith, refill-empty len s.current_body s, take_leftover-empty len s)

-- A read is no longer than asked for; and it is empty exactly where the length is zero, or nothing
-- is left of the last chunk and the next one is empty or missing. So an empty chunk in the middle
-- of a body reads like its end.
pub do_read_empty :
    (len : ℕ) (b : Bridge) (s : WorkerState)
    → b.worker ≡ some s
    → (length (do_read len b).0 ≤ len)
      × (((do_read len b).0 ≡ [])
          ↔ ((len ≡ 0) ⊎ (s.current_body_leftover ++ next_chunk s.current_body ≡ [])))
unfolding do_read
do_read_empty len b s e = rw e (read_step-length len s, read_step-empty len s)
