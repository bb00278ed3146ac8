-- ===== src/Bridge/Multipart/Standing.antt =====
-- Where the multipart cursor of bridge.rs stands in a well-formed stream of parts, and how it moves.
use folk_core.Base.{
  ℕ, ◌≡◌, refl, none, some, List, [], ◌∷◌, ◌++◌, take, drop, min, length, concat, arith,
  take-append-drop, append_assoc, ap, sym, subst, ◌∙◌,
}
use folk_core.Api.{Bytes, RequestBody, RequestPart, PartHead}
use folk_core.Bridge.State.{WorkerState, PartState}
use folk_core.Bridge.Body.{take_leftover}
use folk_core.Bridge.Multipart.{
  skip_part, with_parts, next_head, advance, next_part_on, next_part_step, part_refill,
  part_read_in, part_read_step, drain_part, part_drain, part_read_all_step,
}

-- A part: its header, and the chunks of its bytes.
abbrev pub Part : Type 0
Part = PartHead × List Bytes

abbrev pub encode_chunks : List Bytes → List RequestPart → List RequestPart
encode_chunks [] after = RequestPart.part_end ∷ after
encode_chunks (bytes ∷ chunks) after = RequestPart.chunk bytes ∷ encode_chunks chunks after

-- The messages that the parts are sent as.
abbrev pub encode : List Part → List RequestPart
encode [] = []
encode ((head, chunks) ∷ ps) = RequestPart.start head ∷ encode_chunks chunks (encode ps)

-- The cursor stands in a part of which `rest` is unread, or behind one, in front of the parts `ps`.
pub data Stands (ps : List Part) (rest : Bytes) (s : WorkerState) : Type 0 where
  inside :
      (chunks : List Bytes)
      → s.current_part_state ≡ PartState.in_part
      → s.current_body ≡ some (RequestBody.parts (encode_chunks chunks (encode ps)))
      → rest ≡ s.current_body_leftover ++ concat chunks
      → Stands ps rest s
  first :
      s.current_part_state ≡ PartState.before_first
      → s.current_body ≡ some (RequestBody.parts (encode ps))
      → rest ≡ []
      → Stands ps rest s
  behind :
      s.current_part_state ≡ PartState.part_ended
      → s.current_body ≡ some (RequestBody.parts (encode ps))
      → rest ≡ []
      → Stands ps rest s

skip_part-encode :
    (chunks : List Bytes) (after : List RequestPart)
    → skip_part (encode_chunks chunks after) ≡ (some after, after)
unfolding skip_part
skip_part-encode [] after = refl
skip_part-encode (bytes ∷ chunks) after = skip_part-encode chunks after

drain_part-encode :
    (chunks : List Bytes) (after : List RequestPart)
    → drain_part (encode_chunks chunks after) ≡ (concat chunks, PartState.part_ended, after)
unfolding drain_part
drain_part-encode [] after = refl
drain_part-encode (bytes ∷ chunks) after = ground (arith, drain_part-encode chunks after)

-- `next_part` in terms of what stands in the channel behind the current part.
pub next_part-head :
    (ps : List Part) (rest : Bytes) (s : WorkerState)
    → Stands ps rest s
    → next_part_step s ≡ next_head (encode ps) s
unfolding next_part_step next_part_on advance
next_part-head ps rest s (inside chunks p b r) =
    rw (b, p, next_part_on, advance) (rw (skip_part-encode chunks (encode ps), advance))
next_part-head ps rest s (first p b r) = ground arith
next_part-head ps rest s (behind p b r) = ground arith

pub next_part-Stands :
    (h : PartHead) (chunks : List Bytes) (ps : List Part) (rest : Bytes) (s : WorkerState)
    → Stands ((h, chunks) ∷ ps) rest s
    → ((next_part_step s).0 ≡ some h) × Stands ps (concat chunks) (next_part_step s).1
unfolding next_head
next_part-Stands h chunks ps rest s v =
    rw (next_part-head ((h, chunks) ∷ ps) rest s v) (refl, inside chunks refl refl refl)

pub next_part_none :
    (rest : Bytes) (s : WorkerState) → Stands [] rest s → (next_part_step s).0 ≡ none
unfolding next_head
next_part_none rest s v = rw (next_part-head [] rest s v)

-- The outcome of a read in front of the parts `ps`.
abbrev pub Reads : List Part → Bytes → Bytes × WorkerState → Type 0
Reads ps rest r = (later : Bytes) × (rest ≡ r.0 ++ later) × Stands ps later r.1

take_leftover-Reads :
    (len : ℕ) (ps : List Part) (chunks : List Bytes) (s : WorkerState)
    → s.current_part_state ≡ PartState.in_part
    → s.current_body ≡ some (RequestBody.parts (encode_chunks chunks (encode ps)))
    → Reads ps (s.current_body_leftover ++ concat chunks) (take_leftover len s)
unfolding take_leftover
take_leftover-Reads len ps chunks s p b =
    let l = s.current_body_leftover in
    let n = min len (length l) in
    (
      drop n l ++ concat chunks,
      ap (λ (x : Bytes). x ++ concat chunks) (sym (take-append-drop n l))
          ∙ append_assoc (take n l) (drop n l) (concat chunks),
      inside chunks p b refl,
    )

part_read_in-Reads :
    (len : ℕ) (ps : List Part) (chunks : List Bytes) (l : Bytes) (s : WorkerState)
    → s.current_body_leftover ≡ l
    → s.current_part_state ≡ PartState.in_part
    → s.current_body ≡ some (RequestBody.parts (encode_chunks chunks (encode ps)))
    → Reads ps (l ++ concat chunks) (part_read_in len s)
unfolding part_read_in part_refill
part_read_in-Reads len ps chunks (x ∷ xs) s e p b =
    rw (e, part_read_in)
      (subst (λ (l : Bytes). Reads ps (l ++ concat chunks) (take_leftover len s)) e
        (take_leftover-Reads len ps chunks s p b))
part_read_in-Reads len ps [] [] s e p b =
    rw (e, b, part_read_in, part_refill) ([], refl, behind refl refl refl)
part_read_in-Reads len ps (bytes ∷ chunks) [] s e p b =
    rw (e, b, part_read_in, part_refill)
      (take_leftover-Reads len ps chunks
        (with_parts (encode_chunks chunks (encode ps)) s.current_part_state bytes s) p refl)

pub part_read-Stands :
    (len : ℕ) (ps : List Part) (rest : Bytes) (s : WorkerState)
    → Stands ps rest s
    → Reads ps rest (part_read_step len s)
unfolding part_read_step
part_read-Stands len ps rest s (inside chunks p b r) =
    rw (p, r, part_read_step) (part_read_in-Reads len ps chunks s.current_body_leftover s refl p b)
part_read-Stands len ps rest s (first p b r) = rw (p, part_read_step) (rest, refl, first p b r)
part_read-Stands len ps rest s (behind p b r) = rw (p, part_read_step) (rest, refl, behind p b r)

pub part_read_all-Stands :
    (ps : List Part) (rest : Bytes) (s : WorkerState)
    → Stands ps rest s
    → ((part_read_all_step s).0 ≡ rest) × Stands ps [] (part_read_all_step s).1
unfolding part_read_all_step part_drain
part_read_all-Stands ps rest s (inside chunks p b r) =
    rw (p, part_read_all_step)
      (rw (b, part_drain)
        (rw (drain_part-encode chunks (encode ps)) (sym r, behind refl refl refl)))
part_read_all-Stands ps rest s (first p b r) = rw (p, part_read_all_step) (sym r, first p b refl)
part_read_all-Stands ps rest s (behind p b r) = rw (p, part_read_all_step) (sym r, behind p b refl)
