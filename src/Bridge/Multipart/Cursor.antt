-- ===== src/Bridge/Multipart/Cursor.antt =====
-- What a handler sees of a well-formed stream of parts through the multipart cursor of bridge.rs.
use folk_core.Base.{
  Bool, false, if◌then◌else◌, Bool-cases, ℕ, ◌≡◌, inl, inr, ◌⊎◌, refl, none, some, List, [], ◌∷◌,
  ◌++◌, concat, append_assoc, append-nil, ap, sym, ◌∙◌,
}
use folk_core.Api.{Bytes, PartHead}
use folk_core.Bridge.State.{WorkerState}
use folk_core.Bridge.Multipart.{next_part_step, part_read_step, part_read_all_step}
use folk_core.Bridge.Multipart.Standing.{
  Reads, Part, Stands, next_part-Stands, next_part_none, part_read-Stands, part_read_all-Stands,
}

-- What a handler does with one part: reads of some lengths, then perhaps a read of all the rest.
pub record Visit : Type 0 where
  pub lens : List ℕ
  pub finish : Bool

read_lens : List ℕ → WorkerState → Bytes × WorkerState
read_lens [] s = ([], s)
read_lens (len ∷ lens) s =
    let (bytes, s') = part_read_step len s in
    let (more, s'') = read_lens lens s' in (bytes ++ more, s'')

read_part : Visit → WorkerState → Bytes × WorkerState
read_part v s =
    let (bytes, s') = read_lens v.lens s in
    let (more, s'') = part_read_all_step s' in
    if v.finish then (bytes ++ more, s'') else (bytes, s')

-- A handler that goes through the parts: the headers it sees, with the bytes that it reads.
pub visit : List Visit → WorkerState → List (PartHead × Bytes)
visit [] s = []
visit (v ∷ vs) s = elim (next_part_step s).0 [
  | none ↦ []
  | some head ↦
      let r = read_part v (next_part_step s).1 in let later = visit vs r.1 in (head, r.0) ∷ later
]

read_lens-Stands :
    (lens : List ℕ) (ps : List Part) (rest : Bytes) (s : WorkerState)
    → Stands ps rest s
    → Reads ps rest (read_lens lens s)
unfolding read_lens
read_lens-Stands [] ps rest s v = (rest, refl, v)
read_lens-Stands (len ∷ lens) ps rest s v =
    let (later, e, v') = part_read-Stands len ps rest s v in
    let (last, e', v'') = read_lens-Stands lens ps later (part_read_step len s).1 v' in
    (
      last,
      e
          ∙ ap (λ (x : Bytes). (part_read_step len s).0 ++ x) e'
          ∙ sym (append_assoc (part_read_step len s).0 _ last),
      v'',
    )

-- The bytes seen of a part are its first bytes, and all of them if the visit reads to the end.
abbrev pub Seen : Visit → Bytes → Bytes → Type 0
Seen v whole bytes =
    (later : Bytes) × (whole ≡ bytes ++ later) × ((v.finish ≡ false) ⊎ (later ≡ []))

abbrev pub AllSeen : List Visit → List Part → List (PartHead × Bytes) → Type 0
AllSeen [] ps seen = seen ≡ []
AllSeen (v ∷ vs) [] seen = seen ≡ []
AllSeen (v ∷ vs) (p ∷ ps) [] = ⊥
AllSeen (v ∷ vs) (p ∷ ps) (x ∷ xs) = (x.0 ≡ p.0) × Seen v (concat p.1) x.1 × AllSeen vs ps xs

read_part-Stands :
    (v : Visit) (ps : List Part) (rest : Bytes) (s : WorkerState)
    → Stands ps rest s
    → Seen v rest (read_part v s).0 × ((later : Bytes) × Stands ps later (read_part v s).1)
unfolding read_part
read_part-Stands v ps rest s st =
    let s' = (read_lens v.lens s).1 in
    let bytes = (read_lens v.lens s).0 in
    let (later, e, st') = read_lens-Stands v.lens ps rest s st in
    let (all, st'') = part_read_all-Stands ps later s' st' in
    elim (Bool-cases v.finish) [
      | inl f ↦
          let whole : rest ≡ bytes ++ (part_read_all_step s').0 =
            e ∙ ap (λ (x : Bytes). bytes ++ x) (sym all) in
          rw (f, if◌then◌else◌) (([], whole ∙ sym (append-nil _), inr refl), ([], st''))
      | inr f ↦ rw (f, if◌then◌else◌) ((later, e, inl refl), (later, st'))
    ]

-- On a well-formed stream of parts, a handler that asks for the parts in turn sees each header in
-- order and, whatever it reads of each part, first bytes of that very part: all of them if it reads
-- to the part's end. What it leaves unread of a part never shows up in the next one.
pub visit-AllSeen :
    (vs : List Visit) (ps : List Part) (rest : Bytes) (s : WorkerState)
    → Stands ps rest s
    → AllSeen vs ps (visit vs s)
unfolding visit
visit-AllSeen [] ps rest s st = refl
visit-AllSeen (v ∷ vs) [] rest s st = rw (next_part_none rest s st, visit)
visit-AllSeen (v ∷ vs) ((head, chunks) ∷ ps) rest s st =
    let (found, st') = next_part-Stands head chunks ps rest s st in
    let (seen, (later, st'')) = read_part-Stands v ps (concat chunks) (next_part_step s).1 st' in
    rw (found, visit)
      (refl, seen, visit-AllSeen vs ps later (read_part v (next_part_step s).1).1 st'')
