-- ===== src/Pool/Stream/Meaning.antt =====
-- What the collecting loops compute, described by what the stream holds.
use folk_core.Base.{
  ℕ, zero, suc, ap, ◌≤◌, ◌≡◌, refl, ◌∙◌, String, Option, none, some, List, [], ◌∷◌, ◌++◌, take,
  append_assoc, append-nil, arith,
}
use folk_core.Json.{Value}
use folk_core.Api.{Bytes, Headers, WorkerError, ResponseChunk}
use folk_core.Pool.Stream.{
  Collected, ok, err, Locals, start, legacy, drain, collect_stream, drain_to_value,
  collect_stream_to_value,
}

-- The chunks in front of the first `End`.
abbrev pub before_end : List ResponseChunk → List ResponseChunk
before_end [] = []
before_end (ResponseChunk.finish ∷ cs) = []
before_end (c ∷ cs) = c ∷ before_end cs

abbrev pub first_error : List ResponseChunk → Option WorkerError
first_error [] = none
first_error (ResponseChunk.error e ∷ cs) = some e
first_error (_ ∷ cs) = first_error cs

abbrev pub or_else {ℓ} : {A : Type ℓ} → Option A → Option A → Option A
or_else (some a) o = some a
or_else none o = o

abbrev pub or_default {ℓ} : {A : Type ℓ} → Option A → A → A
or_default (some a) d = a
or_default none d = d

abbrev pub last_return : List ResponseChunk → Option Value
last_return [] = none
last_return (ResponseChunk.return v ∷ cs) = or_else (last_return cs) (some v)
last_return (_ ∷ cs) = last_return cs

abbrev pub last_head : List ResponseChunk → Option (ℕ × Headers)
last_head [] = none
last_head (ResponseChunk.headers s h ∷ cs) = or_else (last_head cs) (some (s, h))
last_head (_ ∷ cs) = last_head cs

abbrev pub whole_body : List ResponseChunk → Bytes
whole_body [] = []
whole_body (ResponseChunk.body b ∷ cs) = b ++ whole_body cs
whole_body (_ ∷ cs) = whole_body cs

-- How many chunks of a stream decide its answer.
abbrev pub outcomes : List ResponseChunk → ℕ
outcomes [] = 0
outcomes (ResponseChunk.return v ∷ cs) = suc (outcomes cs)
outcomes (ResponseChunk.error e ∷ cs) = suc (outcomes cs)
outcomes (_ ∷ cs) = outcomes cs

outcomes-none :
    (cs : List ResponseChunk) → outcomes cs ≡ 0 → (first_error cs ≡ none) × (last_return cs ≡ none)
outcomes-none [] e = (refl, refl)
outcomes-none (ResponseChunk.return v ∷ cs) e = absurd (omega arith)
outcomes-none (ResponseChunk.error x ∷ cs) e = absurd (omega arith)
outcomes-none (_ ∷ cs) e = outcomes-none cs e

before_end-finish :
    (cs : List ResponseChunk) → before_end (cs ++ ResponseChunk.finish ∷ []) ≡ before_end cs
before_end-finish [] = refl
before_end-finish (ResponseChunk.finish ∷ cs) = refl
before_end-finish (c ∷ cs) = ground (arith, before_end-finish cs)

first_error-take :
    (k : ℕ) (cs : List ResponseChunk)
    → first_error cs ≡ none
    → first_error (before_end (take k cs)) ≡ none
first_error-take zero cs calm = refl
first_error-take (suc k) [] calm = refl
first_error-take (suc k) (ResponseChunk.error e ∷ cs) calm = cc
first_error-take (suc k) (ResponseChunk.finish ∷ cs) calm = refl
first_error-take (suc k) (c ∷ cs) calm = first_error-take k cs calm

module _ (from_utf8_lossy : Bytes → String) where
  abbrev meaning : List ResponseChunk → ℕ × Headers → Bytes → Option Value → Collected
  meaning cs head bytes v = elim (first_error cs) [
    | some e ↦ err e
    | none ↦ elim (or_else (last_return cs) v) [
      | some value ↦ ok value
      | none ↦
          let h = or_default (last_head cs) head in
          ok (legacy from_utf8_lossy h.0 h.1 (bytes ++ whole_body cs))
    ]
  ]

  drain-meaning :
      (cs : List ResponseChunk) (l : Locals)
      → drain from_utf8_lossy cs l
        ≡ meaning (before_end cs) (l.status, l.headers) l.body_bytes l.return_value
  unfolding drain
  drain-meaning [] l = ground (arith, append-nil l.body_bytes)
  drain-meaning (ResponseChunk.headers s h ∷ cs) l =
      drain-meaning cs (record l { status = s; headers = h }) ∙ (ground arith)
  drain-meaning (ResponseChunk.body b ∷ cs) l =
      drain-meaning cs (record l { body_bytes = l.body_bytes ++ b })
      ∙ ground (arith, append_assoc l.body_bytes b (whole_body (before_end cs)))
  drain-meaning (ResponseChunk.return v ∷ cs) l =
      drain-meaning cs (record l { return_value = some v }) ∙ (ground arith)
  drain-meaning (ResponseChunk.error e ∷ cs) l = refl
  drain-meaning (ResponseChunk.finish ∷ cs) l = ground (arith, append-nil l.body_bytes)

  -- The first error in front of the first `End` is the answer; without one, the last returned
  -- value, verbatim; without that, the legacy object of the last head (200 and no headers if there
  -- is none) and of all body chunks in order.
  pub collect_stream-meaning :
      (cs : List ResponseChunk)
      → collect_stream from_utf8_lossy cs ≡ (elim (first_error (before_end cs)) [
        | some e ↦ err e
        | none ↦ elim (last_return (before_end cs)) [
          | some value ↦ ok value
          | none ↦
              let h = or_default (last_head (before_end cs)) (200, []) in
              ok (legacy from_utf8_lossy h.0 h.1 (whole_body (before_end cs)))
        ]
      ])
  unfolding collect_stream
  collect_stream-meaning cs = drain-meaning cs start ∙ ground arith

  drain-outcome :
      (cs : List ResponseChunk) (l : Locals)
      → l.return_value ≡ none
      → outcomes (before_end cs) ≤ 1
      → drain from_utf8_lossy cs l ≡ drain_to_value from_utf8_lossy cs l
  unfolding drain drain_to_value
  drain-outcome [] l e one = ground arith
  drain-outcome (ResponseChunk.headers s h ∷ cs) l e one =
      drain-outcome cs (record l { status = s; headers = h }) e one
  drain-outcome (ResponseChunk.body b ∷ cs) l e one =
      drain-outcome cs (record l { body_bytes = l.body_bytes ++ b }) e one
  drain-outcome (ResponseChunk.return v ∷ cs) l e one =
      drain-meaning cs (record l { return_value = some v }) ∙ no_more
    where
      no_more : meaning (before_end cs) (l.status, l.headers) l.body_bytes (some v) ≡ ok v
      no_more = ground (arith, outcomes-none (before_end cs) (omega arith))
  drain-outcome (ResponseChunk.error x ∷ cs) l e one = refl
  drain-outcome (ResponseChunk.finish ∷ cs) l e one = ground arith

  -- On a stream with at most one returned value or error in front of its first `End`, the two
  -- loops give the same answer.
  pub collect_stream-to_value :
      (cs : List ResponseChunk)
      → outcomes (before_end cs) ≤ 1
      → collect_stream from_utf8_lossy cs ≡ collect_stream_to_value from_utf8_lossy cs
  unfolding collect_stream collect_stream_to_value
  collect_stream-to_value cs one = drain-outcome cs start refl one

  abbrev value_of : List ResponseChunk → Value
  value_of cs = elim (last_return cs) [
    | some value ↦ value
    | none ↦
        let h = or_default (last_head cs) (200, []) in
        legacy from_utf8_lossy h.0 h.1 (whole_body cs)
  ]

  collect_stream-calm :
      (cs : List ResponseChunk)
      → first_error (before_end cs) ≡ none
      → collect_stream from_utf8_lossy cs ≡ ok (value_of (before_end cs))
  collect_stream-calm cs calm = collect_stream-meaning cs ∙ ground arith

  -- A stream that carries no error gives a value however early it is cut off: a caller cannot tell
  -- a worker that went away in the middle of an answer from one that has finished it.
  pub collect_stream_cut :
      (cs : List ResponseChunk) (k : ℕ)
      → first_error cs ≡ none
      → (v : Value) × (collect_stream from_utf8_lossy (take k cs) ≡ ok v)
        × (collect_stream from_utf8_lossy (take k cs ++ ResponseChunk.finish ∷ []) ≡ ok v)
  collect_stream_cut cs k calm = (
    value_of (before_end (take k cs)),
    collect_stream-calm (take k cs) (first_error-take k cs calm),
    collect_stream-calm (take k cs ++ ResponseChunk.finish ∷ [])
          (rw (before_end-finish (take k cs)) (first_error-take k cs calm))
        ∙ ap (λ p. ok (value_of p)) (before_end-finish (take k cs)),
  )
