-- ===== src/Entry/Reads.antt =====
-- What PHP sees of the bridge through crates/folk-ext/src/lib.rs.
use folk_core.Base.{
  ℕ, zero, suc, ◌≤◌, ◌<◌, ◌≡◌, ◌⊎◌, inl, inr, ◌↔◌, Option, some, [], ◌∷◌, ◌++◌, length, arith, ◌^◌,
  String, Bool, true, false,
}
use folk_core.Api.{Headers, ResponseChunk}
use folk_core.Bridge.State.{WorkerState, Bridge, sent}
use folk_core.Bridge.Body.Reading.{next_chunk, do_read_empty}
use folk_core.Entry.{ℤ, pos, negsuc, chunk_length, folk_read}

chunk_length-pos : (z : ℤ) → 0 < chunk_length z
unfolding chunk_length
chunk_length-pos (pos zero) = omega arith
chunk_length-pos (pos (suc n)) = omega arith
chunk_length-pos (negsuc n) = omega arith

-- Whatever length PHP asks for, zero and negative ones included, `folk_read` gives nothing exactly
-- where nothing is left of the last chunk and the next chunk is empty or missing; and never more
-- than the length that stands for the one asked for.
pub folk_read_empty :
    (z : ℤ) (b : Bridge) (s : WorkerState)
    → b.worker ≡ some s
    → (length (folk_read z b).0 ≤ chunk_length z)
      × (((folk_read z b).0 ≡ []) ↔ (s.current_body_leftover ++ next_chunk s.current_body ≡ []))
unfolding folk_read
folk_read_empty z b s e =
    let (short, empty) = do_read_empty (chunk_length z) b s e in
    (short, ((λ h. positive (empty.0 h)), (λ h. empty.1 (inr h))))
  where
    positive :
        (chunk_length z ≡ 0) ⊎ (s.current_body_leftover ++ next_chunk s.current_body ≡ [])
        → s.current_body_leftover ++ next_chunk s.current_body ≡ []
    positive (inl none_asked) = absurd (omega (arith, chunk_length-pos z))
    positive (inr h) = h

-- The one way in which a head reaches the stream: `b` is the bridge before, `b'` the one after.
pub record HeadSent (headers_of : Option Headers) (status : ℤ) (s : WorkerState) (b b' : Bridge)
    : Type 0 where
  pub status_u16 : ℕ
  pub headers : Headers
  pub tx : ℕ
  pub in_range : (status ≡ pos status_u16) × (status_u16 < 2 ^ 16)
  pub parsed : headers_of ≡ some headers
  pub pending : (s.current_stream_tx ≡ some tx) × (s.stream_started ≡ false)
  pub logged : b'.log ≡ b.log ++ sent tx (ResponseChunk.headers status_u16 headers) ∷ []
  pub started : b'.worker ≡ some (record s { stream_started = true })

module _ (parse_headers : String → Option Headers) where
  -- What a call of `folk_write_head` comes to: nothing at all, or a head.
  abbrev pub Headed : ℤ → String → WorkerState → Bridge → Bridge → Type 0
  Headed status json s b b' = (b' ≡ b) ⊎ HeadSent (parse_headers json) status s b b'
