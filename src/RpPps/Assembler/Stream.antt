-- ===== src/RpPps/Assembler/Stream.antt =====
-- From any state, the sentences of a stream come out in their order.
use pico_gnss.Base.{
  ℕ, ◌<◌, ◌≤◌, ◌≡◌, refl, ap, ◌∙◌, arith, true, false, List, [], ◌∷◌, ◌++◌, length, All,
  if◌then◌else◌, inl, inr, lt→ltb, le→ltb_false, ltb,
}
use native.Mathlib.Decide.{dec_lt}
use pico_gnss.RpPps.Assembler.{dollar, carriage_return, line_feed, NmeaLineAssembler, push}
use pico_gnss.RpPps.Assembler.Framing.{
  IsPlain, feed, push_end, push_idle_end, feed_silent, feed_emits, feed_plain, feed_overlong,
}

-- A sentence with at least one byte behind its `$`.
abbrev pub IsBody : List ℕ → Type 0
IsBody body = All IsPlain body × (1 ≤ length body) × (length body ≤ 81)

-- A sentence as the receiver sends it.
abbrev pub frame : List ℕ → List ℕ → List ℕ
frame body rest = dollar ∷ (body ++ carriage_return ∷ line_feed ∷ rest)

feed-dollar :
    (s : NmeaLineAssembler) (bs : List ℕ)
    → feed s (dollar ∷ bs) ≡ feed (record { buf = dollar ∷ []; in_sentence = true }) bs
unfolding feed push
feed-dollar s bs = refl

feed-frame :
    (s : NmeaLineAssembler) (body rest : List ℕ)
    → IsBody body
    → feed s (frame body rest) ≡ (
        let after = feed (record { buf = dollar ∷ body; in_sentence = false }) rest in
        (after.0, (dollar ∷ body) ∷ after.1))
unfolding feed
feed-frame s body rest (plain, filled, short) =
    feed-dollar s (body ++ carriage_return ∷ line_feed ∷ rest)
    ∙ feed_plain (dollar ∷ []) body (carriage_return ∷ line_feed ∷ rest) plain (omega arith)
    ∙ feed_emits _ _ carriage_return (line_feed ∷ rest) (dollar ∷ body)
        (push_end body carriage_return (inl refl) filled)
    ∙ ap (λ (r : NmeaLineAssembler × List (List ℕ)). (r.0, (dollar ∷ body) ∷ r.1))
        (feed_silent _ _ line_feed rest (push_idle_end (dollar ∷ body) line_feed (inr refl)))

feed-frame_overlong :
    (s : NmeaLineAssembler) (body rest : List ℕ)
    → All IsPlain body
    → 81 < length body
    → feed s (frame body rest) ≡ feed (record { buf = []; in_sentence = false }) rest
unfolding feed
feed-frame_overlong s body rest plain long =
    feed-dollar s (body ++ carriage_return ∷ line_feed ∷ rest)
    ∙ feed_overlong (dollar ∷ []) body (carriage_return ∷ line_feed ∷ rest) plain (omega arith)
        (omega arith)
    ∙ feed_silent _ _ carriage_return (line_feed ∷ rest)
        (push_idle_end [] carriage_return (inl refl))
    ∙ feed_silent _ _ line_feed rest (push_idle_end [] line_feed (inr refl))

-- A stream of sentences, long and short.
unfoldable pub stream : List (List ℕ) → List ℕ
stream [] = []
stream (body ∷ bodies) = frame body (stream bodies)

-- Those of them that fit the buffer.
unfoldable pub fitting : List (List ℕ) → List (List ℕ)
fitting [] = []
fitting (body ∷ bodies) =
    let rest = fitting bodies in if ltb 81 (length body) then rest else (dollar ∷ body) ∷ rest

-- From any state of the assembler, a stream of CR/LF-terminated sentences, each a `$` and one or
-- more bytes that are no `$`, CR or LF, comes out as exactly those with at most 81 bytes behind
-- the `$`, in their order.
pub feed-stream :
    (s : NmeaLineAssembler) (bodies : List (List ℕ))
    → All (λ body. All IsPlain body × (1 ≤ length body)) bodies
    → (feed s (stream bodies)).1 ≡ fitting bodies
unfolding stream fitting
feed-stream s [] h = unfold feed in refl
feed-stream s (body ∷ bodies) ((plain, filled), h) = elim (dec_lt 81 (length body)) [
  | yes long ↦
      rw (feed-frame_overlong s body (stream bodies) plain long, lt→ltb 81 (length body) long)
        (feed-stream _ bodies h)
  | no fits ↦
      rw
        (
          feed-frame s body (stream bodies) (plain, filled, omega arith),
          le→ltb_false 81 (length body) (omega arith),
        )
        (ap (λ l. (dollar ∷ body) ∷ l) (feed-stream _ bodies h))
]
