-- ===== src/RpPps/Assembler/Framing.antt =====
-- A run of bytes through the assembler, by the kind of its bytes.
use pico_gnss.Base.{
  ℕ, ◌+◌, ◌<◌, ◌≤◌, ◌≡◌, ◌≢◌, refl, ap, ◌∙◌, arith, true, false, List, [], ◌∷◌, ◌++◌, Option, none,
  some, length, length-append, All, ◌⊎◌,
}
use native.Mathlib.Decide.{dec_lt}
use mathlib.Core.List.{append_assoc, append-nil}
use pico_gnss.RpPps.Assembler.{dollar, carriage_return, line_feed, NmeaLineAssembler, push}

-- What a sentence holds behind its `$`.
abbrev pub IsPlain : ℕ → Type 0
IsPlain b = (b ≢ dollar) × (b ≢ carriage_return) × (b ≢ line_feed)

-- The sentences that a run of bytes completes, and the state behind it.
unfoldable pub feed : NmeaLineAssembler → List ℕ → NmeaLineAssembler × List (List ℕ)
feed s [] = (s, [])
feed s (b ∷ bs) =
    let (next, out) = push s b in
    let (final, outs) = feed next bs in
    (final, elim out [ none ↦ outs | some sentence ↦ sentence ∷ outs ])

push_room :
    (buf : List ℕ) (b : ℕ)
    → IsPlain b
    → length buf < 82
    → push (record { buf = buf; in_sentence = true }) b
      ≡ (record { buf = buf ++ b ∷ []; in_sentence = true }, none)
unfolding push
push_room buf b p room = ground arith

push_full :
    (buf : List ℕ) (b : ℕ)
    → IsPlain b
    → 82 ≤ length buf
    → push (record { buf = buf; in_sentence = true }) b
      ≡ (record { buf = []; in_sentence = false }, none)
unfolding push
push_full buf b p full = ground arith

push_idle :
    (buf : List ℕ) (b : ℕ)
    → IsPlain b
    → push (record { buf = buf; in_sentence = false }) b
      ≡ (record { buf = buf; in_sentence = false }, none)
unfolding push
push_idle buf b p = ground arith

pub push_end :
    (body : List ℕ) (b : ℕ)
    → (b ≡ carriage_return) ⊎ (b ≡ line_feed)
    → 1 ≤ length body
    → push (record { buf = dollar ∷ body; in_sentence = true }) b
      ≡ (record { buf = dollar ∷ body; in_sentence = false }, some (dollar ∷ body))
unfolding push
push_end body b e some_body = ground arith

pub push_idle_end :
    (buf : List ℕ) (b : ℕ)
    → (b ≡ carriage_return) ⊎ (b ≡ line_feed)
    → push (record { buf = buf; in_sentence = false }) b
      ≡ (record { buf = buf; in_sentence = false }, none)
unfolding push
push_idle_end buf b e = ground arith

-- `feed` behind one byte.
abbrev go_on : List ℕ → NmeaLineAssembler × Option (List ℕ) → NmeaLineAssembler × List (List ℕ)
go_on bs r =
    ((feed r.0 bs).0, elim r.1 [ none ↦ (feed r.0 bs).1 | some line ↦ line ∷ (feed r.0 bs).1 ])

pub feed_silent :
    (s next : NmeaLineAssembler) (b : ℕ) (bs : List ℕ)
    → push s b ≡ (next, none)
    → feed s (b ∷ bs) ≡ feed next bs
unfolding feed
feed_silent s next b bs e = ap (go_on bs) e

pub feed_emits :
    (s next : NmeaLineAssembler) (b : ℕ) (bs line : List ℕ)
    → push s b ≡ (next, some line)
    → feed s (b ∷ bs) ≡ ((feed next bs).0, line ∷ (feed next bs).1)
unfolding feed
feed_emits s next b bs line e = ap (go_on bs) e

pub feed_plain :
    (buf body rest : List ℕ)
    → All IsPlain body
    → length buf + length body ≤ 82
    → feed (record { buf = buf; in_sentence = true }) (body ++ rest)
      ≡ feed (record { buf = buf ++ body; in_sentence = true }) rest
unfolding feed
feed_plain buf [] rest plain room = rw (append-nil buf) refl
feed_plain buf (b ∷ body) rest (p, plain) room =
    feed_silent _ _ b (body ++ rest) (push_room buf b p (omega arith))
    ∙ feed_plain (buf ++ b ∷ []) body rest plain (omega (arith, length-append buf (b ∷ [])))
    ∙ ap (λ l. feed (record { buf = l; in_sentence = true }) rest) (append_assoc buf (b ∷ []) body)

feed_idle :
    (buf body rest : List ℕ)
    → All IsPlain body
    → feed (record { buf = buf; in_sentence = false }) (body ++ rest)
      ≡ feed (record { buf = buf; in_sentence = false }) rest
unfolding feed
feed_idle buf [] rest plain = refl
feed_idle buf (b ∷ body) rest (p, plain) =
    feed_silent _ _ b (body ++ rest) (push_idle buf b p) ∙ feed_idle buf body rest plain

-- A sentence that is too long empties the buffer, and what is left of it is passed over.
pub feed_overlong :
    (buf body rest : List ℕ)
    → All IsPlain body
    → length buf ≤ 82
    → 82 < length buf + length body
    → feed (record { buf = buf; in_sentence = true }) (body ++ rest)
      ≡ feed (record { buf = []; in_sentence = false }) rest
unfolding feed
feed_overlong buf [] rest plain within over = absurd (omega arith)
feed_overlong buf (b ∷ body) rest (p, plain) within over = elim (dec_lt (length buf) 82) [
  | yes room ↦
      feed_silent _ _ b (body ++ rest) (push_room buf b p room)
      ∙ feed_overlong (buf ++ b ∷ []) body rest plain (omega (arith, length-append buf (b ∷ [])))
          (omega (arith, length-append buf (b ∷ [])))
  | no full ↦
      feed_silent _ _ b (body ++ rest) (push_full buf b p (omega arith))
      ∙ feed_idle [] body rest plain
]
