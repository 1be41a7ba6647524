-- ===== src/RpPps/Assembler/Sentences.antt =====
-- Whatever the bytes are, the assembler emits nothing but sentences.
use pico_gnss.Base.{
  ℕ, ◌<◌, ◌≤◌, ◌≡◌, refl, arith, true, List, [], ◌∷◌, ◌++◌, Option, none, some, length,
  length-append, All, All-append,
}
use pico_gnss.RpPps.Assembler.{dollar, NmeaLineAssembler, push}
use pico_gnss.RpPps.Assembler.Framing.{IsPlain, feed}

-- A `$` and up to 81 bytes behind it.
pub data IsSentence : List ℕ → Type 0 where
  sentence : (body : List ℕ) → All IsPlain body → length body ≤ 81 → IsSentence (dollar ∷ body)

-- An open sentence is one so far.
abbrev pub IsWellFormed : NmeaLineAssembler → Type 0
IsWellFormed s = s.in_sentence ≡ true → IsSentence s.buf

snoc-IsSentence :
    (buf : List ℕ) (b : ℕ)
    → IsSentence buf
    → IsPlain b
    → length buf < 82
    → IsSentence (buf ++ b ∷ [])
snoc-IsSentence _ b (sentence body plain short) p room =
    sentence (body ++ b ∷ []) (All-append IsPlain body (b ∷ []) plain (p, tt))
      (omega (arith, length-append body (b ∷ [])))

-- One byte keeps an open sentence well formed, and completes only a sentence.
module _ (s : NmeaLineAssembler) (b : ℕ) (h : IsWellFormed s) where
  push-IsWellFormed : IsWellFormed (push s b).0
  unfolding push
  push-IsWellFormed =
      λ opened. ground (arith, h, sentence [] tt (omega arith), snoc-IsSentence s.buf b)

  push-IsSentence : (out : List ℕ) → (push s b).1 ≡ some out → IsSentence out
  unfolding push
  push-IsSentence out e = ground (arith, h)

-- From a state in which an open sentence is well formed, whatever the bytes are, everything that
-- the assembler emits is a `$` and at most 81 bytes behind it, none of them a `$`, CR or LF.
pub feed-IsSentence :
    (s : NmeaLineAssembler) (bs : List ℕ) → IsWellFormed s → All IsSentence (feed s bs).1
unfolding feed
feed-IsSentence s [] h = tt
feed-IsSentence s (b ∷ bs) h =
    emitted (push s b).1 (push-IsSentence s b h)
      (feed-IsSentence (push s b).0 bs (push-IsWellFormed s b h))
  where
    emitted :
        (o : Option (List ℕ))
        → ((out : List ℕ) → o ≡ some out → IsSentence out)
        → All IsSentence (feed (push s b).0 bs).1
        → All IsSentence (elim o [
          | none ↦ (feed (push s b).0 bs).1
          | some line ↦ line ∷ (feed (push s b).0 bs).1
        ])
    emitted none one more = more
    emitted (some line) one more = (one line refl, more)
