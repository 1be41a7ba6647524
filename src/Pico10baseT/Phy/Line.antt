-- ===== src/Pico10baseT/Phy/Line.antt =====
-- A whole frame on the line: what `encode_frame` writes, and that a receiver reads it back.
use pico_gnss.Base.{
  le→ltb_false, ℕ, zero, suc, ◌+◌, ◌<◌, ◌≤◌, ◌≡◌, refl, sym, ap, ◌∙◌, arith, false, List, [], ◌∷◌,
  ◌++◌, map, Option, none, some, ltb, ◌==◌, if◌then◌else◌, length, length-append, length-map, drop,
  drop-drop, length-drop, set, set-append, get_or, All, All-append, Bool-cases, inl, inr, ==_iff,
}
use mathlib.Core.List.{append_assoc, append-nil}
use pico_gnss.Base.Bytes.{IsByte}
use pico_gnss.Pico10baseT.Phy.{
  preamble_sfd, tp_idl_word, manchester_table, encoded_words, write_words, encode_frame,
}
use pico_gnss.Pico10baseT.Phy.Symbols.{
  read_word, read_word-manchester_word, end_is_no_byte, manchester_table-eq,
}

abbrev pub table_words : List ℕ → List ℕ
table_words = map (λ b. get_or manchester_table b 0)

write_words-eq :
    (bs pre rest : List ℕ)
    → length bs ≤ length rest
    → write_words bs (pre ++ rest) (length pre)
      ≡ (pre ++ (table_words bs ++ drop (length bs) rest), length pre + length bs)
unfolding write_words
write_words-eq [] pre rest h = ground (arith, append-nil pre)
write_words-eq (b ∷ bs) pre [] h = absurd (omega arith)
write_words-eq (b ∷ bs) pre (r ∷ rest) h =
    let v : ℕ = get_or manchester_table b 0 in
    ground (
      arith,
      set-append pre rest r v,
      append_assoc pre (v ∷ []) rest,
      append_assoc pre (v ∷ []) (table_words bs ++ drop (length bs) rest),
      length-append pre (v ∷ []),
      write_words-eq bs (pre ++ v ∷ []) rest (omega arith),
    )

-- The words of a transmission: preamble and start delimiter, the frame, and the end.
abbrev pub line : List ℕ → List ℕ
line frame = table_words preamble_sfd ++ (table_words frame ++ tp_idl_word ∷ [])

drop_one_more : (n : ℕ) (xs : List ℕ) → n < length xs → (x : ℕ) × (drop n xs ≡ x ∷ drop (n + 1) xs)
drop_one_more n [] h = absurd (omega arith)
drop_one_more zero (x ∷ xs) h = (x, refl)
drop_one_more (suc n) (x ∷ xs) h =
    let (y, e) = drop_one_more n xs (omega arith) in
    (y, e ∙ ap (λ k. y ∷ drop k (x ∷ xs)) {x = suc (n + 1)} {y = suc n + 1} (omega arith))

module _ (frame out : List ℕ) (fits : encoded_words (length frame) ≤ length out) where
  first_loop : write_words preamble_sfd out 0 ≡ (table_words preamble_sfd ++ drop 8 out, 8)
  unfolding encoded_words
  first_loop = write_words-eq preamble_sfd [] out (omega arith)

  second_loop : write_words frame (table_words preamble_sfd ++ drop 8 out) 8 ≡ (
    table_words preamble_sfd ++ (table_words frame ++ drop (length frame) (drop 8 out)),
    8 + length frame,
  )
  unfolding encoded_words
  second_loop =
      write_words-eq frame (table_words preamble_sfd) (drop 8 out)
        (omega (arith, length-drop 8 out))

  last_write :
      set
        (table_words preamble_sfd ++ (table_words frame ++ drop (length frame) (drop 8 out)))
        (8 + length frame)
        tp_idl_word
      ≡ line frame ++ drop (encoded_words (length frame)) out
  unfolding encoded_words
  last_write =
      let front = table_words preamble_sfd ++ table_words frame in
      let (x, e) = drop_one_more (8 + length frame) out (omega arith) in
      ap
        (λ l.
          set (table_words preamble_sfd ++ (table_words frame ++ l)) (8 + length frame) tp_idl_word)
        (drop-drop 8 (length frame) out ∙ e)
      ∙ ap (λ l. set l (8 + length frame) tp_idl_word)
          (sym (
            append_assoc (table_words preamble_sfd) (table_words frame)
              (x ∷ drop (8 + length frame + 1) out)))
      ∙ ap (λ (k : ℕ). set (front ++ x ∷ drop (8 + length frame + 1) out) k tp_idl_word)
          {y = length front} (omega (arith, length-map frame (λ b. get_or manchester_table b 0)))
      ∙ set-append front (drop (8 + length frame + 1) out) x tp_idl_word
      ∙ regroup
    where
      regroup :
          (table_words preamble_sfd ++ table_words frame)
            ++ tp_idl_word ∷ drop (8 + length frame + 1) out
          ≡ line frame ++ drop (8 + length frame + 1) out
      regroup = simp append_assoc

-- `encode_frame` refuses a buffer that is shorter than `encoded_words`; otherwise it returns that
-- number, the front of the buffer is the table's words of preamble, delimiter and frame and the
-- end word, and the rest of the buffer is as it was.
pub encode_frame-eq :
    (frame out : List ℕ)
    → encode_frame frame out ≡ (
        if ltb (length out) (encoded_words (length frame))
        then none
        else some
            (encoded_words (length frame), line frame ++ drop (encoded_words (length frame)) out))
unfolding encode_frame
encode_frame-eq frame out = elim (Bool-cases (ltb (length out) (encoded_words (length frame)))) [
  | inl short ↦ rw short refl
  | inr long ↦
      let fits : encoded_words (length frame) ≤ length out = ground arith in
      rw (long, first_loop frame out fits, second_loop frame out fits, last_write frame out fits)
        (unfold encoded_words in refl)
]

pub encode_frame-eq-some :
    (frame out : List ℕ)
    → encoded_words (length frame) ≤ length out
    → encode_frame frame out
      ≡ some (encoded_words (length frame), line frame ++ drop (encoded_words (length frame)) out)
encode_frame-eq-some frame out fits =
    encode_frame-eq frame out
    ∙ rw (le→ltb_false (length out) (encoded_words (length frame)) fits) refl

-- The receiver's side: words up to the end of the transmission.
pub read_line : List ℕ → Option (List ℕ)
read_line [] = none
read_line (w ∷ ws) =
    let rest = read_line ws in
    if w == tp_idl_word then some [] else elim (read_word w) [
      | none ↦ none
      | some b ↦ elim rest [ none ↦ none | some bs ↦ some (b ∷ bs) ]
    ]

byte_is_no_end : (b : ℕ) → b < 256 → (get_or manchester_table b 0 == tp_idl_word) ≡ false
byte_is_no_end b h = elim (Bool-cases (get_or manchester_table b 0 == tp_idl_word)) [
  | inl same ↦ cc (
    ap read_word ((==_iff _ _).0 same),
    end_is_no_byte,
    read_word-manchester_word b h,
    manchester_table-eq b h,
  )
  | inr other ↦ other
]

read_line-words :
    (bs rest : List ℕ) → All IsByte bs → read_line (table_words bs ++ tp_idl_word ∷ rest) ≡ some bs
unfolding read_line
read_line-words [] rest h = refl
read_line-words (b ∷ bs) rest h =
    rw
      (
        byte_is_no_end b h.0,
        manchester_table-eq b h.0,
        read_word-manchester_word b h.0,
        read_line-words bs rest h.1,
      )
      refl

-- A receiver of the line gets the preamble, the delimiter and the frame, whatever follows.
pub read_line-line :
    (frame rest : List ℕ)
    → All IsByte frame
    → read_line (line frame ++ rest) ≡ some (preamble_sfd ++ frame)
read_line-line frame rest h =
    ap read_line regroup
    ∙ read_line-words (preamble_sfd ++ frame) rest
        (All-append IsByte preamble_sfd frame (omega arith) h)
  where
    regroup : line frame ++ rest ≡ table_words (preamble_sfd ++ frame) ++ tp_idl_word ∷ rest
    regroup = simp append_assoc
