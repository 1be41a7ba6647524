-- ===== src/Pico10baseT/Checksum/Verify.antt =====
-- The closed form of the checksum, and how a receiver verifies it.
use pico_gnss.Base.{
  ℕ, zero, suc, ◌+◌, ◌-◌, ◌*◌, ◌%◌, ◌^◌, ◌<◌, ◌≤◌, ◌≡◌, ap, ◌∙◌, arith, List, [], ◌∷◌, ◌++◌, ◌==◌,
  if◌then◌else◌, length, All,
}
use pico_gnss.Base.Bytes.{IsByte, to_be_bytes}
use pico_gnss.Pico10baseT.Checksum.{u16_max, sum_words, fold_carries, ones_complement_checksum}

-- The sum of the 16-bit words, an odd byte last as a high half.
unfoldable pub word_total : List ℕ → ℕ
word_total [] = 0
word_total (a ∷ []) = a * 256
word_total (a ∷ b ∷ rest) = a * 256 + b + word_total rest

pub word_total_bound : (bs : List ℕ) → All IsByte bs → 2 * word_total bs ≤ (length bs + 1) * 65535
unfolding word_total
word_total_bound [] h = omega arith
word_total_bound (a ∷ []) h = omega arith
word_total_bound (a ∷ b ∷ rest) (ha, (hb, h)) = omega (arith, word_total_bound rest h)

-- No addition wraps where the whole sum fits a `u32`.
sum_words-eq :
    (bs : List ℕ) (sum : ℕ) → sum + word_total bs < 2 ^ 32 → sum_words bs sum ≡ sum + word_total bs
unfolding sum_words word_total
sum_words-eq [] sum h = omega arith
sum_words-eq (a ∷ []) sum h = omega arith
sum_words-eq (a ∷ b ∷ rest) sum h =
    ap (sum_words rest) wraps ∙ sum_words-eq rest (sum + (a * 256 + b)) (omega arith) ∙ omega arith
  where
    wraps : (sum + (a * 256 + b)) % 2 ^ 32 ≡ sum + (a * 256 + b)
    wraps = omega arith

-- The carry loop ends with the high half empty: the remainder by 65535, with 65535 for zero.
pub fold_carries-eq :
    (s : ℕ) → s < 2 ^ 32 → fold_carries 4 s ≡ (if s == 0 then 0 else (s - 1) % 65535 + 1)
unfolding fold_carries
fold_carries-eq s h = ground arith

pub checksum-eq :
    (bs : List ℕ) (initial : ℕ)
    → initial + word_total bs < 2 ^ 32
    → ones_complement_checksum bs initial ≡ (
        if initial + word_total bs == 0
        then u16_max
        else 65534 - (initial + word_total bs - 1) % 65535)
unfolding ones_complement_checksum
checksum-eq bs initial h =
    rw (sum_words-eq bs initial h, fold_carries-eq (initial + word_total bs) h) (ground arith)

-- Behind a front of whole words the sums add up.
pub word_total-append :
    (k : ℕ) (front back : List ℕ)
    → length front ≡ 2 * k
    → word_total (front ++ back) ≡ word_total front + word_total back
unfolding word_total
word_total-append k [] back e = omega arith
word_total-append k (a ∷ []) back e = absurd (omega arith)
word_total-append zero (a ∷ b ∷ rest) back e = absurd (omega arith)
word_total-append (suc k) (a ∷ b ∷ rest) back e =
    omega (arith, word_total-append k rest back (omega arith))

module _ (k : ℕ) (front back : List ℕ) (initial : ℕ) (whole : length front ≡ 2 * k)
    (fits : initial + word_total (front ++ 0 ∷ 0 ∷ back) + 65535 < 2 ^ 32) where
  total_with_field :
      (w : ℕ)
      → w < 2 ^ 16
      → word_total (front ++ (to_be_bytes 2 w ++ back)) ≡ word_total (front ++ 0 ∷ 0 ∷ back) + w
  unfolding word_total
  total_with_field w h = omega (
    arith,
    word_total-append k front (to_be_bytes 2 w ++ back) whole,
    word_total-append k front (0 ∷ 0 ∷ back) whole,
  )

  -- A block that carries the checksum of itself with a zero field sums to zero.
  pub checksum_verifies :
      ones_complement_checksum
        (front
          ++ (to_be_bytes 2 (ones_complement_checksum (front ++ 0 ∷ 0 ∷ back) initial) ++ back))
        initial
      ≡ 0
  checksum_verifies =
      let w : ℕ = ones_complement_checksum (front ++ 0 ∷ 0 ∷ back) initial in
      ground (
        arith,
        checksum-eq (front ++ 0 ∷ 0 ∷ back) initial,
        checksum-eq (front ++ (to_be_bytes 2 w ++ back)) initial,
        total_with_field w,
      )

  -- Where the checksum of a region with a zero field at an even place is put into that field, as
  -- 0xffff if it is zero, the region sums to zero, if the words of the region and the initial sum
  -- stay 65535 below 2^32.
  pub checksum_verifies_nonzero :
      let w = ones_complement_checksum (front ++ 0 ∷ 0 ∷ back) initial in
      ones_complement_checksum
        (front ++ (to_be_bytes 2 (if w == 0 then 0xffff else w) ++ back))
        initial
      ≡ 0
  checksum_verifies_nonzero =
      let w : ℕ = ones_complement_checksum (front ++ 0 ∷ 0 ∷ back) initial in
      ground (
        arith,
        checksum-eq (front ++ 0 ∷ 0 ∷ back) initial,
        checksum-eq (front ++ (to_be_bytes 2 w ++ back)) initial,
        checksum-eq (front ++ (to_be_bytes 2 0xffff ++ back)) initial,
        total_with_field w,
        total_with_field 0xffff,
      )
