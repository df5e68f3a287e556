-- ===== src/Handler/Score.antt =====
-- The bounds of `NormalizeScore` (src/tioj/submission.cpp), from what the machine promises of
-- `long double` and of `std::lround`.
use tioj_judge.Base.{◌≡◌, ◌∙◌, refl, subst, false, arith, if◌then◌else◌, Bool-cases, inl, inr}
use tioj_judge.Base.Int.{ℤ, pos, negsuc, ◌≤ℤ◌, ltb_ℤ}
use tioj_judge.Handler.{LongDouble, normalize_score, million, minus_million}

-- The scores are between these.
abbrev pub most : ℤ
most = pos 1000000000000

abbrev pub least : ℤ
least = negsuc 999999999999

abbrev pub IsSmall : ℤ → Type 0
IsSmall z = (least ≤ℤ z) × (z ≤ℤ most)

-- `IsNumber` excludes NaN. Integers of the size of the scores are exact, and so are the two products of
-- the bounds; products with a million keep the order, and so does `lround` on numbers between those
-- integers, each of which it gives back.
pub record LongDoubleLaws (d : LongDouble) : Type 1 where
  pub IsNumber : d.F → Type 0
  pub of_int_number : (z : ℤ) → IsSmall z → IsNumber (d.of_int z)
  pub lt_irrefl : (x : d.F) → d.lt x x ≡ false
  pub of_int_lt : (a b : ℤ) → IsSmall a → IsSmall b → d.lt (d.of_int a) (d.of_int b) ≡ ltb_ℤ a b
  pub mul_le :
      (x y : d.F)
      → IsNumber x
      → IsNumber y
      → d.lt y x ≡ false
      → (d.lt (d.mul y (d.of_int million)) (d.mul x (d.of_int million)) ≡ false)
        × IsNumber (d.mul x (d.of_int million))
        × IsNumber (d.mul y (d.of_int million))
  pub top_product : d.mul (d.of_int million) (d.of_int million) ≡ d.of_int most
  pub bottom_product : d.mul (d.of_int minus_million) (d.of_int million) ≡ d.of_int least
  pub lround_of_int : (z : ℤ) → IsSmall z → d.lround (d.of_int z) ≡ z
  pub lround_le :
      (x y : d.F)
      → IsNumber x
      → IsNumber y
      → d.lt x (d.of_int least) ≡ false
      → d.lt y x ≡ false
      → d.lt (d.of_int most) y ≡ false
      → d.lround x ≤ℤ d.lround y

module _ (d : LongDouble) (laws : LongDoubleLaws d) where
  open laws use {IsNumber}

  abbrev capped : d.F → d.F
  capped score = if d.lt (d.of_int million) score then d.of_int million else score

  abbrev clamped : d.F → d.F
  clamped score =
      if d.lt (capped score) (d.of_int minus_million) then d.of_int minus_million else capped score

  most_score : IsSmall most
  most_score = (ground arith, ground arith)

  least_score : IsSmall least
  least_score = (ground arith, ground arith)

  -- What each test leaves.
  capped_lem :
      (score : d.F)
      → IsNumber score
      → IsNumber (capped score) × (d.lt (d.of_int million) (capped score) ≡ false)
  capped_lem score n = elim (Bool-cases (d.lt (d.of_int million) score)) [
    | inl b ↦
        rw b (
          laws.of_int_number million (ground arith, ground arith),
          laws.lt_irrefl (d.of_int million),
        )
    | inr b ↦ rw b (n, b)
  ]

  clamped_lem :
      (score : d.F)
      → IsNumber score
      → IsNumber (clamped score)
        × (d.lt (d.of_int million) (clamped score) ≡ false)
        × (d.lt (clamped score) (d.of_int minus_million) ≡ false)
  clamped_lem score n =
      let (k, l) = capped_lem score n in
      elim (Bool-cases (d.lt (capped score) (d.of_int minus_million))) [
        | inl b ↦ rw b (
          laws.of_int_number minus_million (ground arith, ground arith),
          laws.of_int_lt million minus_million (ground arith, ground arith)
                (ground arith, ground arith)
              ∙ refl,
          laws.lt_irrefl (d.of_int minus_million),
        )
        | inr b ↦ rw b (k, l, b)
      ]

  -- A score that is a number is normalized to at most 10^12 and at least -10^12.
  pub normalize_score-le :
      (score : d.F)
      → IsNumber score
      → (normalize_score d score ≤ℤ pos 1000000000000)
        × (negsuc 999999999999 ≤ℤ normalize_score d score)
  unfolding normalize_score
  normalize_score-le score n =
      let (k, below, above) = clamped_lem score n in
      let m : d.F = d.of_int million in
      let (p, i, j) =
        laws.mul_le (clamped score) m k (laws.of_int_number million (ground arith, ground arith))
          below in
      let (q, s, t) =
        laws.mul_le (d.of_int minus_million) (clamped score)
          (laws.of_int_number minus_million (ground arith, ground arith)) k above in
      let x = d.mul (clamped score) m in
      let low : d.lt x (d.of_int least) ≡ false = rw laws.bottom_product at q in
      let high : d.lt (d.of_int most) x ≡ false = rw laws.top_product at p in
      (
        subst (λ z. d.lround x ≤ℤ z) (laws.lround_of_int most most_score)
            (laws.lround_le x (d.of_int most) i (laws.of_int_number most most_score) low high
              (laws.lt_irrefl (d.of_int most))),
        subst (λ z. z ≤ℤ d.lround x) (laws.lround_of_int least least_score)
            (laws.lround_le (d.of_int least) x (laws.of_int_number least least_score) i
              (laws.lt_irrefl (d.of_int least)) low high),
      )
