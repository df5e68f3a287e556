-- ===== src/Handler/Meta/Scores.antt =====
-- That a score can be read from the text that `ScoreToString` (src/tioj/submission.cpp) makes of it.
use tioj_judge.Base.{
  All, ℕ, zero, suc, ◌+◌, ◌-◌, ◌*◌, ◌/◌, ◌%◌, ◌≤◌, ◌<◌, ◌≡◌, ◌∙◌, refl, inl, inr, true, false, [],
  ◌∷◌, ◌++◌, some, arith, ltb, Bool-cases, length, replicate,
}
use tioj_judge.Base.Int.{pos}
use tioj_judge.Paths.{Name, digits, to_string}
use tioj_judge.Paths.Numbers.{
  value_from, IsDigit, All-append, digits-IsDigit, zeros-IsDigit, value_from-to_string,
  value_from-zeros,
}
use tioj_judge.Handler.Meta.{score_to_string}

unfoldable tens : ℕ → ℕ
tens zero = 1
tens (suc k) = 10 * tens k

length_snoc : (xs : Name) (c : ℕ) → length (xs ++ (c ∷ [])) ≡ suc (length xs)
length_snoc [] c = refl
length_snoc (x ∷ xs) c = let rest = length_snoc xs c in omega (arith, rest)

length-digits : (k fuel n : ℕ) → n < tens (suc k) → length (digits fuel n) ≤ suc k
unfolding digits tens
length-digits k zero n h = omega arith
length-digits zero (suc fuel) n h = rw (let b : ltb n 10 ≡ true = ground arith in b) (omega arith)
length-digits (suc k) (suc fuel) n h = elim (Bool-cases (ltb n 10)) [
  | inl b ↦ rw b (omega arith)
  | inr b ↦
      let small : n / 10 < tens (suc k) = omega (arith, h) in
      let rest = length-digits k fuel (n / 10) small in
      rw (b, length_snoc (digits fuel (n / 10)) (48 + n % 10)) (omega (arith, rest))
]

length-replicate_append : (k : ℕ) (xs : Name) → length (replicate k 48 ++ xs) ≡ k + length xs
length-replicate_append zero xs = omega arith
length-replicate_append (suc k) xs = let rest = length-replicate_append k xs in omega (arith, rest)

-- ScoreToString of a score of at least 0 gives the decimal digits of its whole part, a point, and exactly
-- six decimal digits that stand for the millionths.
pub score_to_string-value_from :
    (n : ℕ)
    → (a : Name) × (b : Name) × (score_to_string (pos n) ≡ some (a ++ (46 ∷ b)))
      × All IsDigit a
      × (value_from 0 a ≡ n / 1000000)
      × All IsDigit b
      × (length b ≡ 6)
      × (value_from 0 b ≡ n % 1000000)
unfolding score_to_string to_string tens
score_to_string-value_from n =
    let r = n % 1000000 in
    let ds = digits r r in
    let short : length ds ≤ 6 = length-digits 5 r r (omega arith) in
    let b : ltb 6 (length ds) ≡ false = ground (arith, short) in
    (
      to_string (pos (n / 1000000)),
      replicate (6 - length ds) 48 ++ ds,
      rw b refl,
      digits-IsDigit (n / 1000000) (n / 1000000) (omega arith),
      value_from-to_string (n / 1000000),
      All-append IsDigit (replicate (6 - length ds) 48) ds (zeros-IsDigit (6 - length ds))
          (digits-IsDigit r r (omega arith)),
      length-replicate_append (6 - length ds) ds ∙ omega (arith, short),
      value_from-zeros (6 - length ds) ds ∙ value_from-to_string r,
    )
