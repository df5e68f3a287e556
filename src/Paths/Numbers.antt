-- ===== src/Paths/Numbers.antt =====
-- That the numbers in the names of src/tioj/paths.cpp can be read back: `PadInt`.
use tioj_judge.Base.{
  ℕ, zero, suc, ◌+◌, ◌-◌, ◌*◌, ◌/◌, ◌%◌, ◌≤◌, ◌<◌, ◌≡◌, ◌∙◌, refl, inl, inr, List, [], ◌∷◌, ◌++◌,
  arith, ltb, Bool-cases, Holds-if, length, replicate, All,
}
use tioj_judge.Base.Int.{pos}
use tioj_judge.Paths.{Name, digits, to_string, pad_int}

-- The number that the digits stand for, after `a`.
unfoldable pub value_from : ℕ → Name → ℕ
value_from a [] = a
value_from a (c ∷ cs) = value_from (a * 10 + (c - 48)) cs

abbrev pub IsDigit : ℕ → Type 0
IsDigit c = (48 ≤ c) × (c < 58)

value_from-append :
    (a : ℕ) (xs ys : Name) → value_from a (xs ++ ys) ≡ value_from (value_from a xs) ys
unfolding value_from
value_from-append a [] ys = refl
value_from-append a (x ∷ xs) ys = value_from-append (a * 10 + (x - 48)) xs ys

value_from-digits : (fuel n : ℕ) → n ≤ fuel → value_from 0 (digits fuel n) ≡ n
unfolding value_from digits
value_from-digits zero n h = omega arith
value_from-digits (suc fuel) n h = elim (Bool-cases (ltb n 10)) [
  | inl b ↦ rw b (omega arith)
  | inr b ↦
      rw
        (
          b,
          value_from-append 0 (digits fuel (n / 10)) ((48 + n % 10) ∷ []),
          value_from-digits fuel (n / 10) (ground (arith, b)),
        )
        (omega arith)
]

pub All-append :
    {A : Type 0} (P : A → Type 0) (xs ys : List A) → All P xs → All P ys → All P (xs ++ ys)
All-append P [] ys h k = k
All-append P (x ∷ xs) ys h k = (h.0, All-append P xs ys h.1 k)

pub digits-IsDigit : (fuel n : ℕ) → n ≤ fuel → All IsDigit (digits fuel n)
unfolding digits
digits-IsDigit zero n h = (omega arith, tt)
digits-IsDigit (suc fuel) n h =
    Holds-if (All IsDigit) (ltb n 10) _ _ (λ b. (ground (arith, b), tt))
      (λ b.
        All-append IsDigit (digits fuel (n / 10)) ((48 + n % 10) ∷ [])
          (digits-IsDigit fuel (n / 10) (ground (arith, b))) (omega arith, tt))

pub value_from-zeros : (k : ℕ) (xs : Name) → value_from 0 (replicate k 48 ++ xs) ≡ value_from 0 xs
unfolding value_from
value_from-zeros zero xs = refl
value_from-zeros (suc k) xs = value_from-zeros k xs

pub zeros-IsDigit : (k : ℕ) → All IsDigit (replicate k 48)
zeros-IsDigit zero = tt
zeros-IsDigit (suc k) = (omega arith, zeros-IsDigit k)

pub value_from-to_string : (n : ℕ) → value_from 0 (to_string (pos n)) ≡ n
unfolding to_string
value_from-to_string n = value_from-digits n n (omega arith)

pub value_from-pad_int : (n width : ℕ) → value_from 0 (pad_int (pos n) width) ≡ n
unfolding pad_int to_string
value_from-pad_int n width =
    Holds-if (λ x. value_from 0 x ≡ n) (ltb (length (digits n n)) width) _ _
      (λ b. value_from-zeros (width - length (digits n n)) (digits n n) ∙ value_from-to_string n)
      (λ b. value_from-to_string n)

pub pad_int-IsDigit : (n width : ℕ) → All IsDigit (pad_int (pos n) width)
unfolding pad_int to_string
pad_int-IsDigit n width =
    let ds = digits-IsDigit n n (omega arith) in
    Holds-if (All IsDigit) (ltb (length (digits n n)) width) _ _
      (λ b.
        All-append IsDigit (replicate (width - length (digits n n)) 48) (digits n n)
          (zeros-IsDigit (width - length (digits n n))) ds)
      (λ b. ds)
