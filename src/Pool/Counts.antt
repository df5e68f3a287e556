-- ===== src/Pool/Counts.antt =====
-- How often a user or a processor is with a running task, and the lists of the pools
-- (src/tioj/tasks.cpp).
use tioj_judge.Base.{
  ℕ, zero, suc, ◌+◌, ◌<◌, ◌≡◌, refl, List, [], ◌∷◌, ◌++◌, Option, none, some, arith, ◌==◌, length,
  Bool-cases, inl, inr, ap, ltb, leb, ◌&&◌,
}
use tioj_judge.Order.{up_from}
use tioj_judge.Graph.Count.{count, one_if}
use tioj_judge.Pool.{Running, put_running}

unfoldable pub uses_uid : ℕ → List Running → ℕ
uses_uid x [] = 0
uses_uid x (r ∷ rs) = one_if (r.uid == x) + uses_uid x rs

abbrev pub with_cpu : ℕ → Option ℕ → ℕ
with_cpu x none = 0
with_cpu x (some c) = one_if (c == x)

unfoldable pub uses_cpu : ℕ → List Running → ℕ
uses_cpu x [] = 0
uses_cpu x (r ∷ rs) = with_cpu x r.cpuid + uses_cpu x rs

pub uses_uid-last :
    (x : ℕ) (r : Running) (rs : List Running)
    → uses_uid x (rs ++ (r ∷ [])) ≡ uses_uid x rs + one_if (r.uid == x)
unfolding uses_uid
uses_uid-last x r [] = omega arith
uses_uid-last x r (s ∷ rs) = omega (arith, uses_uid-last x r rs)

pub uses_cpu-last :
    (x : ℕ) (r : Running) (rs : List Running)
    → uses_cpu x (rs ++ (r ∷ [])) ≡ uses_cpu x rs + with_cpu x r.cpuid
unfolding uses_cpu
uses_cpu-last x r [] = omega arith
uses_cpu-last x r (s ∷ rs) = omega (arith, uses_cpu-last x r rs)

pub uses_uid-put :
    (x : ℕ) (r : Running) (rs : List Running)
    → uses_uid x (put_running r rs) ≡ uses_uid x rs + one_if (r.uid == x)
unfolding uses_uid put_running
uses_uid-put x r [] = omega arith
uses_uid-put x r (s ∷ rs) = ground (arith, uses_uid-put x r rs)

pub uses_cpu-put :
    (x : ℕ) (r : Running) (rs : List Running)
    → uses_cpu x (put_running r rs) ≡ uses_cpu x rs + with_cpu x r.cpuid
unfolding uses_cpu put_running
uses_cpu-put x r [] = omega arith
uses_cpu-put x r (s ∷ rs) = elim (Bool-cases (ltb r.fd s.fd)) [
  | inl b ↦ rw b (omega arith)
  | inr b ↦ rw b (omega (arith, uses_cpu-put x r rs))
]

pub length-put : (r : Running) (rs : List Running) → length (put_running r rs) ≡ suc (length rs)
unfolding put_running
length-put r [] = refl
length-put r (s ∷ rs) = ground (arith, length-put r rs)

pub head_of : (xs : List ℕ) → 0 < length xs → (x : ℕ) × (rest : List ℕ) × (xs ≡ x ∷ rest)
head_of [] i = absurd (omega arith)
head_of (x ∷ xs) i = (x, xs, refl)

pub count-up_from : (x lo n : ℕ) → count x (up_from lo n) ≡ one_if (leb lo x && ltb x (lo + n))
unfolding count up_from
count-up_from x lo zero = ground arith
count-up_from x lo (suc n) = ground (arith, count-up_from x (suc lo) n)

pub length-up_from : (lo n : ℕ) → length (up_from lo n) ≡ n
unfolding up_from
length-up_from lo zero = refl
length-up_from lo (suc n) = ap suc (length-up_from (suc lo) n)
