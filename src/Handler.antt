-- ===== src/Handler.antt =====
-- What the handlers of the tasks read and change (src/tioj/submission.cpp): the submissions being judged
-- and the cancellations, with `IsCancelled` and `NormalizeScore`.
pub mod Execute
pub mod Summary
pub mod Compile
pub mod Score
pub mod Cancel
mod Tests
pub mod Specjudge
pub mod Judges
pub mod Scoring
pub mod Registry
pub mod Meta
use tioj_judge.Base.{
  ℕ, zero, suc, ◌≡◌, Bool, true, false, not, ◌&&◌, ◌||◌, List, [], ◌∷◌, ◌++◌, Option, none, some,
  ◌==◌, if◌then◌else◌,
}
use tioj_judge.Base.Int.{ℤ, pos, negsuc, ltb_ℤ}
use tioj_judge.Order.{has_group, covers}
use tioj_judge.Submission.{Submission, SubmissionResult}

-- Comparisons that the source writes on `long` and `int`.
abbrev pub eq_ℤ : ℤ → ℤ → Bool
eq_ℤ (pos a) (pos b) = a == b
eq_ℤ (negsuc a) (negsuc b) = a == b
eq_ℤ _ _ = false

abbrev pub is_zero : ℤ → Bool
is_zero (pos zero) = true
is_zero _ = false

abbrev pub max_ℤ : ℤ → ℤ → ℤ
max_ℤ a b = if ltb_ℤ a b then b else a

abbrev pub min_ℤ : ℤ → ℤ → ℤ
min_ℤ a b = if ltb_ℤ b a then b else a

-- `SubmissionAndResult` (src/tioj/submission.h)
pub record SubmissionAndResult : Type 0 where
  pub sub : Submission
  pub result : SubmissionResult

-- A map by internal id: the first entry of a key counts.
unfoldable pub lookup {ℓ} : {A : Type ℓ} → ℕ → List (ℕ × A) → Option A
lookup x [] = none
lookup x ((k, a) ∷ es) = if k == x then some a else lookup x es

-- `cancelled_list` and `cancelled_group`
pub record Cancelled : Type 0 where
  pub cancelled_list : List ℕ
  pub cancelled_group : List (ℕ × List ℕ)

abbrev pub is_nil : List ℕ → Bool
is_nil [] = true
is_nil (x ∷ xs) = false

abbrev pub group_cancelled : Option (List ℕ) → List ℕ → Bool
group_cancelled none groups = false
group_cancelled (some cancelled) groups = not (is_nil groups) && covers cancelled groups

-- IsCancelled
unfoldable pub is_cancelled : Cancelled → ℕ → List ℕ → Bool
unfolding lookup has_group covers
is_cancelled c id groups =
    has_group id c.cancelled_list || group_cancelled (lookup id c.cancelled_group) groups

-- cancelled_group[id].insert(groups.begin(), groups.end())
unfoldable pub cancel_groups : ℕ → List ℕ → List (ℕ × List ℕ) → List (ℕ × List ℕ)
cancel_groups id groups [] = (id, groups) ∷ []
cancel_groups id groups ((k, gs) ∷ es) =
    if k == id then (k, groups ++ gs) ∷ es else (k, gs) ∷ cancel_groups id groups es

-- The machine's `long double`: numbers and their operations, as far as the scores use them.
pub record LongDouble : Type 1 where
  pub F : Type 0
  pub of_int : ℤ → F
  pub lt : F → F → Bool
  pub mul : F → F → F
  pub div : F → F → F
  pub lround : F → ℤ

-- kMax of NormalizeScore, and the scale of the scores.
abbrev pub million : ℤ
million = pos 1000000

abbrev pub minus_million : ℤ
minus_million = negsuc 999999

-- NormalizeScore
unfoldable pub normalize_score : (d : LongDouble) → d.F → ℤ
normalize_score d score =
    let low = if d.lt (d.of_int million) score then d.of_int million else score in
    let high = if d.lt low (d.of_int minus_million) then d.of_int minus_million else low in
    d.lround (d.mul high (d.of_int million))
