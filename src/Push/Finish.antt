-- ===== src/Push/Finish.antt =====
-- The insertions at the end of `PushSubmission`, and the function as a whole.
use tioj_judge.Base.{
  ℕ, suc, ◌-◌, ◌≤◌, ◌<◌, ◌≡◌, refl, Bool, true, false, ◌&&◌, ◌||◌, not, [], ◌∷◌, arith, ltb, ◌==◌,
  some, length,
}
use tioj_judge.Graph.{Task, compile, execute, scoring, summary}
use tioj_judge.Submission.{Submission}
use tioj_judge.Push.{insert}
use tioj_judge.Push.Plan.{
  for_up, clamp_stages, testdata_ops, first_prob, insert_executes, insert_scorings, plan,
}
use tioj_judge.Push.Runs.{
  Seen, with_task, without_task, Runs, Runs-append, Runs-before, Runs-after, Runs-for_up,
}
use tioj_judge.Push.Testdata.{td_seen, testdata_ops-Runs}
use tioj_judge.Push.Total.{all_compile_ops-Runs}

-- What is left when the executions of the first `k` of `m` testdata, and `j` of the next, are moved.
abbrev executes_left : Bool → ℕ → ℕ → ℕ → ℕ → Seen
executes_left b n m k j (execute i l) = (ltb i m && ltb l n) && not (ltb i k || (i == k && ltb l j))
executes_left b n m k j u = td_seen b n m 0 u

-- And when no execution is left, the same for the scorings.
abbrev scorings_left : Bool → ℕ → ℕ → ℕ → ℕ → Seen
scorings_left b n m k j (compile c) = false
scorings_left b n m k j (execute i l) = false
scorings_left true n m k j (scoring i l) =
    (ltb i m && ltb l n) && not (ltb i k || (i == k && ltb l j))
scorings_left false n m k j (scoring i l) = (ltb i m && l == n - 1) && not (ltb i k)
scorings_left b n m k j summary = true

execute_next :
    (b : Bool) (n m k j : ℕ) (u : Task)
    → without_task (execute k j) (executes_left b n m k j) u ≡ executes_left b n m k (suc j) u
execute_next b n m k j (compile c) = refl
execute_next b n m k j (execute i l) = ground arith
execute_next b n m k j (scoring i l) = refl
execute_next b n m k j summary = refl

execute_done :
    (b : Bool) (n m k : ℕ) (u : Task) → executes_left b n m k n u ≡ executes_left b n m (suc k) 0 u
execute_done b n m k (compile c) = refl
execute_done b n m k (execute i l) = ground arith
execute_done b n m k (scoring i l) = refl
execute_done b n m k summary = refl

insert_executes-Runs :
    (b : Bool) (n m k : ℕ)
    → k < m
    → Runs (executes_left b n m k 0) (insert_executes n k) (executes_left b n m (suc k) 0)
unfolding insert_executes
insert_executes-Runs b n m k h =
    Runs-after (executes_left b n m k 0) (executes_left b n m k n) (executes_left b n m (suc k) 0)
      (for_up n 0 (λ j. insert (execute k j) ∷ []))
      (Runs-for_up (executes_left b n m k) (λ j. insert (execute k j) ∷ []) n 0 n (omega arith)
        (λ j i. (ground arith, execute_next b n m k j)))
      (execute_done b n m k)

scoring_next :
    (n m k j : ℕ) (u : Task)
    → without_task (scoring k j) (scorings_left true n m k j) u ≡ scorings_left true n m k (suc j) u
scoring_next n m k j (compile c) = refl
scoring_next n m k j (execute i l) = refl
scoring_next n m k j (scoring i l) = ground arith
scoring_next n m k j summary = refl

scoring_done :
    (n m k : ℕ) (u : Task) → scorings_left true n m k n u ≡ scorings_left true n m (suc k) 0 u
scoring_done n m k (compile c) = refl
scoring_done n m k (execute i l) = refl
scoring_done n m k (scoring i l) = ground arith
scoring_done n m k summary = refl

scoring_last :
    (n m k : ℕ) (u : Task)
    → without_task (scoring k (n - 1)) (scorings_left false n m k 0) u
      ≡ scorings_left false n m (suc k) 0 u
scoring_last n m k (compile c) = refl
scoring_last n m k (execute i l) = refl
scoring_last n m k (scoring i l) = ground arith
scoring_last n m k summary = refl

insert_scorings-Runs :
    (b : Bool) (n m k : ℕ)
    → k < m
    → 0 < n
    → Runs (scorings_left b n m k 0) (insert_scorings b n k) (scorings_left b n m (suc k) 0)
unfolding insert_scorings
insert_scorings-Runs true n m k h p =
    Runs-after (scorings_left true n m k 0) (scorings_left true n m k n)
      (scorings_left true n m (suc k) 0) (for_up n 0 (λ j. insert (scoring k j) ∷ []))
      (Runs-for_up (scorings_left true n m k) (λ j. insert (scoring k j) ∷ []) n 0 n (omega arith)
        (λ j i. (ground arith, scoring_next n m k j)))
      (scoring_done n m k)
insert_scorings-Runs false n m k h p = (ground arith, scoring_last n m k)

abbrev pub no_task : Seen
no_task u = false

first_td : (b : Bool) (n : ℕ) (u : Task) → with_task summary no_task u ≡ td_seen b n 0 0 u
first_td b n (compile c) = refl
first_td b n (execute i l) = ground arith
first_td true n (scoring i l) = ground arith
first_td false n (scoring i l) = ground arith
first_td b n summary = refl

to_executes : (b : Bool) (n m : ℕ) (u : Task) → td_seen b n m 0 u ≡ executes_left b n m 0 0 u
to_executes b n m (compile c) = refl
to_executes b n m (execute i l) = ground arith
to_executes b n m (scoring i l) = refl
to_executes b n m summary = refl

to_scorings :
    (b : Bool) (n m : ℕ) (u : Task) → executes_left b n m m 0 u ≡ scorings_left b n m 0 0 u
to_scorings b n m (compile c) = refl
to_scorings b n m (execute i l) = ground arith
to_scorings true n m (scoring i l) = ground arith
to_scorings false n m (scoring i l) = ground arith
to_scorings b n m summary = refl

to_nothing :
    (b : Bool) (n m : ℕ) (u : Task) → without_task summary (scorings_left b n m m 0) u ≡ no_task u
to_nothing b n m (compile c) = refl
to_nothing b n m (execute i l) = refl
to_nothing true n m (scoring i l) = ground arith
to_nothing false n m (scoring i l) = ground arith
to_nothing b n m summary = refl

clamp_bounds : (k : ℕ) → (0 < clamp_stages k) × (clamp_stages k ≤ 32)
unfolding clamp_stages
clamp_bounds k = ground arith

-- The calls of the whole function find every entry that they name, and leave no local entry.
pub plan-Runs :
    (sub : Submission) (order : ℕ → ℕ)
    → ((s : ℕ) → first_prob sub.problem_prog_stages ≡ some s → s < clamp_stages sub.stages)
    → Runs no_task (plan sub order) no_task
unfolding plan
plan-Runs sub order in_range =
    let b = sub.judge_between_stages in
    let n = clamp_stages sub.stages in
    let m = length sub.testdata in
    let (pos_n, le_n) = clamp_bounds sub.stages in
    (
      refl,
      Runs-before (with_task summary no_task) (td_seen b n 0 0) no_task _ (first_td b n) (
          Runs-append (td_seen b n 0 0) (td_seen b n m 0) no_task _ _
            (Runs-for_up (λ k. td_seen b n k 0) (testdata_ops b n order) m 0 m (omega arith)
              (λ k h. testdata_ops-Runs b n order k pos_n le_n))
            (Runs-append (td_seen b n m 0) (td_seen b n m 0) no_task _ _
              (all_compile_ops-Runs sub n m pos_n in_range)
              (Runs-before (td_seen b n m 0) (executes_left b n m 0 0) no_task _ (to_executes b n m)
                (Runs-append (executes_left b n m 0 0) (executes_left b n m m 0) no_task _ _
                  (Runs-for_up (λ k. executes_left b n m k 0) (insert_executes n) m 0 m
                    (omega arith) (insert_executes-Runs b n m))
                  (Runs-before (executes_left b n m m 0) (scorings_left b n m 0 0) no_task _
                    (to_scorings b n m)
                    (Runs-append (scorings_left b n m 0 0) (scorings_left b n m m 0) no_task _ _
                      (Runs-for_up (λ k. scorings_left b n m k 0) (insert_scorings b n) m 0 m
                        (omega arith) (λ k h. insert_scorings-Runs b n m k h pos_n))
                      (refl, to_nothing b n m))))))),
    )
