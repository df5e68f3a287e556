-- ===== src/Handler/Summary.antt =====
-- `SetupSummary` and `FinalizeSummary` of src/tioj/submission.cpp: the verdict, the times and the scores
-- of a submission. Handler/Registry has the program of a custom summary; files are left out.
pub mod Overall
pub mod Groups
use tioj_judge.Base.{
  ℕ, zero, suc, ◌+◌, Bool, true, false, not, ◌&&◌, List, [], ◌∷◌, Option, none, some, ltb, ◌==◌,
  if◌then◌else◌, length, get_elem?, set, replicate,
}
use tioj_judge.Base.Int.{ℤ, pos, negsuc, ◌+ℤ◌, ◌*ℤ◌}
use tioj_judge.Verdict.{Verdict, nul, ac, jce, rank}
use tioj_judge.Submission.{
  Submission, TestdataItem, TestdataResult, SubmissionResult, SummaryType, no_summary,
  custom_summary,
}
use tioj_judge.Handler.{eq_ℤ, max_ℤ, min_ℤ, LongDouble, normalize_score}

-- The loop over the results in `SetupSummary`; `none` is a result past the testdata.
unfoldable pub worst_verdict : Verdict → List TestdataItem → List TestdataResult → Option Verdict
worst_verdict v items [] = some v
worst_verdict v [] (td ∷ tds) = none
worst_verdict v (item ∷ items) (td ∷ tds) =
    worst_verdict
      (if item.ignore_verdict then v else if ltb (rank v) (rank td.verdict) then td.verdict else v)
      items tds

-- The verdict after the first part of `SetupSummary`.
unfoldable pub summary_verdict : Submission → SubmissionResult → Option Verdict
unfolding worst_verdict
summary_verdict sub res =
    if rank res.verdict == 0 then worst_verdict ac sub.testdata res.td_results else some res.verdict

abbrev has_program : SummaryType → Bool
has_program custom_summary = true
has_program no_summary = false

-- What `SetupSummary` returns, for the verdict that it has set.
abbrev pub setup_summary : Submission → Verdict → Bool
setup_summary sub v = has_program sub.summary_type && not (rank v == 12)

-- kInfScore
abbrev pub inf_score : ℤ
inf_score = pos 2000000000000

abbrev pub full_score : ℤ
full_score = pos 100000000

abbrev pub lower_at : List ℤ → ℕ → ℤ → Option ℤ → Option (List ℤ)
lower_at scores g score (some old) = some (set scores g (min_ℤ old score))
lower_at scores g score none = none

-- The loop over the groups of a testdata; `none` is a group that has no score.
unfoldable pub lower_groups : List ℕ → ℤ → List ℤ → Option (List ℤ)
lower_groups [] score scores = some scores
lower_groups (g ∷ gs) score scores = elim (lower_at scores g score (get_elem? scores g)) [
  | none ↦ none
  | some scores' ↦ lower_groups gs score scores'
]

-- The loop over the results: `subtask_scores`, total memory and total time.
pub record Totals : Type 0 where
  pub memory : ℤ
  pub time : ℤ
  pub subtask_scores : List ℤ

unfoldable pub sum_results : List TestdataItem → List TestdataResult → Totals → Option Totals
unfolding lower_groups
sum_results items [] t = some t
sum_results [] (td ∷ tds) t = none
sum_results (item ∷ items) (td ∷ tds) t =
    let skipped = sum_results items tds t in
    let counted : Option Totals = elim (lower_groups item.td_groups td.score t.subtask_scores) [
      | none ↦ none
      | some scores ↦ sum_results items tds (record {
        memory = max_ℤ t.memory td.rss;
        time = t.time +ℤ td.time;
        subtask_scores = scores;
      })
    ] in
    if item.ignore_verdict then skipped else counted

-- A group without a testdata counts in full.
abbrev pub group_result : ℤ → ℤ
group_result score = if eq_ℤ score inf_score then full_score else score

-- total_score, exact in `__int128_t`
unfoldable pub weigh : List ℤ → List ℤ → ℤ
weigh (s ∷ ss) (w ∷ ws) = (group_result s *ℤ w) +ℤ weigh ss ws
weigh _ _ = pos 0

abbrev pub no_totals : Submission → Totals
no_totals sub = record {
  memory = pos 0;
  time = pos 0;
  subtask_scores = replicate (length sub.group_score) inf_score;
}

-- 100'000'000LL * 1'000'000
abbrev pub score_unit : ℤ
score_unit = pos 100000000000000

-- The first part of `FinalizeSummary`: the verdict is below CE, or there is no score.
unfoldable pub summary_totals :
    (d : LongDouble) → Submission → SubmissionResult → Option SubmissionResult
unfolding sum_results weigh normalize_score
summary_totals d sub res =
    let counted : Option SubmissionResult =
      elim (sum_results sub.testdata res.td_results (no_totals sub)) [
        | none ↦ none
        | some t ↦ some (record res {
          total_memory = t.memory;
          total_time = t.time;
          total_score =
              normalize_score d
                (d.div (d.of_int (weigh t.subtask_scores sub.group_score)) (d.of_int score_unit));
        })
      ] in
    if ltb (rank res.verdict) 10 then counted else some (record res { total_score = pos 0 })
