-- ===== src/Handler/Scoring.antt =====
-- `SetupScoring` and `FinalizeScoring` of src/tioj/submission.cpp: whether a judge is run, and what its
-- answer does to the testdata. Copying and removing files is left out.
pub mod Outcome
use tioj_judge.Base.{
  ℕ, zero, suc, ◌+◌, ◌-◌, Bool, true, false, not, ◌&&◌, ◌||◌, List, [], ◌∷◌, Option, none, some,
  ◌==◌, if◌then◌else◌,
}
use tioj_judge.Base.Int.{ℤ, pos}
use tioj_judge.Order.{has_group}
use tioj_judge.Verdict.{Verdict, wa, rank}
use tioj_judge.Submission.{Submission, TestdataResult, CjailResult, SpecjudgeType, skip}
use tioj_judge.Handler.{LongDouble, Cancelled, is_cancelled, cancel_groups}
use tioj_judge.Handler.Execute.{no_run}
use tioj_judge.Handler.Specjudge.{Istream}
use tioj_judge.Handler.Judges.{JudgeFiles, read_specjudge}

-- The result of the testdata, the cancellations, and whether the result is reported.
pub record Scored : Type 0 where
  pub result : TestdataResult
  pub cancelled : Cancelled
  pub reported : Bool

-- The last stage settles the verdict; an earlier one that has a verdict skips the stages after it.
unfoldable pub settle : Bool → TestdataResult → TestdataResult
settle last_stage td =
    if not last_stage && not (rank td.verdict == 0)
    then record td { skip_stage = true }
    else if last_stage && rank td.verdict == 0
    then record td { verdict = wa }
    else td

-- The groups of a testdata that is not accepted, where a failed group is skipped.
unfoldable pub cancel_failed : Submission → List ℕ → TestdataResult → Cancelled → Cancelled
unfolding cancel_groups
cancel_failed sub groups td c =
    if sub.skip_group && (not (rank td.verdict == 0) && not (rank td.verdict == 1))
    then record c {
      cancelled_group = cancel_groups sub.submission_internal_id groups c.cancelled_group;
    }
    else c

module _ (d : LongDouble) (i : Istream d) where
  abbrev pub judge_answer :
      ℕ
      → Submission
      → Bool
      → Option (CjailResult × JudgeFiles d i)
      → TestdataResult
      → Option TestdataResult
  judge_answer fuel sub last_stage none td = some td
  judge_answer fuel sub last_stage (some (res, files)) td =
      read_specjudge d i fuel sub res last_stage files td

  -- After the judge's answer.
  unfoldable pub conclude : Submission → List ℕ → Bool → Cancelled → TestdataResult → Scored
  unfolding settle cancel_failed has_group
  conclude sub groups last_stage c td =
      let td' = settle last_stage td in
      let c' = cancel_failed sub groups td' c in
      record {
        result = td';
        cancelled = c';
        reported =
            not (has_group sub.submission_internal_id c'.cancelled_list)
            && (sub.report_intermediate_stage || (last_stage || td'.skip_stage));
      }

  -- FinalizeScoring; `none` for the answer is `skipped`. `groups` are those of the testdata.
  unfoldable pub finalize_scoring :
      ℕ
      → Submission
      → List ℕ
      → ℕ
      → Option (CjailResult × JudgeFiles d i)
      → Cancelled
      → TestdataResult
      → Option Scored
  unfolding read_specjudge conclude
  finalize_scoring fuel sub groups stage answer c td =
      let last_stage = stage == sub.stages - 1 in
      elim (judge_answer fuel sub last_stage answer (record td { score = pos 0 })) [
        | none ↦ none
        | some td' ↦ some (conclude sub groups last_stage c td')
      ]

  -- The judge runs, the task ends with nothing changed, or it ends with `FinalizeScoring` done.
  pub data Setup : Type 0 where
    runs : Setup
    left_out : Setup
    settled : Option Scored → Setup

  abbrev pub is_skip : SpecjudgeType → Bool
  is_skip skip = true
  is_skip _ = false

  -- SetupScoring, for a submission whose verdict is `overall`. `files` are those of a judge of kind
  -- SKIP, whose answer is the output of the user's program.
  unfoldable pub setup_scoring :
      ℕ → Submission → Verdict → List ℕ → ℕ → JudgeFiles d i → Cancelled → TestdataResult → Setup
  unfolding is_cancelled finalize_scoring
  setup_scoring fuel sub overall groups stage files c td =
      if not (rank overall == 0)
        || (is_cancelled c sub.submission_internal_id groups || td.skip_stage)
      then left_out
      else if not (rank td.verdict == 0) && not sub.judge_abnormally_terminated
      then settled (finalize_scoring fuel sub groups stage none c td)
      else if is_skip sub.specjudge_type
      then settled (finalize_scoring fuel sub groups stage (some (no_run, files)) c td)
      else runs
