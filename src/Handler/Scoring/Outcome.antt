-- ===== src/Handler/Scoring/Outcome.antt =====
-- What `FinalizeScoring` and `SetupScoring` of src/tioj/submission.cpp do to a testdata and to the
-- cancellations.
use tioj_judge.Base.{
  ℕ, ◌-◌, ◌<◌, ◌≡◌, ◌≢◌, refl, Bool, true, false, ◌&&◌, not, ◌==◌, List, [], Option, none, some,
  ◌||◌, arith, Bool-cases, Option-cases, inl, inr, ap, if◌then◌else◌,
}
use tioj_judge.Base.Int.{pos}
use tioj_judge.Verdict.{Verdict, rank, wa, jre}
use tioj_judge.Order.{has_group}
use tioj_judge.Submission.{skip, Submission, TestdataResult, CjailResult}
use tioj_judge.Handler.{LongDouble, Cancelled, is_cancelled}
use tioj_judge.Handler.Cancel.{cancel_groups_lem}
use tioj_judge.Handler.Execute.{no_run}
use tioj_judge.Handler.Specjudge.{Istream}
use tioj_judge.Handler.Specjudge.Overrides.{Fine, IstreamLaws}
use tioj_judge.Handler.Judges.{JudgeFiles, read_specjudge, judge_failed}
use tioj_judge.Handler.Judges.Verdicts.{Short, read_specjudge-Ends, Ends}
use tioj_judge.Handler.Scoring.{
  Scored, settle, cancel_failed, conclude, judge_answer, finalize_scoring, is_skip, setup_scoring,
  settled,
}

-- No cancellation is taken back.
abbrev pub Grows : Cancelled → Cancelled → Type 0
Grows c c' = (id : ℕ) (gs : List ℕ) → is_cancelled c id gs ≡ true → is_cancelled c' id gs ≡ true

-- What a finished scoring promises.
pub record Settled (sub : Submission) (groups : List ℕ) (last_stage : Bool) (c : Cancelled)
    (s : Scored) : Type 0 where
  pub fine : Fine s.result
  pub last : last_stage ≡ true → 0 < rank s.result.verdict
  pub early : last_stage ≡ false → 0 < rank s.result.verdict → s.result.skip_stage ≡ true
  pub grows : Grows c s.cancelled
  pub failed :
      sub.skip_group ≡ true
      → 1 < rank s.result.verdict
      → (gs : List ℕ) → gs ≢ []
      → ((x : ℕ) → has_group x gs ≡ true → has_group x groups ≡ true)
      → is_cancelled s.cancelled sub.submission_internal_id gs ≡ true

settle-Fine : (last : Bool) (td : TestdataResult) → Fine td → Fine (settle last td)
unfolding settle
settle-Fine last td f = ground arith

settle_last : (td : TestdataResult) → 0 < rank (settle true td).verdict
unfolding settle
settle_last td = ground arith

settle_early :
    (td : TestdataResult) → 0 < rank (settle false td).verdict → (settle false td).skip_stage ≡ true
unfolding settle
settle_early td h = ground arith

cancel_failed_lem :
    (sub : Submission) (groups : List ℕ) (td : TestdataResult) (c : Cancelled)
    → Grows c (cancel_failed sub groups td c)
      × (sub.skip_group ≡ true
          → 1 < rank td.verdict
          → (gs : List ℕ) → gs ≢ []
          → ((x : ℕ) → has_group x gs ≡ true → has_group x groups ≡ true)
          → is_cancelled (cancel_failed sub groups td c) sub.submission_internal_id gs ≡ true)
unfolding cancel_failed
cancel_failed_lem sub groups td c =
    let (grows, all) = cancel_groups_lem c sub.submission_internal_id groups in
    elim (Bool-cases
      (sub.skip_group && (not (rank td.verdict == 0) && not (rank td.verdict == 1)))) [
        | inl b ↦ rw b (grows, λ k r. all)
        | inr b ↦ rw b (λ id gs h. h, λ k r. absurd (ground (arith, k, r)))
      ]

conclude-Settled :
    (d : LongDouble) (i : Istream d) (sub : Submission) (groups : List ℕ) (last_stage : Bool)
    (c : Cancelled) (td : TestdataResult)
    → Fine td
    → Settled sub groups last_stage c (conclude d i sub groups last_stage c td)
unfolding conclude
conclude-Settled d i sub groups last_stage c td f =
    let (grows, all) = cancel_failed_lem sub groups (settle last_stage td) c in
    record {
      fine = settle-Fine last_stage td f;
      last = λ e. rw e (settle_last td);
      early = λ e. rw e (settle_early td);
      grows = grows;
      failed = all;
    }

module _ (d : LongDouble) (i : Istream d) where
  open i use {S}

  -- The fuel is more than the characters in the files of the judge.
  abbrev pub ShortAnswer : IstreamLaws d i → ℕ → Option (CjailResult × JudgeFiles d i) → Type 0
  ShortAnswer laws fuel none = Unit
  ShortAnswer laws fuel (some (res, files)) =
      Short d i laws fuel files.output × Short d i laws fuel files.kattis.judgemessage

  judge_answer-Ends :
      (laws : IstreamLaws d i) (fuel : ℕ) (sub : Submission) (last : Bool)
      (answer : Option (CjailResult × JudgeFiles d i)) (td : TestdataResult)
      → ShortAnswer laws fuel answer
      → Fine td
      → Ends d i laws (judge_answer d i fuel sub last answer td)
  judge_answer-Ends laws fuel sub last none td h f = (td, refl, f)
  judge_answer-Ends laws fuel sub last (some (res, files)) td (h, k) f =
      read_specjudge-Ends d i laws fuel sub res last files td h k f

  concluded :
      (fuel : ℕ) (sub : Submission) (groups : List ℕ) (stage : ℕ)
      (answer : Option (CjailResult × JudgeFiles d i)) (c : Cancelled) (td td' : TestdataResult)
      → judge_answer d i fuel sub (stage == sub.stages - 1) answer (record td { score = pos 0 })
        ≡ some td'
      → finalize_scoring d i fuel sub groups stage answer c td
        ≡ some (conclude d i sub groups (stage == sub.stages - 1) c td')
  unfolding finalize_scoring
  concluded fuel sub groups stage answer c td td' e = rw (e, finalize_scoring)

  -- `FinalizeScoring`, with or without a judge's answer and for enough fuel, ends. After the last stage the
  -- testdata has a verdict, after an earlier one a verdict skips the stages that follow, a verdict below
  -- CE stays below CE, no cancellation is taken back, and where failed groups are skipped a verdict
  -- other than AC cancels every testdata whose groups are among those of this one.
  pub finalize_scoring-Settled :
      (laws : IstreamLaws d i) (fuel : ℕ) (sub : Submission) (groups : List ℕ) (stage : ℕ)
      (answer : Option (CjailResult × JudgeFiles d i)) (c : Cancelled) (td : TestdataResult)
      → ShortAnswer laws fuel answer
      → Fine td
      → (s : Scored) × (finalize_scoring d i fuel sub groups stage answer c td ≡ some s)
        × Settled sub groups (stage == sub.stages - 1) c s
  finalize_scoring-Settled laws fuel sub groups stage answer c td h f =
      let last = stage == sub.stages - 1 in
      let (td', e, g) =
        judge_answer-Ends laws fuel sub last answer (record td { score = pos 0 }) h f in
      (
        conclude d i sub groups last c td',
        concluded fuel sub groups stage answer c td td' e,
        conclude-Settled d i sub groups last c td' g,
      )

  unread :
      (fuel : ℕ) (sub : Submission) (last : Bool) (files : JudgeFiles d i) (td : TestdataResult)
      → read_specjudge d i fuel sub no_run last files td ≡ some (judge_failed d i sub td)
  unfolding read_specjudge
  unread fuel sub last files td = elim (Option-cases files.output) [
    | inl e ↦ rw (e, read_specjudge)
    | inr (s, e) ↦ rw (e, read_specjudge)
  ]

  -- With an empty result `FinalizeScoring` ends as for a judge that failed.
  finalize_scoring-no_run :
      (fuel : ℕ) (sub : Submission) (groups : List ℕ) (stage : ℕ) (files : JudgeFiles d i)
      (c : Cancelled) (td : TestdataResult)
      → finalize_scoring d i fuel sub groups stage (some (no_run, files)) c td
        ≡ some (
            conclude d i sub groups
              (stage == sub.stages - 1)
              c
              (judge_failed d i sub (record td { score = pos 0 })))
  finalize_scoring-no_run fuel sub groups stage files c td =
      concluded fuel sub groups stage (some (no_run, files)) c td _
        (unread fuel sub (stage == sub.stages - 1) files (record td { score = pos 0 }))

  judge_failed_lem :
      (sub : Submission) (last : Bool) (td : TestdataResult)
      → rank td.verdict ≡ 0
      → ((settle last (judge_failed d i sub (record td { score = pos 0 }))).verdict
          ≡ (if sub.specjudge_re_as_wa then wa else jre))
        × ((settle last (judge_failed d i sub (record td { score = pos 0 }))).score ≡ pos 0)
  unfolding settle
  judge_failed_lem sub true td z = elim (Bool-cases sub.specjudge_re_as_wa) [
    | inl b ↦ rw (z, b) (refl, refl)
    | inr b ↦ rw (z, b) (refl, refl)
  ]
  judge_failed_lem sub false td z = elim (Bool-cases sub.specjudge_re_as_wa) [
    | inl b ↦ rw (z, b) (refl, refl)
    | inr b ↦ rw (z, b) (refl, refl)
  ]

  -- A testdata without a verdict, whose submission has none and is not cancelled and whose stages are not
  -- skipped, with a judge of kind SKIP: whatever the user's program has written, SetupScoring ends the
  -- task with a score of 0 and the verdict of a judge that failed, JRE, or WA if such a failure counts as
  -- WA.
  pub setup_scoring-skip :
      (fuel : ℕ) (sub : Submission) (overall : Verdict) (groups : List ℕ) (stage : ℕ)
      (files : JudgeFiles d i) (c : Cancelled) (td : TestdataResult)
      → sub.specjudge_type ≡ skip
      → rank overall ≡ 0
      → is_cancelled c sub.submission_internal_id groups ≡ false
      → td.skip_stage ≡ false
      → rank td.verdict ≡ 0
      → (s : Scored) × (setup_scoring d i fuel sub overall groups stage files c td
          ≡ settled (some s))
        × (s.result.verdict ≡ (if sub.specjudge_re_as_wa then wa else jre))
        × (s.result.score ≡ pos 0)
  unfolding setup_scoring conclude
  setup_scoring-skip fuel sub overall groups stage files c td k o n p z =
      let last = stage == sub.stages - 1 in
      let s = conclude d i sub groups last c (judge_failed d i sub (record td { score = pos 0 })) in
      let open_task : (not (rank overall == 0)
            || (is_cancelled c sub.submission_internal_id groups || td.skip_stage))
          ≡ false =
        ground (arith, o, n, p) in
      let no_verdict : (not (rank td.verdict == 0) && not sub.judge_abnormally_terminated) ≡ false =
        ground (arith, z) in
      let kind : is_skip d i sub.specjudge_type ≡ true = ap (is_skip d i) k in
      let (v, w) = judge_failed_lem sub last td z in
      (
        s,
        rw (open_task, no_verdict, kind)
            (ap settled (finalize_scoring-no_run fuel sub groups stage files c td)),
        v,
        w,
      )
