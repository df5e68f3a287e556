-- ===== src/Handler/Summary/Overall.antt =====
-- The verdict of a submission, and the bounds of a score (src/tioj/submission.cpp).
use tioj_judge.Base.{
  ℕ, ◌≤◌, ◌<◌, ◌≡◌, ◌⊎◌, inl, inr, refl, false, List, [], ◌∷◌, some, ltb, ◌==◌, arith, length,
  if◌then◌else◌, Bool-cases,
}
use tioj_judge.Verdict.{Verdict, ac, rank}
use tioj_judge.Submission.{Submission, TestdataItem, TestdataResult, SubmissionResult}
use tioj_judge.Handler.Summary.{worst_verdict, summary_verdict}

-- Every testdata that counts has a verdict of rank at most `n`.
abbrev pub AtMost : ℕ → List TestdataItem → List TestdataResult → Type 0
AtMost n (item ∷ items) (td ∷ tds) =
    (item.ignore_verdict ≡ false → rank td.verdict ≤ n) × AtMost n items tds
AtMost n _ _ = Unit

-- Some testdata that counts has the verdict `v`.
abbrev pub Reached : Verdict → List TestdataItem → List TestdataResult → Type 0
Reached v (item ∷ items) (td ∷ tds) =
    ((item.ignore_verdict ≡ false) × (td.verdict ≡ v)) ⊎ Reached v items tds
Reached v _ _ = ⊥

worst_verdict_lem :
    (v : Verdict) (items : List TestdataItem) (tds : List TestdataResult)
    → length tds ≤ length items
    → (w : Verdict) × (worst_verdict v items tds ≡ some w)
      × (rank v ≤ rank w)
      × AtMost (rank w) items tds
      × ((w ≡ v) ⊎ Reached w items tds)
unfolding worst_verdict
worst_verdict_lem v [] [] h = (v, refl, omega arith, tt, inl refl)
worst_verdict_lem v (item ∷ items) [] h = (v, refl, omega arith, tt, inl refl)
worst_verdict_lem v [] (td ∷ tds) h = absurd (omega arith)
worst_verdict_lem v (item ∷ items) (td ∷ tds) h =
    let next : Verdict =
      if item.ignore_verdict then v else if ltb (rank v) (rank td.verdict) then td.verdict else v in
    let (w, e, l, a, r) = worst_verdict_lem next items tds (omega arith) in
    (w, e, ground arith, (ground arith, a), ground arith)

-- With no more results than testdata, a verdict that was set stays, and otherwise the verdict of the
-- submission is AC or worse, no testdata that counts is worse, and it is AC or the verdict of a testdata
-- that counts.
pub summary_verdict_lem :
    (sub : Submission) (res : SubmissionResult)
    → length res.td_results ≤ length sub.testdata
    → (w : Verdict) × (summary_verdict sub res ≡ some w)
      × (0 < rank res.verdict → w ≡ res.verdict)
      × (rank res.verdict ≡ 0
          → (1 ≤ rank w)
            × AtMost (rank w) sub.testdata res.td_results
            × ((w ≡ ac) ⊎ Reached w sub.testdata res.td_results))
unfolding summary_verdict
summary_verdict_lem sub res h =
    let (w, e, l, a, r) = worst_verdict_lem ac sub.testdata res.td_results h in
    elim (Bool-cases (rank res.verdict == 0)) [
      | inl b ↦ (w, rw b e, λ i. ground arith, λ i. (l, a, r))
      | inr b ↦ (res.verdict, rw b refl, λ i. refl, λ i. ground arith)
    ]
