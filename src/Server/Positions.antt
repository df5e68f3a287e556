-- ===== src/Server/Positions.antt =====
-- Which results `TdResultsJSON` of src/server_io.cpp sends, and under which position.
use tioj_judge.Base.{
  ℕ, zero, suc, ◌+◌, ◌<◌, ◌≡◌, refl, subst, inl, inr, Bool, false, List, [], ◌∷◌, Option, none,
  some, arith, ◌==◌, ==_iff, if◌then◌else◌, Bool-cases, get_elem?,
}
use tioj_judge.Base.Partial.{◌>>=◌}
use tioj_judge.Verdict.{rank}
use tioj_judge.Submission.{TestdataResult}
use tioj_judge.Server.Requests.{TdJson}
use tioj_judge.Server.Report.{one_td_json, all_td_json, td_results_json}

-- The first object with this position.
unfoldable pub at_position : ℕ → List TdJson → Option TdJson
at_position p [] = none
at_position p (td ∷ tds) = if td.position == p then some td else at_position p tds

-- What is to be sent of a result.
abbrev pub report : Bool → ℕ → TestdataResult → Option TdJson
report jce_to_er p td = if rank td.verdict == 0 then none else some (one_td_json jce_to_er td p)

earlier :
    (b : Bool) (p i : ℕ) (tds : List TestdataResult)
    → p < i
    → at_position p (all_td_json b i tds) ≡ none
unfolding at_position all_td_json one_td_json
earlier b p i [] h = refl
earlier b p i (td ∷ tds) h = ground (arith, earlier b p (suc i) tds (omega arith))

at_here :
    (b : Bool) (p : ℕ) (td : TestdataResult) (tds : List TestdataResult)
    → at_position p (all_td_json b p (td ∷ tds)) ≡ report b p td
unfolding at_position all_td_json one_td_json
at_here b p td tds = elim (Bool-cases (rank td.verdict == 0)) [
  | inl h ↦ rw h (earlier b p (suc p) tds (omega arith))
  | inr h ↦ rw h (rw ((==_iff p p).1 refl) refl)
]

at_position-from :
    (b : Bool) (i j p : ℕ) (tds : List TestdataResult)
    → p ≡ i + j
    → at_position p (all_td_json b i tds) ≡ (get_elem? tds j >>= report b p)
unfolding at_position all_td_json one_td_json
at_position-from b i j p [] e = refl
at_position-from b i zero p (td ∷ tds) e =
    let same : p ≡ i = omega arith in
    subst (λ x. at_position p (all_td_json b x (td ∷ tds)) ≡ report b p td) same
      (at_here b p td tds)
at_position-from b i (suc j) p (td ∷ tds) e =
    let rest = at_position-from b (suc i) j p tds (omega arith) in
    elim (Bool-cases (rank td.verdict == 0)) [
      | inl h ↦ rw h rest
      | inr h ↦ let other : (i == p) ≡ false = ground arith in rw h (rw other rest)
    ]

-- Among the objects that TdResultsJSON makes of all results, the one with a position is made of the
-- result with this index, and it is there exactly when that result has a verdict.
pub at_position-td_results_json :
    (jce_to_er : Bool) (tds : List TestdataResult) (p : ℕ)
    → (td_results_json jce_to_er tds none >>= at_position p)
      ≡ (get_elem? tds p >>= report jce_to_er p)
unfolding td_results_json
at_position-td_results_json jce_to_er tds p = at_position-from jce_to_er 0 p p tds (omega arith)
