-- ===== src/Handler/Summary/Groups.antt =====
-- The scores of the groups of testdata in `FinalizeSummary` (src/tioj/submission.cpp).
use tioj_judge.Base.{
  ℕ, zero, suc, ◌≤◌, ◌<◌, ◌≡◌, ◌∙◌, inl, inr, refl, sym, ap, subst, true, false, not, ◌&&◌, List,
  [], ◌∷◌, some, ◌==◌, arith, length, ==_iff, if◌then◌else◌, Bool-cases, All, get_elem?, set,
  get_or, length-set,
}
use tioj_judge.Base.Int.{ℤ, ◌+ℤ◌}
use tioj_judge.Order.{has_group}
use tioj_judge.Submission.{TestdataItem, TestdataResult}
use tioj_judge.Handler.{min_ℤ, max_ℤ}
use tioj_judge.Handler.Summary.{lower_groups, Totals, sum_results, inf_score}

-- What a group has to score: the least score of the testdata that count and are in the group.
abbrev pub least : ℕ → ℤ → List TestdataItem → List TestdataResult → ℤ
least g m (item ∷ items) (td ∷ tds) =
    least g (if not item.ignore_verdict && has_group g item.td_groups then min_ℤ m td.score else m)
      items tds
least g m _ _ = m

-- Every group that a testdata names has a score.
abbrev pub InGroups : ℕ → List TestdataItem → Type 0
InGroups n items = All (λ item. All (λ g. g < n) item.td_groups) items

score_of : List ℤ → ℕ → ℤ
score_of scores g = get_or scores g inf_score

get_elem?-get_or :
    (scores : List ℤ) (g : ℕ) (d : ℤ)
    → g < length scores
    → get_elem? scores g ≡ some (get_or scores g d)
get_elem?-get_or [] g d h = absurd (omega arith)
get_elem?-get_or (s ∷ ss) zero d h = refl
get_elem?-get_or (s ∷ ss) (suc g) d h = get_elem?-get_or ss g d (omega arith)

get_or-set :
    (scores : List ℤ) (g x : ℕ) (d v : ℤ)
    → g < length scores
    → get_or (set scores g v) x d ≡ (if g == x then v else get_or scores x d)
get_or-set [] g x d v h = absurd (omega arith)
get_or-set (s ∷ ss) zero zero d v h = refl
get_or-set (s ∷ ss) zero (suc x) d v h = ground arith
get_or-set (s ∷ ss) (suc g) zero d v h = ground arith
get_or-set (s ∷ ss) (suc g) (suc x) d v h = get_or-set ss g x d v (omega arith) ∙ ground arith

min_ℤ_twice : (a b : ℤ) → min_ℤ (min_ℤ a b) b ≡ min_ℤ a b
min_ℤ_twice a b = ground arith

lower_found :
    (g : ℕ) (gs : List ℕ) (score : ℤ) (scores : List ℤ) (old : ℤ)
    → get_elem? scores g ≡ some old
    → lower_groups (g ∷ gs) score scores ≡ lower_groups gs score (set scores g (min_ℤ old score))
unfolding lower_groups
lower_found g gs score scores old h = rw (h, lower_groups)

lower_groups_lem :
    (gs : List ℕ) (score : ℤ) (scores : List ℤ)
    → All (λ g. g < length scores) gs
    → (scores' : List ℤ) × (lower_groups gs score scores ≡ some scores')
      × (length scores' ≡ length scores)
      × ((x : ℕ)
          → get_or scores' x inf_score ≡ (
              if has_group x gs
              then min_ℤ (get_or scores x inf_score) score
              else get_or scores x inf_score))
unfolding lower_groups has_group
lower_groups_lem [] score scores h = (scores, refl, refl, λ x. refl)
lower_groups_lem (g ∷ gs) score scores h =
    let old = get_or scores g inf_score in
    let next = set scores g (min_ℤ old score) in
    let size = length-set scores g (min_ℤ old score) in
    let (scores', e, n, each) =
      lower_groups_lem gs score next (subst (λ n. All (λ x. x < n) gs) (sym size) h.1) in
    (
      scores',
      lower_found g gs score scores old (get_elem?-get_or scores g inf_score h.0) ∙ e,
      n ∙ size,
      λ x.
          each x
          ∙ ground (
            arith,
            get_or-set scores g x inf_score (min_ℤ old score) h.0,
            ==_iff g x,
            min_ℤ_twice old score,
          ),
    )

-- The sum of the times, and the largest memory, of the testdata that count.
abbrev pub counted_time : List TestdataItem → List TestdataResult → ℤ → ℤ
counted_time (item ∷ items) (td ∷ tds) t =
    counted_time items tds (if item.ignore_verdict then t else t +ℤ td.time)
counted_time _ _ t = t

abbrev pub counted_memory : List TestdataItem → List TestdataResult → ℤ → ℤ
counted_memory (item ∷ items) (td ∷ tds) m =
    counted_memory items tds (if item.ignore_verdict then m else max_ℤ m td.rss)
counted_memory _ _ m = m

-- What a testdata that counts does to the totals.
counted_totals : TestdataResult → Totals → List ℤ → Totals
counted_totals td t scores = record {
  memory = max_ℤ t.memory td.rss;
  time = t.time +ℤ td.time;
  subtask_scores = scores;
}

sum_ignored :
    (item : TestdataItem) (items : List TestdataItem) (td : TestdataResult)
    (tds : List TestdataResult) (t : Totals)
    → item.ignore_verdict ≡ true
    → sum_results (item ∷ items) (td ∷ tds) t ≡ sum_results items tds t
unfolding sum_results
sum_ignored item items td tds t h = rw h

sum_counted :
    (item : TestdataItem) (items : List TestdataItem) (td : TestdataResult)
    (tds : List TestdataResult) (t : Totals) (scores : List ℤ)
    → item.ignore_verdict ≡ false
    → lower_groups item.td_groups td.score t.subtask_scores ≡ some scores
    → sum_results (item ∷ items) (td ∷ tds) t ≡ sum_results items tds (counted_totals td t scores)
unfolding sum_results counted_totals
sum_counted item items td tds t scores h e = rw (h, e, sum_results)

-- For no more results than testdata, and groups that all have a score, the loop ends without a read
-- past a vector. Each group gets the least of its old score and the scores of the testdata in it that
-- count, and the time is the sum and the memory the largest over the testdata that count.
pub sum_results_lem :
    (items : List TestdataItem) (tds : List TestdataResult) (t : Totals)
    → length tds ≤ length items
    → InGroups (length t.subtask_scores) items
    → (t' : Totals) × (sum_results items tds t ≡ some t')
      × (length t'.subtask_scores ≡ length t.subtask_scores)
      × ((g : ℕ)
          → get_or t'.subtask_scores g inf_score
            ≡ least g (get_or t.subtask_scores g inf_score) items tds)
      × (t'.time ≡ counted_time items tds t.time)
      × (t'.memory ≡ counted_memory items tds t.memory)
unfolding sum_results counted_totals
sum_results_lem [] [] t h i = (t, refl, refl, (λ g. refl), refl, refl)
sum_results_lem (item ∷ items) [] t h i = (t, refl, refl, (λ g. refl), refl, refl)
sum_results_lem [] (td ∷ tds) t h i = absurd (omega arith)
sum_results_lem (item ∷ items) (td ∷ tds) t h i = elim (Bool-cases item.ignore_verdict) [
  | inl b ↦
      let (t', e, n, each, time, memory) = sum_results_lem items tds t (omega arith) i.1 in
      (t', sum_ignored item items td tds t b ∙ e, n, (λ g. rw b (each g)), rw b time, rw b memory)
  | inr b ↦
      let (scores, e0, n0, each0) = lower_groups_lem item.td_groups td.score t.subtask_scores i.0 in
      let (t', e, n, each, time, memory) =
        sum_results_lem items tds (counted_totals td t scores) (omega arith)
          (subst (λ k. InGroups k items) (sym n0) i.1) in
      (
        t',
        sum_counted item items td tds t scores b e0 ∙ e,
        n ∙ n0,
        (λ g. rw b (each g ∙ ap (λ m. least g m items tds) (each0 g))),
        rw b time,
        rw b memory,
      )
]
