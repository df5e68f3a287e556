-- ===== src/Push/Plan.antt =====
-- The calls that `PushSubmission` makes to build the graph of one submission, in their order.
use tioj_judge.Base.{
  ℕ, zero, suc, ◌-◌, Bool, true, false, List, [], ◌∷◌, ◌++◌, Option, none, some, ltb, ◌==◌,
  if◌then◌else◌, length, not,
}
use tioj_judge.Graph.{
  CompileSubtask, userprog, specjudge, summary_prog, probprog, Task, compile, execute, scoring,
  summary,
}
use tioj_judge.Submission.{
  Submission, SpecjudgeType, normal, SummaryType, no_summary, custom_summary,
}
use tioj_judge.Push.{Op, create, link, insert}

-- `for (int k = lo; k < lo + n; k++) body(k);`
abbrev pub for_up : ℕ → ℕ → (ℕ → List Op) → List Op
for_up zero lo body = []
for_up (suc n) lo body = body lo ++ for_up n (suc lo) body

abbrev pub when : Bool → List Op → List Op
when true ops = ops
when false ops = []

-- std::min(std::max(1, sub.stages), 32)
unfoldable pub clamp_stages : ℕ → ℕ
clamp_stages n = if ltb 32 (if ltb n 1 then 1 else n) then 32 else (if ltb n 1 then 1 else n)

-- One stage of one testdata, in the two modes.
unfoldable pub stage_between : ℕ → ℕ → ℕ → List Op
stage_between order i j =
    create (execute i j) order
    ∷ create (scoring i j) order
    ∷ link (execute i j) (scoring i j)
    ∷ when (ltb 0 j) (link (scoring i (j - 1)) (execute i j) ∷ [])

unfoldable pub stage_plain : ℕ → ℕ → ℕ → List Op
stage_plain order i j =
    create (execute i j) order ∷ when (ltb 0 j) (link (execute i (j - 1)) (execute i j) ∷ [])

-- One round of the loop over the testdata.
unfoldable pub testdata_ops : Bool → ℕ → (ℕ → ℕ) → ℕ → List Op
unfolding stage_between stage_plain
testdata_ops between stages order i =
    (if between
      then for_up stages 0 (stage_between (order i) i)
      else (for_up stages 0 (stage_plain (order i) i)
          ++ (create (scoring i (stages - 1)) (order i)
              ∷ link (execute i (stages - 1)) (scoring i (stages - 1))
              ∷ [])))
    ++ (link (scoring i (stages - 1)) summary ∷ [])

abbrev pub contains : ℕ → List ℕ → Bool
contains x [] = false
contains x (y ∷ ys) = if y == x then true else contains x ys

-- `first_non_prob_stage`, -1 as `none`: the first of `n` stages from `lo` that is not in the set.
unfoldable pub first_non_prob : List ℕ → ℕ → ℕ → Option ℕ
first_non_prob prob zero lo = none
first_non_prob prob (suc n) lo =
    let rest = first_non_prob prob n (suc lo) in if contains lo prob then rest else some lo

-- `first_prob_stage`, the least element of the set.
abbrev pub first_prob : List ℕ → Option ℕ
first_prob [] = none
first_prob (s ∷ ss) = some s

-- A compilation that the first tasks of every testdata wait for, or the summary if there are none.
unfoldable pub compile_ops : CompileSubtask → (ℕ → Task) → ℕ → List Op
compile_ops c target num_tds =
    create (compile c) 0
    ∷ (for_up num_tds 0 (λ i. link (compile c) (target i) ∷ [])
        ++ (when (num_tds == 0) (link (compile c) summary ∷ []) ++ (insert (compile c) ∷ [])))

abbrev pub if_stage : Option ℕ → (ℕ → List Op) → List Op
if_stage none ops = []
if_stage (some s) ops = ops s

abbrev pub is_normal : SpecjudgeType → Bool
is_normal normal = true
is_normal _ = false

abbrev pub has_summary : SummaryType → Bool
has_summary custom_summary = true
has_summary no_summary = false

-- The first element of `scorings[i]`: of stage 0 only when the judge runs between stages.
abbrev pub first_scoring : Bool → ℕ → ℕ
first_scoring true stages = 0
first_scoring false stages = stages - 1

-- The insertions of `executes[i]` and of `scorings[i]`.
unfoldable pub insert_executes : ℕ → ℕ → List Op
insert_executes stages i = for_up stages 0 (λ j. insert (execute i j) ∷ [])

unfoldable pub insert_scorings : Bool → ℕ → ℕ → List Op
insert_scorings between stages i =
    if between
    then for_up stages 0 (λ j. insert (scoring i j) ∷ [])
    else insert (scoring i (stages - 1)) ∷ []

-- The four compilations, each as far as the submission has it.
unfoldable pub all_compile_ops : Submission → ℕ → ℕ → List Op
unfolding first_non_prob compile_ops
all_compile_ops sub stages num_tds =
    if_stage (first_non_prob sub.problem_prog_stages stages 0)
      (λ s. compile_ops userprog (λ i. execute i s) num_tds)
    ++ (if_stage (first_prob sub.problem_prog_stages)
          (λ s. compile_ops probprog (λ i. execute i s) num_tds)
        ++ (when (not (is_normal sub.specjudge_type)) (
              compile_ops specjudge (λ i. scoring i (first_scoring sub.judge_between_stages stages))
                num_tds)
            ++ when (has_summary sub.summary_type) (
                create (compile summary_prog) 0
                ∷ link (compile summary_prog) summary
                ∷ insert (compile summary_prog)
                ∷ [])))

-- The whole function, for the order of the testdata that it has computed.
unfoldable pub plan : Submission → (ℕ → ℕ) → List Op
unfolding clamp_stages testdata_ops all_compile_ops insert_executes insert_scorings
plan sub order =
    let stages = clamp_stages sub.stages in
    let num_tds = length sub.testdata in
    create summary 0
    ∷ (for_up num_tds 0 (testdata_ops sub.judge_between_stages stages order)
        ++ (all_compile_ops sub stages num_tds
            ++ (for_up num_tds 0 (insert_executes stages)
                ++ (for_up num_tds 0 (insert_scorings sub.judge_between_stages stages)
                    ++ (insert summary ∷ [])))))
