-- ===== src/Push/Total.antt =====
-- `PushSubmission` builds its graph without reading past a vector, and leaves the shared graph in its
-- invariant.
use tioj_judge.Base.{
  ℕ, zero, suc, ◌+◌, ◌<◌, ◌≡◌, refl, Bool, true, false, not, List, [], ◌∷◌, ◌++◌, arith, ◌==◌,
  Option, none, some,
}
use tioj_judge.Graph.{
  Task, CompileSubtask, userprog, specjudge, summary_prog, probprog, compile, execute, scoring,
  summary,
}
use tioj_judge.Submission.{Submission}
use tioj_judge.Push.{Op, link, insert}
use tioj_judge.Push.Plan.{
  for_up, when, if_stage, first_non_prob, first_prob, compile_ops, is_normal, has_summary,
  first_scoring, all_compile_ops,
}
use tioj_judge.Push.Local.{level, task_eq-eq, task_eq_refl}
use tioj_judge.Push.Runs.{Seen, with_task, without_task, Runs, Runs-append, Runs-for_up}
use tioj_judge.Push.Testdata.{td_seen}

-- Nothing happens to what is there.
pub nothing : (seen : Seen) → Runs seen [] seen
nothing seen u = refl

compile_in_out :
    (seen : Seen) (c : CompileSubtask)
    → seen (compile c) ≡ false
    → (u : Task) → without_task (compile c) (with_task (compile c) seen) u ≡ seen u
compile_in_out seen c h u = ground (arith, task_eq-eq u (compile c))

-- A compilation is created, linked to entries that are there, and inserted.
compile_ops-Runs :
    (seen : Seen) (c : CompileSubtask) (target : ℕ → Task) (m : ℕ)
    → seen (compile c) ≡ false
    → seen summary ≡ true
    → ((i : ℕ) → i < m → (seen (target i) ≡ true) × (0 < level (target i)))
    → Runs seen (compile_ops c target m) seen
unfolding compile_ops level
compile_ops-Runs seen c target m fresh top there =
    let mid = with_task (compile c) seen in
    let own : mid (compile c) ≡ true = ground (arith, task_eq_refl (compile c)) in
    (
      fresh,
      Runs-append mid mid seen (for_up m 0 (λ i. link (compile c) (target i) ∷ []))
          (when (m == 0) (link (compile c) summary ∷ []) ++ (insert (compile c) ∷ []))
          (Runs-for_up (λ _. mid) (λ i. link (compile c) (target i) ∷ []) m 0 m (omega arith)
            (λ i h. (own, ground (arith, there i h), ground (arith, there i h), λ u. refl)))
          (Runs-append mid mid seen (when (m == 0) (link (compile c) summary ∷ []))
            (insert (compile c) ∷ []) (to_summary mid own (ground arith) (m == 0))
            (own, compile_in_out seen c fresh)),
    )
  where
    to_summary :
        (mid : Seen)
        → mid (compile c) ≡ true
        → mid summary ≡ true
        → (b : Bool) → Runs mid (when b (link (compile c) summary ∷ [])) mid
    to_summary mid own there' true = (own, there', omega arith, λ u. refl)
    to_summary mid own there' false = λ u. refl

first_non_prob-lt : (prob : List ℕ) (n lo s : ℕ) → first_non_prob prob n lo ≡ some s → s < lo + n
unfolding first_non_prob
first_non_prob-lt prob zero lo s h = cc
first_non_prob-lt prob (suc n) lo s h = ground (arith, first_non_prob-lt prob n (suc lo) s)

if_stage-Runs :
    (seen : Seen) (o : Option ℕ) (ops : ℕ → List Op)
    → ((s : ℕ) → o ≡ some s → Runs seen (ops s) seen)
    → Runs seen (if_stage o ops) seen
if_stage-Runs seen none ops h = nothing seen
if_stage-Runs seen (some s) ops h = h s refl

when-Runs :
    (seen : Seen) (b : Bool) (ops : List Op) → Runs seen ops seen → Runs seen (when b ops) seen
when-Runs seen true ops h = h
when-Runs seen false ops h = nothing seen

-- Where the stage of a program exists, the compilations find the tasks that wait for them.
module _ (sub : Submission) (n m : ℕ) (pos_n : 0 < n)
    (in_range : (s : ℕ) → first_prob sub.problem_prog_stages ≡ some s → s < n) where
  abbrev pub all_there : Seen
  all_there = td_seen sub.judge_between_stages n m 0

  scoring_there :
      (b : Bool) (i : ℕ) → i < m → td_seen b n m 0 (scoring i (first_scoring b n)) ≡ true
  scoring_there true i h = ground arith
  scoring_there false i h = ground arith

  pub all_compile_ops-Runs : Runs all_there (all_compile_ops sub n m) all_there
  unfolding all_compile_ops level
  all_compile_ops-Runs =
      Runs-append all_there all_there all_there _ _
        (if_stage-Runs all_there (first_non_prob sub.problem_prog_stages n 0) _ (λ s e.
          compile_ops-Runs all_there userprog (λ i. execute i s) m refl refl
            (λ i h.
              (ground (arith, first_non_prob-lt sub.problem_prog_stages n 0 s), omega arith))))
        (Runs-append all_there all_there all_there _ _
          (if_stage-Runs all_there (first_prob sub.problem_prog_stages) _ (λ s e.
            compile_ops-Runs all_there probprog (λ i. execute i s) m refl refl
              (λ i h. (ground (arith, in_range s e), omega arith))))
          (Runs-append all_there all_there all_there _ _
            (when-Runs all_there (not (is_normal sub.specjudge_type)) _ (
              compile_ops-Runs all_there specjudge
                (λ i. scoring i (first_scoring sub.judge_between_stages n)) m refl refl
                (λ i h. (scoring_there sub.judge_between_stages i h, omega arith))))
            (when-Runs all_there (has_summary sub.summary_type) _ (
              refl,
              (refl, refl, omega arith, (refl, compile_in_out all_there summary_prog refl)),
            ))))
