-- ===== src/Server/Deal/Valid.antt =====
-- What `DealOneSubmission` of src/server_io.cpp makes sure of before it pushes a submission.
use tioj_judge.Base.{
  ℕ, ◌≤◌, ◌<◌, ◌≡◌, ◌∙◌, sym, subst, false, List, [], ◌∷◌, some, arith, ltb, Holds-if, length, All,
  ltb→lt,
}
use tioj_judge.Base.Partial.{Post, Post-bind, Post-some}
use tioj_judge.Base.Int.{ℤ, pos, negsuc}
use tioj_judge.Verdict.{Compiler, get_compiler}
use tioj_judge.Submission.{Submission, TestdataItem, no_summary}
use tioj_judge.Handler.Summary.Groups.{InGroups}
use tioj_judge.Push.Plan.{clamp_stages, first_prob}
use tioj_judge.Judge.{InRange}
use tioj_judge.Server.Frames.{value, Frame}
use tioj_judge.Server.Deal.Limits.{Limits, Fresh, all_limits-Limits}
use tioj_judge.Server.Deal.Groups.{Placed, add_tasks-Placed}
use tioj_judge.Server.Deal.{
  read_prog_lang, judge_fields, interlib_read, read_summary_lang, clamp_1_32, in_stages, all_limits,
  add_tasks, read_submission,
}

clamp_1_32-clamp_stages : (n : ℤ) → clamp_stages (clamp_1_32 n) ≡ clamp_1_32 n
unfolding clamp_stages
clamp_1_32-clamp_stages (pos n) = ground arith
clamp_1_32-clamp_stages (negsuc n) = ground arith

in_stages-All : (n : ℕ) (ss : List ℤ) → Post (All (λ s. s < n)) (in_stages n ss)
unfolding in_stages
in_stages-All n [] = tt
in_stages-All n (negsuc s ∷ ss) = tt
in_stages-All n (pos s ∷ ss) =
    let InBounds : List ℕ → Type 0 = All (λ s. s < n) in
    Post-bind InBounds (in_stages n ss) _ (λ rest e.
      Holds-if (Post InBounds) (ltb s n) _ _
        (λ b. (ltb→lt s n b, Post-some InBounds (in_stages n ss) rest (in_stages-All n ss) e))
        (λ b. tt))

first_prob-All : (n s : ℕ) (ss : List ℕ) → All (λ s. s < n) ss → first_prob ss ≡ some s → s < n
first_prob-All n s [] h e = absurd cc
first_prob-All n s (x ∷ ss) h e = let same : x ≡ s = cc in subst (λ x. x < n) same h.0

-- What a submission is that comes from the frame `f`.
pub record Valid (f : Frame) (sub : Submission) : Type 0 where
  pub in_range : InRange sub
  pub in_groups : InGroups (length sub.group_score) sub.testdata
  pub size : length sub.testdata ≡ length f.td
  pub group_size : length sub.group_score ≡ length f.tasks
  pub limits : All (Limits sub.lang) sub.testdata
  pub stages_range : (1 ≤ sub.stages) × (sub.stages ≤ 32)

All-map :
    {A : Type 0} (P Q : A → Type 0) (xs : List A) → ((x : A) → P x → Q x) → All P xs → All Q xs
All-map P Q [] h a = tt
All-map P Q (x ∷ xs) h a = (h x a.0, All-map P Q xs h a.1)

clamp_1_32-range : (n : ℤ) → (1 ≤ clamp_1_32 n) × (clamp_1_32 n ≤ 32)
clamp_1_32-range (pos n) = ground arith
clamp_1_32-range (negsuc n) = ground arith

Fresh-Placed : (n : ℕ) (lang : Compiler) (lim : TestdataItem) → Fresh lang lim → Placed n lang lim
Fresh-Placed n lang lim (l, g) = (l, subst (All (λ x. x < n)) (sym g) tt)

tested :
    (lang : Compiler) (n : ℤ) (ss : List ℤ) (ss' : List ℕ) (f : Frame)
    (lims lims' : List TestdataItem) (scores : List ℤ)
    → in_stages (clamp_1_32 n) ss ≡ some ss'
    → all_limits lang f.td ≡ some lims
    → add_tasks 0 f.tasks lims ≡ some (lims', scores)
    → ((s : ℕ) → first_prob ss' ≡ some s → s < clamp_stages (clamp_1_32 n))
      × InGroups (length scores) lims'
      × (length lims' ≡ length f.td)
      × (length scores ≡ length f.tasks)
      × All (Limits lang) lims'
tested lang n ss ss' f lims lims' scores stages_eq lims_eq tasks_eq =
    let m = length f.tasks in
    let below =
      Post-some _ (in_stages (clamp_1_32 n) ss) ss' (in_stages-All (clamp_1_32 n) ss) stages_eq in
    let (size, fresh) =
      Post-some _ (all_limits lang f.td) lims (all_limits-Limits lang f.td) lims_eq in
    let start = All-map (Fresh lang) (Placed m lang) lims (Fresh-Placed m lang) fresh in
    let (size', placed, count) =
      Post-some _ (add_tasks 0 f.tasks lims) (lims', scores)
        (add_tasks-Placed m lang 0 f.tasks lims (omega arith) start) tasks_eq in
    (
      λ s e. rw (clamp_1_32-clamp_stages n) (first_prob-All (clamp_1_32 n) s ss' below e),
      rw count (
          All-map (Placed m lang) (λ lim. All (λ g. g < m) lim.td_groups) lims' (λ lim h. h.1)
            placed),
      size' ∙ size,
      count,
      All-map (Placed m lang) (Limits lang) lims' (λ lim h. h.0) placed,
    )

pub read_submission-Valid :
    (haskell_process_limit : ℕ) (unset : Compiler) (id : ℕ) (f : Frame)
    → Post (Valid f) (read_submission haskell_process_limit unset id f)
unfolding read_submission
read_submission-Valid haskell_process_limit unset id f =
    let V = Valid f in
    Post-bind V f.submission_id _ (λ submission_id e. Post-bind V f.contest_id _ (λ contest_id e.
      Post-bind V f.priority _ (λ priority e. Post-bind V f.compiler _ (λ compiler e.
        Post-bind V f.time _ (λ time e. Post-bind V (value f.skip_group false) _ (λ skip_group e.
          Post-bind V f.code_base64 _ (λ code e. Post-bind V f.user_id _ (λ user_id e.
            Post-bind V f.user_name _ (λ user_name e.
              Post-bind V f.user_nickname _ (λ user_nickname e.
                Post-bind V f.problem.id _ (λ problem_id e.
                  Post-bind V f.problem.strict_mode _ (λ strict e.
                    Post-bind V f.problem.num_stages _ (λ num_stages e.
                      Post-bind V (value f.problem.problem_prog_stages []) _ (λ prog_stages e.
                        Post-bind V (in_stages (clamp_1_32 num_stages) prog_stages) _
                          (λ prog_stages' stages_eq.
                            Post-bind V (read_prog_lang unset f.problem prog_stages') _
                              (λ prog_lang e. Post-bind V f.problem.specjudge_type _ (λ kind e.
                                Post-bind V (judge_fields kind f.problem) _ (λ judge e.
                                  Post-bind V f.problem.interlib_type _ (λ interlib e.
                                    Post-bind V (interlib_read interlib f.problem) _ (λ interlib' e.
                                      Post-bind V (value f.problem.summary_type no_summary) _
                                        (λ summary e.
                                          Post-bind V (read_summary_lang summary f.problem) _
                                            (λ summary' e.
                                              Post-bind V (all_limits (get_compiler compiler) f.td)
                                                _
                                                (λ lims lims_eq.
                                                  Post-bind V (add_tasks 0 f.tasks lims) _
                                                    (λ (lims', scores) tasks_eq.
                                                      let c =
                                                        tested (get_compiler compiler) num_stages
                                                          prog_stages prog_stages' f lims lims'
                                                          scores stages_eq lims_eq tasks_eq in
                                                      record {
                                                        in_range = c.0;
                                                        in_groups = c.1;
                                                        size = c.2;
                                                        group_size = c.3;
                                                        limits = c.4;
                                                        stages_range = clamp_1_32-range num_stages;
                                                      }))))))))))))))))))))))))
