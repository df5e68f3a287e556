-- ===== src/Server/Deal.antt =====
-- How `DealOneSubmission` (src/server_io.cpp) reads the submission that the server sends. The fields of the
-- frames are what nlohmann's `get` answers, none where it throws; the numbers of the kinds are those that
-- name one, and ids are natural numbers. Where the code writes a file or reads the arguments of a command,
-- only the failure of the read is kept.
pub mod Limits
pub mod Groups
pub mod Valid
pub mod Pushed
mod Tests
use Prim.Native.String.{String}
use tioj_judge.Base.{
  ℕ, zero, suc, ◌+◌, ◌≤◌, ◌<◌, ◌≡◌, Bool, true, false, ◌&&◌, List, [], ◌∷◌, ◌++◌, Option, none,
  some, ltb, ◌==◌, if◌then◌else◌, length, get_elem?, set, replicate,
}
use tioj_judge.Base.Partial.{◌>>=◌}
use tioj_judge.Base.Int.{ℤ, pos, negsuc, ltb_ℤ}
use tioj_judge.Verdict.{Compiler, gcc_cpp_17, is_haskell, get_compiler}
use tioj_judge.Submission.{
  Submission, TestdataItem, SpecjudgeType, normal, specjudge_new, InterlibType, no_interlib,
  include, SummaryType, no_summary, custom_summary,
}
use tioj_judge.Handler.{is_zero, max_ℤ, min_ℤ}
use tioj_judge.Server.Frames.{value, TdFrame, TaskFrame, ProblemFrame, Frame}

-- `std::clamp(…, 1, 32)`
abbrev pub clamp_1_32 : ℤ → ℕ
clamp_1_32 (pos n) = if ltb n 1 then 1 else (if ltb 32 n then 32 else n)
clamp_1_32 (negsuc n) = 1

-- The check of the stages of the problem's program.
unfoldable pub in_stages : ℕ → List ℤ → Option (List ℕ)
in_stages stages [] = some []
in_stages stages (negsuc s ∷ ss) = none
in_stages stages (pos s ∷ ss) = do
  rest ← in_stages stages ss
  if ltb s stages then some (s ∷ rest) else none

-- The compiler of the problem's program; `unset` is what the field holds before.
unfoldable pub read_prog_lang : Compiler → ProblemFrame → List ℕ → Option Compiler
unfolding get_compiler
read_prog_lang unset f [] = some unset
read_prog_lang unset f (s ∷ ss) = do
  name ← f.problem_prog_compiler
  code ← f.problem_prog_code
  some (get_compiler name)

-- The fields of a submission that depend on the kind of judge.
pub record JudgeFields : Type 0 where
  pub specjudge_lang : Compiler
  pub judge_between_stages : Bool
  pub judge_abnormally_terminated : Bool
  pub specjudge_re_as_wa : Bool

abbrev pub is_specjudge_new : SpecjudgeType → Bool
is_specjudge_new specjudge_new = true
is_specjudge_new _ = false

unfoldable pub special_judge : SpecjudgeType → ProblemFrame → Option JudgeFields
unfolding get_compiler
special_judge kind f = do
  name ← f.specjudge_compiler
  between ← f.judge_between_stages
  code ← f.sjcode
  args ← f.specjudge_compile_args
  abnormal ← value f.judge_abnormally_terminated (is_specjudge_new kind)
  as_wa ← value f.judge_re_as_wa true
  some (record {
    specjudge_lang = get_compiler name;
    judge_between_stages = between;
    judge_abnormally_terminated = abnormal;
    specjudge_re_as_wa = as_wa;
  })

unfoldable pub judge_fields : SpecjudgeType → ProblemFrame → Option JudgeFields
unfolding special_judge
judge_fields normal f = do
  args ← f.default_scoring_args
  some (record {
    specjudge_lang = gcc_cpp_17;
    judge_between_stages = false;
    judge_abnormally_terminated = false;
    specjudge_re_as_wa = true;
  })
judge_fields kind f = special_judge kind f

unfoldable pub interlib_read : InterlibType → ProblemFrame → Option InterlibType
interlib_read no_interlib f = some no_interlib
interlib_read include f = do header ← f.interlib; body ← f.interlib_impl; some include

unfoldable pub read_summary_lang : SummaryType → ProblemFrame → Option Compiler
unfolding get_compiler
read_summary_lang no_summary f = some gcc_cpp_17
read_summary_lang custom_summary f = do
  name ← f.summary_compiler
  code ← f.summary_code
  some (get_compiler name)

-- Haskell's limit of virtual memory becomes one of resident memory.
unfoldable pub haskell_limits : Compiler → TestdataItem → TestdataItem
haskell_limits lang lim =
    if is_haskell lang && ltb_ℤ (pos 0) lim.vss
    then record lim {
      vss = pos 0;
      rss = if is_zero lim.rss then lim.vss else min_ℤ lim.vss lim.rss;
    }
    else lim

-- The limits of a testdata.
unfoldable pub td_limits : Compiler → TdFrame → Option TestdataItem
unfolding haskell_limits
td_limits lang f = do
  time ← f.time
  vss ← f.vss
  rss ← f.rss
  output ← f.output
  ignore ← f.verdict_ignore
  some (
      haskell_limits lang (record {
        vss = max_ℤ vss (pos 0);
        rss = max_ℤ rss (pos 0);
        output = max_ℤ output (pos 0);
        time = time;
        ignore_verdict = ignore;
        td_groups = [];
      }))

unfoldable pub all_limits : Compiler → List TdFrame → Option (List TestdataItem)
unfolding td_limits
all_limits lang [] = some []
all_limits lang (f ∷ fs) = do lim ← td_limits lang f; lims ← all_limits lang fs; some (lim ∷ lims)

-- `testdata[p].td_groups.push_back(group)`
unfoldable pub add_group : ℕ → ℕ → List TestdataItem → Option (List TestdataItem)
add_group group p [] = none
add_group group zero (lim ∷ lims) =
    some (record lim { td_groups = lim.td_groups ++ (group ∷ []) } ∷ lims)
add_group group (suc p) (lim ∷ lims) = do rest ← add_group group p lims; some (lim ∷ rest)

-- One position of a group, with the check of its bounds, which `add_group` meets too.
abbrev pub add_position : ℕ → ℤ → List TestdataItem → Option (List TestdataItem)
add_position group (negsuc p) lims = none
add_position group (pos p) lims = if ltb p (length lims) then add_group group p lims else none

unfoldable pub add_positions : ℕ → List (Option ℤ) → List TestdataItem → Option (List TestdataItem)
unfolding add_group
add_positions group [] lims = some lims
add_positions group (q ∷ qs) lims = do
  p ← q
  lims' ← add_position group p lims
  add_positions group qs lims'

-- The loop over the groups, from `group` on.
unfoldable pub add_tasks :
    ℕ → List TaskFrame → List TestdataItem → Option (List TestdataItem × List ℤ)
unfolding add_positions
add_tasks group [] lims = some (lims, [])
add_tasks group (t ∷ ts) lims = do
  lims' ← add_positions group t.positions lims
  score ← t.score
  (lims'', scores) ← add_tasks (suc group) ts lims'
  some (lims'', score ∷ scores)

-- The submission that DealOneSubmission pushes; `id` is drawn by GetUniqueSubmissionInternalId, and
-- `haskell_process_limit` is set by the build.
unfoldable pub read_submission :
    (haskell_process_limit : ℕ) → Compiler → ℕ → Frame → Option Submission
unfolding get_compiler in_stages read_prog_lang judge_fields interlib_read read_summary_lang
    all_limits add_tasks
read_submission haskell_process_limit unset id f = do
  submission_id ← f.submission_id
  contest_id ← f.contest_id
  priority ← f.priority
  compiler ← f.compiler
  time ← f.time
  skip_group ← value f.skip_group false
  code ← f.code_base64
  user_id ← f.user_id
  user_name ← f.user_name
  user_nickname ← f.user_nickname
  problem_id ← f.problem.id
  strict ← f.problem.strict_mode
  num_stages ← f.problem.num_stages
  prog_stages ← value f.problem.problem_prog_stages []
  prog_stages' ← in_stages (clamp_1_32 num_stages) prog_stages
  prog_lang ← read_prog_lang unset f.problem prog_stages'
  kind ← f.problem.specjudge_type
  judge ← judge_fields kind f.problem
  interlib ← f.problem.interlib_type
  interlib' ← interlib_read interlib f.problem
  summary ← value f.problem.summary_type no_summary
  summary' ← read_summary_lang summary f.problem
  lims ← all_limits (get_compiler compiler) f.td
  (lims', scores) ← add_tasks 0 f.tasks lims
  some (record {
    submission_internal_id = id;
    submission_id = submission_id;
    contest_id = contest_id;
    priority = priority;
    submission_time = time;
    submitter_id = user_id;
    submitter_name = user_name;
    submitter_nickname = user_nickname;
    lang = get_compiler compiler;
    problem_id = problem_id;
    specjudge_type = kind;
    interlib_type = interlib';
    summary_type = summary;
    specjudge_lang = judge.specjudge_lang;
    summary_lang = summary';
    problem_prog_lang = prog_lang;
    stages = clamp_1_32 num_stages;
    problem_prog_stages = prog_stages';
    judge_between_stages = judge.judge_between_stages;
    judge_abnormally_terminated = judge.judge_abnormally_terminated;
    specjudge_re_as_wa = judge.specjudge_re_as_wa;
    sandbox_strict = strict;
    process_limit =
        if is_haskell (get_compiler compiler)
        then (if ltb 1 haskell_process_limit then haskell_process_limit else 1)
        else 1;
    testdata = lims';
    group_score = scores;
    skip_group = skip_group;
    report_intermediate_stage = false;
    remove_submission = true;
  })
