-- ===== src/Server/Deal/Tests.antt =====
-- A problem with two testdata in one group, for a Haskell program.
use tioj_judge.Base.{ℕ, ◌≡◌, refl, true, false, List, [], ◌∷◌, Option, none, some}
use tioj_judge.Base.Partial.{Post}
use tioj_judge.Base.Int.{pos, negsuc}
use tioj_judge.Verdict.{gcc_cpp_17, haskell, get_compiler, find_compiler, compiler_name}
use tioj_judge.Submission.{TestdataItem, normal, no_interlib}
use tioj_judge.Push.{Build}
use tioj_judge.Push.Submit.{push_graph}
use tioj_judge.Loop.{Handlers}
use tioj_judge.Judge.{start, initial}
use tioj_judge.Server.Frames.{missing, given, TdFrame, ProblemFrame, Frame}
use tioj_judge.Server.Deal.{
  haskell_limits, td_limits, all_limits, add_group, add_positions, add_tasks, in_stages,
  judge_fields, interlib_read, read_summary_lang, read_prog_lang, read_submission,
}
use tioj_judge.Server.Deal.Valid.{Valid}
use tioj_judge.Server.Deal.Pushed.{read_submission-push_graph}

abbrev td : TdFrame
td = record {
  id = some 11;
  updated_at = some (pos 1700000000);
  input_compressed = missing;
  output_compressed = given true;
  time = some (pos 1000000);
  vss = some (pos 65536);
  rss = some (pos 0);
  output = some (negsuc 0);
  verdict_ignore = some false;
}

abbrev problem : ProblemFrame
problem = record {
  id = some 3;
  strict_mode = some true;
  num_stages = some (pos 99);
  problem_prog_stages = missing;
  problem_prog_compiler = none;
  problem_prog_code = none;
  specjudge_type = some normal;
  default_scoring_args = some [];
  specjudge_compiler = none;
  judge_between_stages = none;
  sjcode = none;
  specjudge_compile_args = none;
  judge_abnormally_terminated = missing;
  judge_re_as_wa = missing;
  interlib_type = some no_interlib;
  interlib = none;
  interlib_impl = none;
  summary_type = missing;
  summary_compiler = none;
  summary_code = none;
}

abbrev frame : Frame
frame = record {
  submission_id = some 70;
  contest_id = some 0;
  priority = some (pos 5);
  compiler = some "haskell";
  time = some (pos 0);
  skip_group = missing;
  code_base64 = some "";
  user_id = some 1;
  user_name = some "a";
  user_nickname = some "b";
  problem = problem;
  td = td ∷ td ∷ [];
  tasks = record { positions = some (pos 0) ∷ some (pos 1) ∷ []; score = some (pos 100) } ∷ [];
}

abbrev idle : Handlers
idle = record {
  State = ℕ;
  Outcome = ℕ;
  no_result = 0;
  setup = λ t s. (true, s);
  finalize = λ t o s. s;
}

read_submission-push_graph_example :
    Post
      (λ sub.
        (b : Build) × (push_graph sub 0 (initial idle 2 0).loop.graph ≡ some b) × (b.local ≡ []))
      (read_submission 2 gcc_cpp_17 9 frame)
read_submission-push_graph_example =
    read_submission-push_graph idle 2 0 (initial idle 2 0) start 2 gcc_cpp_17 9 frame

-- Haskell's limit of 64 MiB of virtual memory becomes one of resident memory, and a negative one is none.
all_limits_test :
    all_limits haskell (td ∷ [])
    ≡ some (
        record {
          vss = pos 0;
          rss = pos 65536;
          output = pos 0;
          time = pos 1000000;
          ignore_verdict = false;
          td_groups = [];
        }
        ∷ [])
unfolding all_limits td_limits haskell_limits
all_limits_test = refl

-- A position past the last testdata refuses the submission.
add_tasks_test :
    (lims : List TestdataItem)
    → add_tasks 0 (record { positions = some (negsuc 0) ∷ []; score = some (pos 100) } ∷ []) lims
      ≡ none
unfolding add_tasks add_positions
add_tasks_test lims = refl

abbrev accepts : {A : Type 0} → Option A → ℕ
accepts none = 0
accepts (some a) = 1

read_submission_test : accepts (read_submission 2 gcc_cpp_17 9 frame) ≡ 1
unfolding read_submission all_limits td_limits haskell_limits add_tasks add_positions add_group
    in_stages judge_fields interlib_read read_summary_lang read_prog_lang get_compiler find_compiler
    compiler_name
read_submission_test = refl
