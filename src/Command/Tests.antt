-- ===== src/Command/Tests.antt =====
-- The commands and limits of a submission.
use tioj_judge.Base.{◌≡◌, refl, true, false, [], ◌∷◌, none, some, arith}
use tioj_judge.Base.Int.{pos, negsuc}
use tioj_judge.Base.Text.{chars}
use tioj_judge.Verdict.{gcc_cpp_17, gcc_c_11, python3}
use tioj_judge.Submission.{Submission, TestdataItem, normal, no_interlib, no_summary}
use tioj_judge.Scorer.{bytes_eq}
use tioj_judge.Sandbox.{SandboxOptions}
use tioj_judge.Command.{Settings}
use tioj_judge.Command.Words.{gcc_command, gcc_standard, compile_command, execute_command}
use tioj_judge.Command.Execute.{run_execute}
use tioj_judge.Command.Limits.{Bounded, run_execute-Bounded}

abbrev settings : Settings
settings = record {
  k_box_root = [];
  k_max_rss = pos 2097152;
  k_max_output = pos 1048576;
  stretch = λ x. x;
  divide = λ x. x;
  path = none;
  exists = λ d. true;
}

abbrev item : TestdataItem
item = record {
  vss = pos 65536;
  rss = pos 2097151;
  output = pos 0;
  time = pos 1000000;
  ignore_verdict = false;
  td_groups = [];
}

abbrev sub : Submission
sub = record {
  submission_internal_id = 7;
  submission_id = 70;
  contest_id = 0;
  priority = pos 5;
  submission_time = pos 0;
  submitter_id = 1;
  submitter_name = "a";
  submitter_nickname = "b";
  lang = gcc_cpp_17;
  problem_id = 3;
  specjudge_type = normal;
  interlib_type = no_interlib;
  summary_type = no_summary;
  specjudge_lang = gcc_cpp_17;
  summary_lang = python3;
  problem_prog_lang = gcc_cpp_17;
  stages = 1;
  problem_prog_stages = [];
  judge_between_stages = false;
  judge_abnormally_terminated = false;
  specjudge_re_as_wa = false;
  sandbox_strict = true;
  process_limit = 1;
  testdata = item ∷ [];
  group_score = pos 100 ∷ [];
  skip_group = true;
  report_intermediate_stage = false;
  remove_submission = true;
}

run_execute-Bounded_example :
    (o : SandboxOptions) × (run_execute settings sub [] 0 0
        (pos 50000)
        (negsuc 0)
        (some (pos 3, pos 4))
      ≡ some o)
    × Bounded settings sub item (pos 50000) o
run_execute-Bounded_example =
    run_execute-Bounded settings sub [] 0 0 (pos 50000) (negsuc 0) (pos 3, pos 4) item (pos 0) refl
      refl (omega arith) (omega arith)

gcc_command_test :
    compile_command gcc_c_11 true (chars "in.c") [] (chars "out")
    ≡ chars "/usr/bin/env"
      ∷ chars "gcc"
      ∷ chars "-std=c11"
      ∷ chars "-O2"
      ∷ chars "-w"
      ∷ chars "-static"
      ∷ chars "-o"
      ∷ chars "out"
      ∷ chars "in.c"
      ∷ chars "-lm"
      ∷ []
unfolding compile_command gcc_command gcc_standard chars bytes_eq
gcc_command_test = refl

python_test :
    execute_command python3 (chars "p") ≡ chars "/usr/bin/env" ∷ chars "python3" ∷ chars "p" ∷ []
unfolding execute_command chars
python_test = refl
