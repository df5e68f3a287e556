-- ===== src/Command/Run.antt =====
-- The options of the sandbox that `RunCompile`, `RunScoring` and `RunSummary` set up (src/tioj/tasks.cpp).
use tioj_judge.Base.{ℕ, Bool, true, false, List, [], ◌∷◌, ◌++◌, if◌then◌else◌}
use tioj_judge.Base.Int.{ℤ, pos}
use tioj_judge.Base.Text.{chars}
use tioj_judge.Verdict.{Compiler, rustc_rust_2021, is_haskell, compiler_name}
use tioj_judge.Submission.{
  Submission, SpecjudgeType, specjudge_old, specjudge_polygon, specjudge_kattis, include,
  no_interlib,
}
use tioj_judge.Graph.{CompileSubtask, userprog}
use tioj_judge.Sandbox.{SandboxOptions}
use tioj_judge.Handler.Compile.{get_lang}
use tioj_judge.Paths.{Name, workdir_path, compile_box_path, scoring_box_path, summary_box_path}
use tioj_judge.Paths.Files.{
  compile_box_input, compile_box_interlib_impl, compile_box_output, scoring_box_program,
  scoring_box_user_output, scoring_box_meta_file, scoring_box_output, scoring_box_tempdir,
  summary_box_program, summary_box_meta_file, summary_box_output,
}
use tioj_judge.Command.{
  Settings, default_options, path_string, filter_dirs, cpu_list, path_env, system_dirs, judge_dirs,
  dev_null, minute, inside,
}
use tioj_judge.Command.Words.{compile_command, judge_define, execute_command, scoring_args}

abbrev pub is_rust : Compiler → Bool
is_rust rustc_rust_2021 = true
is_rust _ = false

-- `interlib` of RunCompile
unfoldable pub interlib_file : Submission → CompileSubtask → Name
unfolding compile_box_interlib_impl path_string
interlib_file sub userprog = elim sub.interlib_type [
  | include ↦ path_string (compile_box_interlib_impl [] inside sub.lang true)
  | no_interlib ↦ []
]
interlib_file sub _ = []

-- RunCompile; `args` are those of ParseAdditionalArgs, and `fd` the file of the message.
unfoldable pub run_compile :
    Settings → Submission → CompileSubtask → (uid cpuid fd : ℤ) → List Name → SandboxOptions
unfolding get_lang compile_command judge_define compile_box_path compile_box_input
    compile_box_output interlib_file path_string filter_dirs system_dirs dev_null workdir_path chars
run_compile s sub subtask uid cpuid fd args =
    let lang = get_lang sub subtask in
    let in_file = path_string (compile_box_input [] inside subtask lang true) in
    let out_file = path_string (compile_box_output [] inside subtask lang true) in
    record default_options {
      boxdir = path_string (compile_box_path s.k_box_root (pos sub.submission_internal_id) subtask);
      command =
          compile_command lang sub.sandbox_strict in_file (interlib_file sub subtask) out_file
          ++ (judge_define subtask sub.specjudge_type ++ args);
      envs = (if is_rust lang then chars "TMPDIR=." ∷ [] else []) ++ path_env s.path;
      workdir = path_string (workdir_path []);
      input = dev_null;
      fd_output = fd;
      fd_error = fd;
      cpu_set = cpu_list cpuid;
      uid = uid;
      gid = uid;
      wall_time = s.divide minute;
      rss = s.k_max_rss;
      proc_num = pos 32;
      fsize = s.k_max_output;
      dirs =
          filter_dirs s.exists
            (system_dirs ++ (if is_haskell lang then chars "/var/lib/ghc" ∷ [] else []));
    }

-- Where the judge reads from and writes to.
unfoldable pub scoring_input : SpecjudgeType → Name
unfolding path_string scoring_box_meta_file scoring_box_user_output dev_null
scoring_input specjudge_old = path_string (scoring_box_meta_file [] inside inside inside true)
scoring_input specjudge_polygon = path_string (scoring_box_meta_file [] inside inside inside true)
scoring_input specjudge_kattis = path_string (scoring_box_user_output [] inside inside inside true)
scoring_input _ = dev_null

abbrev pub is_polygon : SpecjudgeType → Bool
is_polygon specjudge_polygon = true
is_polygon _ = false

-- RunScoring
unfoldable pub run_scoring :
    Settings → Submission → (subtask stage : ℕ) → (uid cpuid : ℤ) → List Name → SandboxOptions
unfolding scoring_box_path scoring_box_program scoring_box_output scoring_box_tempdir
    execute_command scoring_args scoring_input path_string filter_dirs judge_dirs dev_null
    workdir_path chars compiler_name
run_scoring s sub subtask stage uid cpuid default_scoring_args =
    let out_file = path_string (scoring_box_output [] inside inside inside true) in
    let kind = sub.specjudge_type in
    record default_options {
      boxdir = path_string (
          scoring_box_path s.k_box_root (pos sub.submission_internal_id) (pos subtask) (pos stage));
      command =
          execute_command sub.specjudge_lang
            (path_string (scoring_box_program [] inside inside inside sub.specjudge_lang true))
          ++ scoring_args kind sub.lang (chars (compiler_name sub.lang)) stage default_scoring_args;
      workdir = path_string (workdir_path []);
      input = scoring_input kind;
      output = if is_polygon kind then dev_null else out_file;
      error = if is_polygon kind then out_file else dev_null;
      cpu_set = cpu_list cpuid;
      uid = uid;
      gid = uid;
      wall_time = s.divide minute;
      rss = s.k_max_rss;
      proc_num = pos 10;
      fsize = s.k_max_output;
      dirs = filter_dirs s.exists judge_dirs;
      envs =
          (chars "TMPDIR=" ++ path_string (scoring_box_tempdir [] inside inside inside true)) ∷ [];
    }

-- RunSummary
unfoldable pub run_summary : Settings → Submission → (uid cpuid : ℤ) → SandboxOptions
unfolding summary_box_path summary_box_program summary_box_meta_file summary_box_output
    execute_command path_string filter_dirs judge_dirs dev_null workdir_path
run_summary s sub uid cpuid = record default_options {
  boxdir = path_string (summary_box_path s.k_box_root (pos sub.submission_internal_id));
  command =
      execute_command sub.summary_lang
        (path_string (summary_box_program [] inside sub.summary_lang true))
      ++ (path_string (summary_box_meta_file [] inside true) ∷ []);
  workdir = path_string (workdir_path []);
  input = dev_null;
  output = path_string (summary_box_output [] inside true);
  error = dev_null;
  cpu_set = cpu_list cpuid;
  uid = uid;
  gid = uid;
  wall_time = s.divide minute;
  rss = s.k_max_rss;
  proc_num = pos 10;
  fsize = s.k_max_output;
  dirs = filter_dirs s.exists judge_dirs;
}
