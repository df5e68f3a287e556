-- ===== src/Command/Execute.antt =====
-- The limits and the options of the sandbox that `RunExecute` (src/tioj/tasks.cpp) sets up.
use tioj_judge.Base.{
  ℕ, zero, suc, Bool, true, false, not, ◌||◌, List, [], ◌∷◌, ◌++◌, Option, none, some, ltb,
  if◌then◌else◌, get_elem?,
}
use tioj_judge.Base.Partial.{◌>>=◌}
use tioj_judge.Base.Int.{ℤ, pos, ltb_ℤ, ◌+ℤ◌, ◌-ℤ◌}
use tioj_judge.Verdict.{Compiler, python2, python3}
use tioj_judge.Submission.{Submission, TestdataItem, TestdataResult}
use tioj_judge.Order.{has_group}
use tioj_judge.Sandbox.{SandboxOptions}
use tioj_judge.Handler.{max_ℤ}
use tioj_judge.Paths.{to_string, workdir_path, execute_box_path}
use tioj_judge.Paths.Files.{
  execute_box_program, execute_box_input, execute_box_output, execute_box_error,
}
use tioj_judge.Command.{
  Settings, default_options, path_string, filter_dirs, cpu_list, path_env, system_dirs, dev_null,
  inside,
}
use tioj_judge.Command.Words.{execute_command}

-- `lim_time` of RunExecute
abbrev pub time_left : ℤ → ℕ → ℤ → ℤ
time_left time stage used =
    let left = if ltb 0 stage then time -ℤ used else time in
    if ltb_ℤ left (pos 0) then pos 0 else left

unfoldable pub wall_limit : Settings → ℤ → ℤ
wall_limit s time = s.divide (max_ℤ (s.stretch time) (time +ℤ pos 1000000))

unfoldable pub cpu_limit : Settings → ℤ → ℤ
cpu_limit s time =
    let cpu_time = s.divide (time +ℤ pos 50000) in
    if ltb_ℤ (pos 0) cpu_time then cpu_time else pos 1

-- kRSSLimitMargin and kVSSLimitMargin
abbrev pub rss_margin : ℤ
rss_margin = pos 1024

abbrev pub vss_margin : ℤ
vss_margin = pos 2048

unfoldable pub rss_limit : Settings → ℤ → ℤ
rss_limit s rss =
    if not (ltb_ℤ (pos 0) rss)
      || (not (ltb_ℤ rss s.k_max_rss) || not (ltb_ℤ rss_margin (s.k_max_rss -ℤ rss)))
    then s.k_max_rss
    else rss +ℤ rss_margin

abbrev pub long_max : ℤ
long_max = pos 9223372036854775807

unfoldable pub vss_limit : ℤ → ℤ
vss_limit vss =
    if not (ltb_ℤ (pos 0) vss)
    then pos 0
    else if ltb_ℤ (long_max -ℤ vss_margin) vss
    then long_max
    else vss +ℤ vss_margin

unfoldable pub fsize_limit : Settings → ℤ → ℤ
fsize_limit s output =
    if not (ltb_ℤ (pos 0) output) || ltb_ℤ s.k_max_output output then s.k_max_output else output

abbrev pub is_python : Compiler → Bool
is_python python2 = true
is_python python3 = true
is_python _ = false

-- What RunExecute sets in both modes.
unfoldable pub execute_options :
    Settings
    → Submission
    → TestdataItem
    → Compiler
    → (subtask stage : ℕ) → (used uid cpuid : ℤ) → SandboxOptions
unfolding execute_command execute_box_path execute_box_program path_string workdir_path to_string
    wall_limit cpu_limit rss_limit vss_limit fsize_limit
execute_options s sub lim lang subtask stage used uid cpuid =
    let time = time_left lim.time stage used in
    record default_options {
      boxdir = path_string (
          execute_box_path s.k_box_root (pos sub.submission_internal_id) (pos subtask) (pos stage));
      command =
          execute_command lang (path_string (execute_box_program [] inside inside inside lang true))
          ++ (if ltb 1 sub.stages then to_string (pos stage) ∷ [] else []);
      workdir = path_string (workdir_path []);
      cpu_set = cpu_list cpuid;
      uid = uid;
      gid = uid;
      wall_time = wall_limit s time;
      cpu_time = cpu_limit s time;
      rss = rss_limit s lim.rss;
      vss = vss_limit lim.vss;
      proc_num = pos sub.process_limit;
      fsize = fsize_limit s lim.output;
    }

-- The strict mode, with the ends of the pipes that carry the input and the output.
unfoldable pub strict_options : Settings → Compiler → ℤ × ℤ → SandboxOptions → SandboxOptions
unfolding filter_dirs system_dirs dev_null
strict_options s lang (fd_in, fd_out) opt = record opt {
  dirs = filter_dirs s.exists (if is_python lang then system_dirs else []);
  envs = if is_python lang then path_env s.path else [];
  fd_input = fd_in;
  fd_output = fd_out;
  error = dev_null;
}

unfoldable pub file_options : Settings → SandboxOptions → SandboxOptions
unfolding filter_dirs system_dirs path_string execute_box_input execute_box_output execute_box_error
file_options s opt = record opt {
  dirs = filter_dirs s.exists system_dirs;
  envs = path_env s.path;
  input = path_string (execute_box_input [] inside inside inside false true);
  output = path_string (execute_box_output [] inside inside inside false true);
  error = path_string (execute_box_error [] inside inside inside true);
  rss = opt.rss +ℤ opt.fsize;
}

unfoldable pub mode_options :
    Settings → Bool → Compiler → Option (ℤ × ℤ) → SandboxOptions → Option SandboxOptions
unfolding strict_options file_options
mode_options s false lang pipes opt = some (file_options s opt)
mode_options s true lang none opt = none
mode_options s true lang (some ends) opt = some (strict_options s lang ends opt)

-- The time of the stages before.
abbrev pub time_used : ℕ → Option TestdataResult → Option ℤ
time_used zero td = some (pos 0)
time_used (suc stage) none = none
time_used (suc stage) (some td) = some td.time

abbrev pub stage_lang : Submission → ℕ → Compiler
stage_lang sub stage =
    if has_group stage sub.problem_prog_stages then sub.problem_prog_lang else sub.lang

-- RunExecute; none for its error, when the pipes of the strict mode cannot be made (`pipes` is none), and
-- where it would read past the testdata or their results.
unfoldable pub run_execute :
    Settings
    → Submission
    → List TestdataResult
    → (subtask stage : ℕ) → (uid cpuid : ℤ) → Option (ℤ × ℤ)
    → Option SandboxOptions
unfolding execute_options mode_options has_group
run_execute s sub td_results subtask stage uid cpuid pipes = do
  lim ← get_elem? sub.testdata subtask
  used ← time_used stage (get_elem? td_results subtask)
  mode_options s sub.sandbox_strict (stage_lang sub stage) pipes
      (execute_options s sub lim (stage_lang sub stage) subtask stage used uid cpuid)
