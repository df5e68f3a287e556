-- ===== src/Command/Words.antt =====
-- The command lines of src/tioj/tasks.cpp: `GccCompileCommand`, `ExecuteCommand`, and the commands that
-- `RunCompile` and `RunScoring` build.
use tioj_judge.Base.{ℕ, Bool, true, false, List, [], ◌∷◌, ◌++◌, Option, none, some, if◌then◌else◌}
use tioj_judge.Base.Int.{pos, negsuc}
use tioj_judge.Base.Text.{chars}
use tioj_judge.Verdict.{
  Compiler, gcc_cpp_98, gcc_cpp_11, gcc_cpp_14, gcc_cpp_17, gcc_cpp_20, gcc_c_90, gcc_c_99,
  gcc_c_11, gcc_c_17, rustc_rust_2021, haskell, python2, python3, custom,
}
use tioj_judge.Submission.{
  SpecjudgeType, normal, specjudge_old, specjudge_new, specjudge_polygon, specjudge_kattis,
}
use tioj_judge.Graph.{CompileSubtask, specjudge}
use tioj_judge.Scorer.{bytes_eq}
use tioj_judge.Paths.{Name, to_string}
use tioj_judge.Paths.Files.{
  scoring_box_user_output, scoring_box_td_input, scoring_box_td_output, scoring_box_user_code,
  scoring_box_tempdir, scoring_box_meta_file,
}
use tioj_judge.Command.{path_string}

-- The program and the standard of GccCompileCommand; none where the code is unreachable.
unfoldable pub gcc_standard : Compiler → Option (Name × Name)
unfolding chars
gcc_standard gcc_cpp_98 = some (chars "g++", chars "-std=c++98")
gcc_standard gcc_cpp_11 = some (chars "g++", chars "-std=c++11")
gcc_standard gcc_cpp_14 = some (chars "g++", chars "-std=c++14")
gcc_standard gcc_cpp_17 = some (chars "g++", chars "-std=c++17")
gcc_standard gcc_cpp_20 = some (chars "g++", chars "-std=c++20")
gcc_standard gcc_c_90 = some (chars "gcc", chars "-ansi")
gcc_standard gcc_c_99 = some (chars "gcc", chars "-std=c99")
gcc_standard gcc_c_11 = some (chars "gcc", chars "-std=c11")
gcc_standard gcc_c_17 = some (chars "gcc", chars "-std=c17")
gcc_standard _ = none

abbrev pub word_if : Bool → Name → List Name
word_if b word = if b then word ∷ [] else []

abbrev pub no_name : Name → Bool
no_name [] = true
no_name (c ∷ cs) = false

unfoldable pub gcc_command : Name → Name → Name → Name → Name → Bool → List Name
unfolding chars bytes_eq
gcc_command prog std input interlib output is_static =
    (chars "/usr/bin/env" ∷ prog ∷ std ∷ chars "-O2" ∷ chars "-w" ∷ [])
    ++ (word_if is_static (chars "-static")
        ++ ((chars "-o" ∷ output ∷ input ∷ [])
            ++ ((if no_name interlib then [] else interlib ∷ [])
                ++ word_if (bytes_eq prog (chars "gcc")) (chars "-lm"))))

-- The switch of RunCompile.
unfoldable pub compile_command : Compiler → Bool → Name → Name → Name → List Name
unfolding chars gcc_command gcc_standard
compile_command rustc_rust_2021 strict input interlib output =
    (chars "/usr/bin/env"
      ∷ chars "rustc"
      ∷ input
      ∷ chars "-O"
      ∷ chars "--edition=2021"
      ∷ chars "-o"
      ∷ output
      ∷ [])
    ++ (if strict then chars "-C" ∷ chars "target-feature=+crt-static" ∷ [] else [])
compile_command haskell strict input interlib output =
    (chars "/usr/bin/env"
      ∷ chars "ghc"
      ∷ chars "-w"
      ∷ chars "-O"
      ∷ chars "-tmpdir"
      ∷ chars "."
      ∷ chars "-o"
      ∷ output
      ∷ input
      ∷ [])
    ++ (if strict
        then chars "-static"
          ∷ chars "-optl-pthread"
          ∷ chars "-optl-static"
          ∷ chars "-optl-fuse-ld=bfd"
          ∷ []
        else [])
compile_command python2 strict input interlib output =
    chars "/usr/bin/env" ∷ chars "python2" ∷ chars "-m" ∷ chars "py_compile" ∷ input ∷ []
compile_command python3 strict input interlib output =
    chars "/usr/bin/env"
    ∷ chars "python3"
    ∷ chars "-c"
    ∷ (chars "import py_compile;py_compile.compile('''"
        ++ (input ++ (chars "''','''" ++ (output ++ chars "''')"))))
    ∷ []
compile_command custom strict input interlib output = []
compile_command lang strict input interlib output = elim (gcc_standard lang) [
  | none ↦ []
  | some (prog, std) ↦ gcc_command prog std input interlib output strict
]

-- What RunCompile adds for a special judge.
unfoldable pub judge_define : CompileSubtask → SpecjudgeType → List Name
unfolding chars
judge_define specjudge specjudge_new = chars "-DTIOJ_NEW_SPECJUDGE" ∷ []
judge_define specjudge specjudge_polygon = chars "-DTESTSYS" ∷ []
judge_define _ _ = []

-- ExecuteCommand
unfoldable pub execute_command : Compiler → Name → List Name
unfolding chars
execute_command python2 program = chars "/usr/bin/env" ∷ chars "python2" ∷ program ∷ []
execute_command python3 program = chars "/usr/bin/env" ∷ chars "python3" ∷ program ∷ []
execute_command lang program = program ∷ []

-- The arguments of a judge in RunScoring; `default_scoring_args` are the submission's, and `name` is
-- CompilerName of its language.
unfoldable pub scoring_args : SpecjudgeType → Compiler → Name → ℕ → List Name → List Name
unfolding path_string scoring_box_user_output scoring_box_td_input scoring_box_td_output
    scoring_box_user_code scoring_box_tempdir scoring_box_meta_file to_string
scoring_args kind lang name stage default_scoring_args =
    let none_left = negsuc 0 in
    let user_output = path_string (scoring_box_user_output [] none_left none_left none_left true) in
    let td_in = path_string (scoring_box_td_input [] none_left none_left none_left true) in
    let td_out = path_string (scoring_box_td_output [] none_left none_left none_left true) in
    let code = path_string (scoring_box_user_code [] none_left none_left none_left lang true) in
    let tempdir = path_string (scoring_box_tempdir [] none_left none_left none_left true) in
    let meta = path_string (scoring_box_meta_file [] none_left none_left none_left true) in
    elim kind [
      | specjudge_old ↦ user_output ∷ td_in ∷ td_out ∷ name ∷ code ∷ to_string (pos stage) ∷ []
      | specjudge_polygon ↦ td_in ∷ user_output ∷ td_out ∷ []
      | specjudge_kattis ↦ td_in ∷ td_out ∷ (tempdir ++ (47 ∷ [])) ∷ meta ∷ []
      | normal ↦ meta ∷ default_scoring_args
      | _ ↦ meta ∷ []
    ]
