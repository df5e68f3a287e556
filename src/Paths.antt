-- ===== src/Paths.antt =====
-- The paths of the boxes, src/tioj/paths.cpp. A path is the names from the root on, a name its characters.
pub mod Numbers
pub mod Boxes
pub mod Files
mod Tests
use tioj_judge.Base.{
  ℕ, zero, suc, ◌+◌, ◌-◌, ◌/◌, ◌%◌, Bool, true, false, List, [], ◌∷◌, ◌++◌, ltb, if◌then◌else◌,
  length, replicate,
}
use tioj_judge.Base.Int.{ℤ, pos, negsuc}
use tioj_judge.Base.Text.{chars}
use tioj_judge.Graph.{CompileSubtask, userprog, specjudge, summary_prog, probprog}
use tioj_judge.Verdict.{
  Compiler, gcc_cpp_98, gcc_cpp_11, gcc_cpp_14, gcc_cpp_17, gcc_cpp_20, gcc_c_90, gcc_c_99,
  gcc_c_11, gcc_c_17, rustc_rust_2021, haskell, python2, python3, custom,
}

abbrev pub Name : Type 0
Name = List ℕ

-- `path / name`
abbrev pub join : List Name → Name → List Name
join path name = path ++ (name ∷ [])

-- The decimal digits of a number; the number itself is fuel enough.
unfoldable pub digits : ℕ → ℕ → Name
digits zero n = (48 + n) ∷ []
digits (suc fuel) n =
    let rest = digits fuel (n / 10) in
    if ltb n 10 then (48 + n) ∷ [] else rest ++ ((48 + n % 10) ∷ [])

-- `std::to_string`
unfoldable pub to_string : ℤ → Name
unfolding digits
to_string (pos n) = digits n n
to_string (negsuc n) = 45 ∷ digits (suc n) (suc n)

-- PadInt
unfoldable pub pad_int : ℤ → ℕ → Name
unfolding to_string
pad_int x width =
    let ret = to_string x in
    if ltb (length ret) width then replicate (width - length ret) 48 ++ ret else ret

-- Workdir
unfoldable pub workdir_path : List Name → List Name
unfolding chars
workdir_path path = join path (chars "workdir")

unfoldable pub code_extension : Compiler → Name
unfolding chars
code_extension gcc_cpp_98 = chars ".cpp"
code_extension gcc_cpp_11 = chars ".cpp"
code_extension gcc_cpp_14 = chars ".cpp"
code_extension gcc_cpp_17 = chars ".cpp"
code_extension gcc_cpp_20 = chars ".cpp"
code_extension gcc_c_90 = chars ".c"
code_extension gcc_c_99 = chars ".c"
code_extension gcc_c_11 = chars ".c"
code_extension gcc_c_17 = chars ".c"
code_extension rustc_rust_2021 = chars ".rs"
code_extension haskell = chars ".hs"
code_extension python2 = chars ".py"
code_extension python3 = chars ".py"
code_extension custom = []

unfoldable pub program_extension : Compiler → Name
unfolding chars
program_extension python3 = chars ".pyc"
program_extension _ = []

-- The name that CompileCodeName and CompileResultName share.
unfoldable pub subtask_name : CompileSubtask → Name
unfolding chars
subtask_name userprog = chars "prog"
subtask_name specjudge = chars "judge"
subtask_name summary_prog = chars "summary"
subtask_name probprog = chars "prob_prog"

unfoldable pub compile_code_name : CompileSubtask → Compiler → Name
unfolding code_extension subtask_name
compile_code_name subtask lang = subtask_name subtask ++ code_extension lang

unfoldable pub compile_result_name : CompileSubtask → Compiler → Name
unfolding program_extension subtask_name
compile_result_name subtask lang = subtask_name subtask ++ program_extension lang

unfoldable pub interlib_name : ℤ → Name
unfolding pad_int chars
interlib_name problem_id = chars "lib" ++ pad_int problem_id 4 ++ chars ".h"

abbrev pub box_root : List Name → Bool → List Name
box_root root inside_box = if inside_box then [] else root

-- `(int)subtask`
abbrev pub subtask_index : CompileSubtask → ℤ
subtask_index userprog = pos 0
subtask_index specjudge = pos 1
subtask_index summary_prog = pos 2
subtask_index probprog = pos 3

-- The boxes of the tasks, below `kBoxRoot`.
module _ (k_box_root : List Name) where
  unfoldable pub submission_run_path : ℤ → List Name
  unfolding pad_int
  submission_run_path id = join k_box_root (pad_int id 6)

  unfoldable pub compile_box_path : ℤ → CompileSubtask → List Name
  unfolding submission_run_path to_string chars
  compile_box_path id subtask =
      join (submission_run_path id) (chars "compile" ++ to_string (subtask_index subtask))

  unfoldable pub execute_box_path : ℤ → ℤ → ℤ → List Name
  unfolding submission_run_path pad_int chars
  execute_box_path id td stage =
      join (submission_run_path id)
        (chars "execute" ++ pad_int td 3 ++ chars "_" ++ pad_int stage 2)

  unfoldable pub scoring_box_path : ℤ → ℤ → ℤ → List Name
  unfolding submission_run_path pad_int chars
  scoring_box_path id td stage =
      join (submission_run_path id)
        (chars "scoring" ++ pad_int td 3 ++ chars "_" ++ pad_int stage 2)

  unfoldable pub summary_box_path : ℤ → List Name
  unfolding submission_run_path chars
  summary_box_path id = join (submission_run_path id) (chars "summary")
