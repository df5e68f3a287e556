-- ===== src/Paths/Tests.antt =====
-- Names and paths of a submission.
use tioj_judge.Base.{◌≡◌, refl, true, false, List, [], ◌∷◌}
use tioj_judge.Base.Int.{pos, negsuc}
use tioj_judge.Base.Text.{chars}
use tioj_judge.Verdict.{python3, gcc_cpp_17}
use tioj_judge.Graph.{specjudge}
use tioj_judge.Paths.{
  Name, to_string, digits, pad_int, submission_run_path, execute_box_path, workdir_path,
  program_extension, code_extension, subtask_name, compile_code_name,
}
use tioj_judge.Paths.Boxes.{execute_box, path_of-injective}
use tioj_judge.Paths.Files.{execute_box_program, compile_box_input}

abbrev root : List Name
root = chars "tmp" ∷ chars "tioj_box" ∷ []

pad_int_test : pad_int (pos 42) 6 ≡ chars "000042"
unfolding pad_int to_string digits chars
pad_int_test = refl

pad_int_long : pad_int (pos 1234567) 6 ≡ chars "1234567"
unfolding pad_int to_string digits chars
pad_int_long = refl

pad_int_negative : pad_int (negsuc 0) 3 ≡ chars "0-1"
unfolding pad_int to_string digits chars
pad_int_negative = refl

execute_box_program_test :
    execute_box_program root (pos 7) (pos 12) (pos 1) python3 false
    ≡ chars "tmp"
      ∷ chars "tioj_box"
      ∷ chars "000007"
      ∷ chars "execute012_01"
      ∷ chars "workdir"
      ∷ chars "prog.pyc"
      ∷ []
unfolding execute_box_program execute_box_path submission_run_path workdir_path program_extension
    pad_int to_string digits chars
execute_box_program_test = refl

compile_box_input_test :
    compile_box_input root (pos 7) specjudge gcc_cpp_17 true
    ≡ chars "workdir" ∷ chars "judge.cpp" ∷ []
unfolding compile_box_input compile_code_name subtask_name code_extension workdir_path chars
compile_box_input_test = refl

path_of-injective_example : execute_box 7 12 1 ≡ execute_box 7 12 1
path_of-injective_example = path_of-injective root (execute_box 7 12 1) (execute_box 7 12 1) refl
