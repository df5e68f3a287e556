-- ===== src/Paths/Files.antt =====
-- The files in the boxes, src/tioj/paths.cpp, those of a submission, and those of the testdata,
-- src/paths.cpp.
use tioj_judge.Base.{ℕ, Bool, true, false, List, ◌++◌, if◌then◌else◌}
use tioj_judge.Base.Int.{ℤ}
use tioj_judge.Base.Text.{chars}
use tioj_judge.Graph.{CompileSubtask, userprog}
use tioj_judge.Verdict.{Compiler, python2, python3, custom}
use tioj_judge.Paths.{
  Name, join, pad_int, workdir_path, code_extension, program_extension, compile_code_name,
  compile_result_name, interlib_name, box_root, compile_box_path, execute_box_path,
  scoring_box_path, summary_box_path,
}

-- `std::filesystem::perms`, as the number of its bits.
abbrev pub perms_all : ℕ
perms_all = 511

abbrev pub perms_711 : ℕ
perms_711 = 457

abbrev pub perms_755 : ℕ
perms_755 = 493

-- ExecuteBoxProgramPerm
unfoldable pub execute_box_program_perm : Compiler → Bool → ℕ
execute_box_program_perm lang false = perms_all
execute_box_program_perm python2 true = perms_755
execute_box_program_perm python3 true = perms_755
execute_box_program_perm custom true = perms_755
execute_box_program_perm lang true = perms_711

module _ (k_box_root : List Name) where
  unfoldable pub compile_box_input : ℤ → CompileSubtask → Compiler → Bool → List Name
  unfolding workdir_path compile_box_path compile_code_name
  compile_box_input id subtask lang inside_box =
      join (workdir_path (box_root (compile_box_path k_box_root id subtask) inside_box))
        (compile_code_name subtask lang)

  unfoldable pub compile_box_interlib : ℤ → ℤ → Bool → List Name
  unfolding workdir_path compile_box_path interlib_name
  compile_box_interlib id problem_id inside_box =
      join (workdir_path (box_root (compile_box_path k_box_root id userprog) inside_box))
        (interlib_name problem_id)

  unfoldable pub compile_box_interlib_impl : ℤ → Compiler → Bool → List Name
  unfolding workdir_path compile_box_path code_extension chars
  compile_box_interlib_impl id lang inside_box =
      join (workdir_path (box_root (compile_box_path k_box_root id userprog) inside_box))
        (chars "interlib" ++ code_extension lang)

  unfoldable pub compile_box_message : ℤ → CompileSubtask → Bool → List Name
  unfolding workdir_path compile_box_path chars
  compile_box_message id subtask inside_box =
      join (workdir_path (box_root (compile_box_path k_box_root id subtask) inside_box))
        (chars "message")

  unfoldable pub compile_box_output : ℤ → CompileSubtask → Compiler → Bool → List Name
  unfolding workdir_path compile_box_path compile_result_name
  compile_box_output id subtask lang inside_box =
      join (workdir_path (box_root (compile_box_path k_box_root id subtask) inside_box))
        (compile_result_name subtask lang)

  unfoldable pub execute_box_program : ℤ → ℤ → ℤ → Compiler → Bool → List Name
  unfolding workdir_path execute_box_path program_extension chars
  execute_box_program id td stage lang inside_box =
      join (workdir_path (box_root (execute_box_path k_box_root id td stage) inside_box))
        (chars "prog" ++ program_extension lang)

  unfoldable pub execute_box_td_strict_path : ℤ → ℤ → ℤ → Bool → List Name
  unfolding execute_box_path chars
  execute_box_td_strict_path id td stage inside_box =
      join (box_root (execute_box_path k_box_root id td stage) inside_box) (chars "td")

  unfoldable pub execute_box_input : ℤ → ℤ → ℤ → Bool → Bool → List Name
  unfolding execute_box_td_strict_path workdir_path execute_box_path chars
  execute_box_input id td stage strict inside_box =
      if strict
      then join (execute_box_td_strict_path id td stage inside_box) (chars "input")
      else join (workdir_path (box_root (execute_box_path k_box_root id td stage) inside_box))
          (chars "input")

  unfoldable pub execute_box_output : ℤ → ℤ → ℤ → Bool → Bool → List Name
  unfolding execute_box_td_strict_path workdir_path execute_box_path chars
  execute_box_output id td stage strict inside_box =
      if strict
      then join (execute_box_td_strict_path id td stage inside_box) (chars "output")
      else join (workdir_path (box_root (execute_box_path k_box_root id td stage) inside_box))
          (chars "output")

  unfoldable pub execute_box_error : ℤ → ℤ → ℤ → Bool → List Name
  unfolding workdir_path execute_box_path chars
  execute_box_error id td stage inside_box =
      join (workdir_path (box_root (execute_box_path k_box_root id td stage) inside_box))
        (chars "error")

  unfoldable pub execute_box_final_output : ℤ → ℤ → ℤ → List Name
  unfolding execute_box_path chars
  execute_box_final_output id td stage =
      join (execute_box_path k_box_root id td stage) (chars "output")

  unfoldable pub scoring_box_program : ℤ → ℤ → ℤ → Compiler → Bool → List Name
  unfolding workdir_path scoring_box_path program_extension chars
  scoring_box_program id td stage lang inside_box =
      join (workdir_path (box_root (scoring_box_path k_box_root id td stage) inside_box))
        (chars "prog" ++ program_extension lang)

  unfoldable pub scoring_box_user_code : ℤ → ℤ → ℤ → Compiler → Bool → List Name
  unfolding workdir_path scoring_box_path code_extension chars
  scoring_box_user_code id td stage lang inside_box =
      join (workdir_path (box_root (scoring_box_path k_box_root id td stage) inside_box))
        (chars "code" ++ code_extension lang)

  unfoldable pub scoring_box_user_output : ℤ → ℤ → ℤ → Bool → List Name
  unfolding workdir_path scoring_box_path chars
  scoring_box_user_output id td stage inside_box =
      join (workdir_path (box_root (scoring_box_path k_box_root id td stage) inside_box))
        (chars "user_output")

  unfoldable pub scoring_box_td_input : ℤ → ℤ → ℤ → Bool → List Name
  unfolding workdir_path scoring_box_path chars
  scoring_box_td_input id td stage inside_box =
      join (workdir_path (box_root (scoring_box_path k_box_root id td stage) inside_box))
        (chars "td_input")

  unfoldable pub scoring_box_td_output : ℤ → ℤ → ℤ → Bool → List Name
  unfolding workdir_path scoring_box_path chars
  scoring_box_td_output id td stage inside_box =
      join (workdir_path (box_root (scoring_box_path k_box_root id td stage) inside_box))
        (chars "td_output")

  unfoldable pub scoring_box_meta_file : ℤ → ℤ → ℤ → Bool → List Name
  unfolding workdir_path scoring_box_path chars
  scoring_box_meta_file id td stage inside_box =
      join (workdir_path (box_root (scoring_box_path k_box_root id td stage) inside_box))
        (chars "meta")

  unfoldable pub scoring_box_output : ℤ → ℤ → ℤ → Bool → List Name
  unfolding workdir_path scoring_box_path chars
  scoring_box_output id td stage inside_box =
      join (workdir_path (box_root (scoring_box_path k_box_root id td stage) inside_box))
        (chars "output")

  unfoldable pub scoring_box_tempdir : ℤ → ℤ → ℤ → Bool → List Name
  unfolding scoring_box_path chars
  scoring_box_tempdir id td stage inside_box =
      join (box_root (scoring_box_path k_box_root id td stage) inside_box) (chars "tmp")

  unfoldable pub summary_box_program : ℤ → Compiler → Bool → List Name
  unfolding workdir_path summary_box_path program_extension chars
  summary_box_program id lang inside_box =
      join (workdir_path (box_root (summary_box_path k_box_root id) inside_box))
        (chars "prog" ++ program_extension lang)

  unfoldable pub summary_box_user_code : ℤ → Compiler → Bool → List Name
  unfolding workdir_path summary_box_path code_extension chars
  summary_box_user_code id lang inside_box =
      join (workdir_path (box_root (summary_box_path k_box_root id) inside_box))
        (chars "code" ++ code_extension lang)

  unfoldable pub summary_box_ce_message : ℤ → Bool → List Name
  unfolding workdir_path summary_box_path chars
  summary_box_ce_message id inside_box =
      join (workdir_path (box_root (summary_box_path k_box_root id) inside_box))
        (chars "ce_message")

  unfoldable pub summary_box_meta_file : ℤ → Bool → List Name
  unfolding workdir_path summary_box_path chars
  summary_box_meta_file id inside_box =
      join (workdir_path (box_root (summary_box_path k_box_root id) inside_box)) (chars "meta")

  unfoldable pub summary_box_output : ℤ → Bool → List Name
  unfolding workdir_path summary_box_path chars
  summary_box_output id inside_box =
      join (workdir_path (box_root (summary_box_path k_box_root id) inside_box)) (chars "output")

-- The data that the judge is installed with.
module _ (k_data_dir : List Name) where
  unfoldable pub default_scoring_path : List Name
  unfolding chars
  default_scoring_path = join k_data_dir (chars "default-scoring")

  unfoldable pub specjudge_headers_path : List Name
  unfolding chars
  specjudge_headers_path = join k_data_dir (chars "judge-headers")

-- The files of a submission, below `kSubmissionRoot`.
module _ (k_submission_root : List Name) where
  unfoldable pub submission_code_path : ℤ → List Name
  unfolding pad_int
  submission_code_path id = join k_submission_root (pad_int id 6)

  unfoldable pub submission_user_code : ℤ → List Name
  unfolding submission_code_path chars
  submission_user_code id = join (submission_code_path id) (chars "prog")

  unfoldable pub submission_problem_prog_code : ℤ → List Name
  unfolding submission_code_path chars
  submission_problem_prog_code id = join (submission_code_path id) (chars "prob_prog")

  unfoldable pub submission_judge_code : ℤ → List Name
  unfolding submission_code_path chars
  submission_judge_code id = join (submission_code_path id) (chars "judge")

  unfoldable pub submission_summary_code : ℤ → List Name
  unfolding submission_code_path chars
  submission_summary_code id = join (submission_code_path id) (chars "summary")

  unfoldable pub submission_interlib_code : ℤ → List Name
  unfolding submission_code_path chars
  submission_interlib_code id = join (submission_code_path id) (chars "interlib")

  unfoldable pub submission_interlib_impl_code : ℤ → List Name
  unfolding submission_code_path chars
  submission_interlib_impl_code id = join (submission_code_path id) (chars "interlib_impl")

-- The testdata, below `kTestdataRoot`.
module _ (k_testdata_root : List Name) where
  unfoldable pub td_root : List Name
  unfolding chars
  td_root = join k_testdata_root (chars "testdata")

  unfoldable pub td_path : ℤ → List Name
  unfolding td_root pad_int
  td_path prob = join td_root (pad_int prob 4)

  unfoldable pub td_input : ℤ → ℤ → List Name
  unfolding td_path pad_int chars
  td_input prob td = join (td_path prob) (chars "input" ++ pad_int td 3)

  unfoldable pub td_answer : ℤ → ℤ → List Name
  unfolding td_path pad_int chars
  td_answer prob td = join (td_path prob) (chars "output" ++ pad_int td 3)
