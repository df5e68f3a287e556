-- ===== src/Handler/Compile.antt =====
-- `GetLang`, the check of `SetupCompile` and the verdict of `FinalizeCompile` (src/tioj/submission.cpp).
-- Copying files and the messages of the compiler are left out.
pub mod Verdicts
mod Tests
use tioj_judge.Base.{ℕ, Bool, true, false, not, ◌||◌, if◌then◌else◌}
use tioj_judge.Base.Int.{ℤ, pos, negsuc, ltb_ℤ}
use tioj_judge.Order.{has_group}
use tioj_judge.Verdict.{Verdict, ce, cle, jce, je, verdict_max, Compiler}
use tioj_judge.Graph.{CompileSubtask, userprog, specjudge, summary_prog, probprog}
use tioj_judge.Submission.{Submission, CjailResult}
use tioj_judge.Handler.{eq_ℤ, is_zero, Cancelled}

-- GetLang
unfoldable pub get_lang : Submission → CompileSubtask → Compiler
get_lang sub userprog = sub.lang
get_lang sub specjudge = sub.specjudge_lang
get_lang sub summary_prog = sub.summary_lang
get_lang sub probprog = sub.problem_prog_lang

-- Whether the compilation runs.
unfoldable pub setup_compile : Cancelled → Submission → Bool
unfolding has_group
setup_compile c sub = not (has_group sub.submission_internal_id c.cancelled_list)

abbrev pub killed : CjailResult → Bool
killed r = not (is_zero r.timekill) || ltb_ℤ (pos 0) r.oomkill

-- The verdict of a compilation that failed.
unfoldable pub failed_verdict : CompileSubtask → CjailResult → Verdict
failed_verdict userprog r = if killed r then cle else ce
failed_verdict _ r = jce

-- The verdict of the submission after the compilation; `output` says that the compiler left a regular
-- file.
unfoldable pub finalize_compile : CompileSubtask → CjailResult → Bool → Verdict → Verdict
unfolding failed_verdict
finalize_compile subtask r output v =
    if eq_ℤ r.timekill (negsuc 0)
    then je
    else if killed r || (not (is_zero r.si_status) || not output)
    then verdict_max v (failed_verdict subtask r)
    else v
