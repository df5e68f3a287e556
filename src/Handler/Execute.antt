-- ===== src/Handler/Execute.antt =====
-- `SetupExecute` and `FinalizeExecute` of src/tioj/submission.cpp: whether a stage of a testdata runs,
-- and what its run says about it. Moving and removing the files of the run is left out.
pub mod Verdicts
pub mod Results
use tioj_judge.Base.{
  ℕ, zero, suc, ◌+◌, ◌-◌, Bool, true, false, not, ◌&&◌, ◌||◌, List, [], ◌∷◌, ◌++◌, Option, none,
  some, ltb, leb, ◌==◌, if◌then◌else◌, length, get_elem?, set, replicate,
}
use tioj_judge.Base.Int.{ℤ, pos, negsuc, ◌+ℤ◌, ltb_ℤ}
use tioj_judge.Verdict.{Verdict, nul, tle, mle, ole, re, sig, ee, rank}
use tioj_judge.Submission.{Submission, TestdataItem, CjailResult, TestdataResult, SubmissionResult}
use tioj_judge.Handler.{eq_ℤ, is_zero, max_ℤ, SubmissionAndResult, Cancelled, is_cancelled}

-- CLD_EXITED, CLD_KILLED, CLD_DUMPED, SIGPIPE and SIGXFSZ of Linux.
abbrev pub cld_exited : ℤ
cld_exited = pos 1

abbrev pub cld_killed : ℤ
cld_killed = pos 2

abbrev pub cld_dumped : ℤ
cld_dumped = pos 3

abbrev pub sigpipe : ℤ
sigpipe = pos 13

abbrev pub sigxfsz : ℤ
sigxfsz = pos 25

-- An empty `cjail_result`.
abbrev pub no_run : CjailResult
no_run = record {
  timekill = pos 0;
  oomkill = pos 0;
  si_code = pos 0;
  si_status = pos 0;
  user_us = pos 0;
  sys_us = pos 0;
  maxrss = pos 0;
  hiwater_vm = pos 0;
}

-- The constructor of `TestdataResult`.
abbrev pub new_result : TestdataResult
new_result = record {
  execute_result = no_run;
  vss = pos 0;
  rss = pos 0;
  time = pos 0;
  score = pos 0;
  verdict = nul;
  message_type = "";
  message = [];
  skip_stage = false;
}

-- A limit of 0 is none.
abbrev pub exceeds : ℤ → ℤ → Bool
exceeds limit x = not (is_zero limit) && ltb_ℤ limit x

abbrev pub over_memory : TestdataItem → TestdataResult → Bool
over_memory lim td = exceeds lim.vss td.vss || exceeds lim.rss td.rss

abbrev pub is_killed : CjailResult → Bool
is_killed r = eq_ℤ r.si_code cld_killed || eq_ℤ r.si_code cld_dumped

-- The chain of conditions, for the times and sizes that have been added up.
unfoldable pub execute_verdict : Bool → TestdataItem → CjailResult → TestdataResult → Verdict
execute_verdict strict lim r td =
    if eq_ℤ r.timekill (negsuc 0)
    then ee
    else if ltb_ℤ (pos 0) r.oomkill
    then mle
    else if not (is_zero r.timekill)
    then tle
    else if is_killed r
    then (if eq_ℤ r.si_status sigxfsz || (strict && eq_ℤ r.si_status sigpipe)
        then ole
        else if over_memory lim td
        then mle
        else sig)
    else if over_memory lim td
    then mle
    else if not (is_zero r.si_status)
    then re
    else if ltb_ℤ lim.time td.time
    then tle
    else nul

-- The times and sizes after a stage.
unfoldable pub add_usage : ℕ → CjailResult → TestdataResult → TestdataResult
add_usage zero r td = record td {
  execute_result = r;
  vss = r.hiwater_vm;
  rss = r.maxrss;
  time = r.user_us +ℤ r.sys_us;
  score = pos 0;
}
add_usage (suc stage) r td = record td {
  execute_result = r;
  vss = max_ℤ td.vss r.hiwater_vm;
  rss = max_ℤ td.rss r.maxrss;
  time = td.time +ℤ (r.user_us +ℤ r.sys_us);
}

unfoldable pub execute_result :
    Bool → TestdataItem → ℕ → CjailResult → TestdataResult → TestdataResult
unfolding execute_verdict add_usage
execute_result strict lim stage r td =
    let used = add_usage stage r td in record used { verdict = execute_verdict strict lim r used }

-- td_results.resize(subtask + 1) if it is shorter
unfoldable pub extend : ℕ → List TestdataResult → List TestdataResult
extend subtask rs = rs ++ replicate (subtask + 1 - length rs) new_result

abbrev pub finalized :
    Submission
    → ℕ
    → ℕ
    → CjailResult
    → List TestdataResult
    → Option TestdataItem
    → Option TestdataResult
    → Option (List TestdataResult)
finalized sub subtask stage r rs (some lim) (some td) =
    some (set rs subtask (execute_result sub.sandbox_strict lim stage r td))
finalized sub subtask stage r rs _ _ = none

-- FinalizeExecute; `none` is a subtask that the submission does not have.
unfoldable pub finalize_execute :
    Submission → ℕ → ℕ → CjailResult → List TestdataResult → Option (List TestdataResult)
unfolding execute_result extend
finalize_execute sub subtask stage r td_results =
    let rs = extend subtask td_results in
    finalized sub subtask stage r rs (get_elem? sub.testdata subtask) (get_elem? rs subtask)

abbrev may_continue : ℕ → Option TestdataResult → Bool
may_continue zero td = true
may_continue (suc stage) (some td) = not td.skip_stage && rank td.verdict == 0
may_continue (suc stage) none = false

abbrev groups_at : Option TestdataItem → List ℕ
groups_at (some t) = t.td_groups
groups_at none = []

-- SetupExecute: whether the stage runs. A later stage of a testdata without a result, which the source
-- would read past the vector, does not.
unfoldable pub setup_execute : Cancelled → SubmissionAndResult → ℕ → ℕ → Bool
unfolding is_cancelled
setup_execute c s subtask stage =
    rank s.result.verdict == 0
    && (not (
          is_cancelled c s.sub.submission_internal_id
            (groups_at (get_elem? s.sub.testdata subtask)))
        && may_continue stage (get_elem? s.result.td_results subtask))
