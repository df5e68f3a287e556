-- ===== src/Handler/Compile/Tests.antt =====
-- A compilation that exits with status 1.
use tioj_judge.Base.{◌≤◌, ◌≡◌, ◌⊎◌, true, false}
use tioj_judge.Base.Int.{pos}
use tioj_judge.Verdict.{nul, rank}
use tioj_judge.Graph.{userprog}
use tioj_judge.Submission.{CjailResult}
use tioj_judge.Handler.{is_zero}
use tioj_judge.Handler.Compile.{killed, finalize_compile}
use tioj_judge.Handler.Compile.Verdicts.{Reason, finalize_compile-ge}

abbrev failed : CjailResult
failed = record {
  timekill = pos 0;
  oomkill = pos 0;
  si_code = pos 1;
  si_status = pos 1;
  user_us = pos 0;
  sys_us = pos 0;
  maxrss = pos 0;
  hiwater_vm = pos 0;
}

finalize_compile-ge_example :
    (rank nul ≤ rank (finalize_compile userprog failed true nul))
    × (killed failed ≡ false
        → is_zero failed.si_status ≡ true
        → true ≡ true
        → finalize_compile userprog failed true nul ≡ nul)
    × ((killed failed ≡ true) ⊎ (is_zero failed.si_status ≡ false) ⊎ (true ≡ false)
        → 10 ≤ rank (finalize_compile userprog failed true nul))
    × ((finalize_compile userprog failed true nul ≡ nul)
        ⊎ Reason userprog failed (finalize_compile userprog failed true nul))
finalize_compile-ge_example = finalize_compile-ge userprog failed true nul
