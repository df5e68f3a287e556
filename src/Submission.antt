-- ===== src/Submission.antt =====
-- The data of src/tioj/submission.h and include/tioj/submission.h: `Submission`, `SubmissionResult`,
-- and the part of cjail's result that the judge reads.
use Prim.Native.String.{String}
use tioj_judge.Base.{ℕ, Bool, List}
use tioj_judge.Base.Int.{ℤ}
use tioj_judge.Verdict.{Verdict, Compiler}

-- `SpecjudgeType`, in the order of ENUM_SPECJUDGE_TYPE_.
pub data SpecjudgeType : Type 0 where
  normal specjudge_old specjudge_new specjudge_polygon specjudge_kattis skip : SpecjudgeType

pub data InterlibType : Type 0 where
  no_interlib include : InterlibType

pub data SummaryType : Type 0 where
  no_summary custom_summary : SummaryType

-- `Submission::TestdataItem`, less its two file paths.
pub record TestdataItem : Type 0 where
  pub vss : ℤ
  pub rss : ℤ
  pub output : ℤ
  pub time : ℤ
  pub ignore_verdict : Bool
  pub td_groups : List ℕ

-- `Submission`, less its callbacks and the arguments of its commands. `problem_prog_stages`, a `std::set`, is a rising list.
pub record Submission : Type 0 where
  pub submission_internal_id : ℕ
  pub submission_id : ℕ
  pub contest_id : ℕ
  pub priority : ℤ
  pub submission_time : ℤ
  pub submitter_id : ℕ
  pub submitter_name : String
  pub submitter_nickname : String
  pub lang : Compiler
  pub problem_id : ℕ
  pub specjudge_type : SpecjudgeType
  pub interlib_type : InterlibType
  pub summary_type : SummaryType
  pub specjudge_lang : Compiler
  pub summary_lang : Compiler
  pub problem_prog_lang : Compiler
  pub stages : ℕ
  pub problem_prog_stages : List ℕ
  pub judge_between_stages : Bool
  pub judge_abnormally_terminated : Bool
  pub specjudge_re_as_wa : Bool
  pub sandbox_strict : Bool
  pub process_limit : ℕ
  pub testdata : List TestdataItem
  pub group_score : List ℤ
  pub skip_group : Bool
  pub report_intermediate_stage : Bool
  pub remove_submission : Bool

-- The fields of `struct cjail_result` that are read, after `ToUs` for the times.
pub record CjailResult : Type 0 where
  pub timekill : ℤ
  pub oomkill : ℤ
  pub si_code : ℤ
  pub si_status : ℤ
  pub user_us : ℤ
  pub sys_us : ℤ
  pub maxrss : ℤ
  pub hiwater_vm : ℤ

-- `SubmissionResult::TestdataResult`; a message is its bytes.
pub record TestdataResult : Type 0 where
  pub execute_result : CjailResult
  pub vss : ℤ
  pub rss : ℤ
  pub time : ℤ
  pub score : ℤ
  pub verdict : Verdict
  pub message_type : String
  pub message : List ℕ
  pub skip_stage : Bool

-- `SubmissionResult`
pub record SubmissionResult : Type 0 where
  pub td_results : List TestdataResult
  pub verdict : Verdict
  pub total_memory : ℤ
  pub total_time : ℤ
  pub total_score : ℤ
  pub ce_message : String
  pub jce_message : String
