-- ===== src/Server/Frames.antt =====
-- The frames that the server sends and `DealOneSubmission` of src/server_io.cpp reads: a field is what
-- nlohmann's `get` answers, none where it throws. Ids are natural numbers, and the numbers of the kinds
-- those that name one.
use Prim.Native.String.{String}
use tioj_judge.Base.{ℕ, Bool, List, Option, none, some}
use tioj_judge.Base.Int.{ℤ}
use tioj_judge.Submission.{SpecjudgeType, InterlibType, SummaryType}

-- What `value` finds under a key.
pub data Given (A : Type 0) : Type 0 where
  missing : Given A
  invalid : Given A
  given : A → Given A

abbrev pub value : {A : Type 0} → Given A → A → Option A
value missing a = some a
value invalid a = none
value (given b) a = some b

pub record TdFrame : Type 0 where
  pub id : Option ℕ
  pub updated_at : Option ℤ
  pub input_compressed : Given Bool
  pub output_compressed : Given Bool
  pub time : Option ℤ
  pub vss : Option ℤ
  pub rss : Option ℤ
  pub output : Option ℤ
  pub verdict_ignore : Option Bool

pub record TaskFrame : Type 0 where
  pub positions : List (Option ℤ)
  pub score : Option ℤ

pub record ProblemFrame : Type 0 where
  pub id : Option ℕ
  pub strict_mode : Option Bool
  pub num_stages : Option ℤ
  pub problem_prog_stages : Given (List ℤ)
  pub problem_prog_compiler : Option String
  pub problem_prog_code : Option String
  pub specjudge_type : Option SpecjudgeType
  pub default_scoring_args : Option (List String)
  pub specjudge_compiler : Option String
  pub judge_between_stages : Option Bool
  pub sjcode : Option String
  pub specjudge_compile_args : Option String
  pub judge_abnormally_terminated : Given Bool
  pub judge_re_as_wa : Given Bool
  pub interlib_type : Option InterlibType
  pub interlib : Option String
  pub interlib_impl : Option String
  pub summary_type : Given SummaryType
  pub summary_compiler : Option String
  pub summary_code : Option String

pub record Frame : Type 0 where
  pub submission_id : Option ℕ
  pub contest_id : Option ℕ
  pub priority : Option ℤ
  pub compiler : Option String
  pub time : Option ℤ
  pub skip_group : Given Bool
  pub code_base64 : Option String
  pub user_id : Option ℕ
  pub user_name : Option String
  pub user_nickname : Option String
  pub problem : ProblemFrame
  pub td : List TdFrame
  pub tasks : List TaskFrame
