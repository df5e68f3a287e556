-- ===== src/Handler/Meta.antt =====
-- The metadata that judges and custom summaries read, src/tioj/submission.cpp: `ScoreToString`,
-- `TestdataMeta`, `SummaryMeta` and `TestdataMetaOld`. A JSON object is a record of its fields.
pub mod Scores
use Prim.Native.String.{String}
use tioj_judge.Base.{
  ℕ, zero, suc, ◌-◌, ◌/◌, ◌%◌, Bool, true, List, [], ◌∷◌, ◌++◌, Option, none, some, ltb, ◌==◌,
  if◌then◌else◌, length, replicate, get_elem?,
}
use tioj_judge.Base.Partial.{◌>>=◌}
use tioj_judge.Base.Int.{ℤ, pos, negsuc}
use tioj_judge.Base.Text.{chars}
use tioj_judge.Verdict.{Verdict, rank, compiler_name, verdict_to_abr}
use tioj_judge.Paths.{Name, to_string}
use tioj_judge.Paths.Files.{
  scoring_box_td_input, scoring_box_td_output, scoring_box_user_output, scoring_box_user_code,
  scoring_box_tempdir, summary_box_user_code, summary_box_ce_message,
}
use tioj_judge.Submission.{Submission, TestdataItem, TestdataResult, SubmissionResult}
use tioj_judge.Handler.{SubmissionAndResult}

-- The quotient and the remainder of C++, towards zero.
abbrev pub minus : ℕ → ℤ
minus zero = pos 0
minus (suc n) = negsuc n

abbrev pub whole_part : ℤ → ℤ
whole_part (pos n) = pos (n / 1000000)
whole_part (negsuc n) = minus (suc n / 1000000)

abbrev pub rest_part : ℤ → ℤ
rest_part (pos n) = pos (n % 1000000)
rest_part (negsuc n) = minus (suc n % 1000000)

-- ScoreToString; `none` is the length that wraps, which std::string refuses.
unfoldable pub score_to_string : ℤ → Option Name
unfolding to_string
score_to_string score =
    let frac = to_string (rest_part score) in
    if ltb 6 (length frac)
    then none
    else some (to_string (whole_part score) ++ (46 ∷ (replicate (6 - length frac) 48 ++ frac)))

pub record MetaLimits : Type 0 where
  pub time_us : ℤ
  pub vss_kib : ℤ
  pub rss_kib : ℤ
  pub output_kib : ℤ

pub record MetaStats : Type 0 where
  pub exit_code : ℤ
  pub real_us : ℤ
  pub user_us : ℤ
  pub sys_us : ℤ
  pub max_rss_kib : ℤ
  pub max_vss_kib : ℤ

pub record TestdataMeta : Type 0 where
  pub input_file : List Name
  pub answer_file : List Name
  pub user_output_file : List Name
  pub user_code_file : List Name
  pub problem_id : ℕ
  pub contest_id : ℕ
  pub submission_id : ℕ
  pub submitter_id : ℕ
  pub submitter_name : String
  pub submitter_nickname : String
  pub submission_time : ℤ
  pub compiler : String
  pub testdata_index : ℕ
  pub current_stage : ℕ
  pub original_verdict : String
  pub current_time_us : ℤ
  pub message_type : String
  pub message : List ℕ
  pub tempdir : List Name
  pub limits : MetaLimits
  pub stats : MetaStats

-- An element of `testdata` of `SummaryMeta`.
pub record ResultMeta : Type 0 where
  pub verdict : String
  pub score : Name
  pub time_us : ℤ
  pub vss_kib : ℤ
  pub rss_kib : ℤ
  pub message_type : String
  pub message : List ℕ
  pub ignore_verdict : Bool
  pub subtasks : List ℕ

pub record SummaryMeta : Type 0 where
  pub user_code_file : List Name
  pub problem_id : ℕ
  pub contest_id : ℕ
  pub submission_id : ℕ
  pub submitter_id : ℕ
  pub submitter_name : String
  pub submitter_nickname : String
  pub submission_time : ℤ
  pub compiler : String
  pub ce_message : String
  pub ce_message_file : List Name
  pub verdict : String
  pub testdata : List ResultMeta
  pub subtask_scores : List Name

abbrev pub testdata_meta_at :
    List Name → ℤ → SubmissionAndResult → ℕ → ℕ → TestdataItem → TestdataResult → TestdataMeta
testdata_meta_at root real_us s subtask stage lim td = record {
  input_file = scoring_box_td_input root (negsuc 0) (negsuc 0) (negsuc 0) true;
  answer_file = scoring_box_td_output root (negsuc 0) (negsuc 0) (negsuc 0) true;
  user_output_file = scoring_box_user_output root (negsuc 0) (negsuc 0) (negsuc 0) true;
  user_code_file = scoring_box_user_code root (negsuc 0) (negsuc 0) (negsuc 0) s.sub.lang true;
  problem_id = s.sub.problem_id;
  contest_id = s.sub.contest_id;
  submission_id = s.sub.submission_id;
  submitter_id = s.sub.submitter_id;
  submitter_name = s.sub.submitter_name;
  submitter_nickname = s.sub.submitter_nickname;
  submission_time = s.sub.submission_time;
  compiler = compiler_name s.sub.lang;
  testdata_index = subtask;
  current_stage = stage;
  original_verdict = verdict_to_abr td.verdict;
  current_time_us = td.time;
  message_type = td.message_type;
  message = td.message;
  tempdir = scoring_box_tempdir root (negsuc 0) (negsuc 0) (negsuc 0) true;
  limits = record {
    time_us = lim.time;
    vss_kib = lim.vss;
    rss_kib = lim.rss;
    output_kib = lim.output;
  };
  stats = record {
    exit_code = td.execute_result.si_status;
    real_us = real_us;
    user_us = td.execute_result.user_us;
    sys_us = td.execute_result.sys_us;
    max_rss_kib = td.execute_result.maxrss;
    max_vss_kib = td.execute_result.hiwater_vm;
  };
}

-- SubmissionAndResult::TestdataMeta, with the real time of the execution; `none` is an index past an end.
abbrev pub testdata_meta : List Name → ℤ → SubmissionAndResult → ℕ → ℕ → Option TestdataMeta
testdata_meta root real_us s subtask stage = do
  lim ← get_elem? s.sub.testdata subtask
  td ← get_elem? s.result.td_results subtask
  some (testdata_meta_at root real_us s subtask stage lim td)

abbrev pub result_meta : TestdataItem → TestdataResult → Option ResultMeta
result_meta item td = do
  score ← score_to_string td.score
  some (record {
    verdict = verdict_to_abr td.verdict;
    score = score;
    time_us = td.time;
    vss_kib = td.vss;
    rss_kib = td.rss;
    message_type = td.message_type;
    message = td.message;
    ignore_verdict = item.ignore_verdict;
    subtasks = item.td_groups;
  })

unfoldable pub result_metas : List TestdataItem → List TestdataResult → Option (List ResultMeta)
unfolding score_to_string
result_metas items [] = some []
result_metas [] (td ∷ tds) = none
result_metas (item ∷ items) (td ∷ tds) = do
  first ← result_meta item td
  rest ← result_metas items tds
  some (first ∷ rest)

unfoldable pub group_scores : List ℤ → Option (List Name)
unfolding score_to_string
group_scores [] = some []
group_scores (score ∷ scores) = do
  first ← score_to_string score
  rest ← group_scores scores
  some (first ∷ rest)

-- SubmissionAndResult::SummaryMeta
abbrev pub summary_meta : List Name → SubmissionAndResult → Option SummaryMeta
summary_meta root s = do
  testdata ← result_metas s.sub.testdata s.result.td_results
  scores ← group_scores s.sub.group_score
  some (record {
    user_code_file = summary_box_user_code root (negsuc 0) s.sub.lang true;
    problem_id = s.sub.problem_id;
    contest_id = s.sub.contest_id;
    submission_id = s.sub.submission_id;
    submitter_id = s.sub.submitter_id;
    submitter_name = s.sub.submitter_name;
    submitter_nickname = s.sub.submitter_nickname;
    submission_time = s.sub.submission_time;
    compiler = compiler_name s.sub.lang;
    ce_message = s.result.ce_message;
    ce_message_file = summary_box_ce_message root (negsuc 0) true;
    verdict = verdict_to_abr s.result.verdict;
    testdata = testdata;
    subtask_scores = scores;
  })

abbrev pub line : Name → Name
line text = text ++ (10 ∷ [])

-- SubmissionAndResult::TestdataMetaOld
unfoldable pub testdata_meta_old : ℕ → TestdataResult → Name
unfolding to_string verdict_to_abr chars
testdata_meta_old subtask td =
    line (if rank td.verdict == 0 then chars "NONE" else chars (verdict_to_abr td.verdict))
    ++ (line (to_string (pos subtask))
        ++ (line (to_string td.time) ++ (line (to_string td.vss) ++ line (to_string td.rss))))
