-- ===== src/Server/Report.antt =====
-- The requests that src/server_io.cpp makes of results: `TryFetchSubmission`, `SendResult`,
-- `SendFinalResult`, `SendStatus`, `SendQueuedSubmissions`, the objects they carry, and a round of
-- `ServerWorkLoop`.
use Prim.Native.String.{String}
use tioj_judge.Base.{
  ℕ, suc, Bool, true, false, not, ◌&&◌, List, [], ◌∷◌, ◌++◌, Option, none, some, ltb, ◌==◌,
  if◌then◌else◌, get_elem?,
}
use tioj_judge.Base.Text.{str_eq}
use tioj_judge.Base.Partial.{◌>>=◌}
use tioj_judge.Base.Int.{pos}
use tioj_judge.Verdict.{Verdict, rank, verdict_to_abr}
use tioj_judge.Submission.{Submission, SubmissionResult, TestdataResult}
use tioj_judge.Handler.{is_zero, is_nil}
use tioj_judge.Order.{has_group}
use tioj_judge.Server.Requests.{
  TdJson, Body, no_body, td_result, final_result, status, queued, Request, Requests, fetch_key,
  report_queued_key, push_request,
}

-- VerdictToAbrCompat
unfoldable pub verdict_to_abr_compat : Bool → Verdict → String
unfolding verdict_to_abr
verdict_to_abr_compat jce_to_er verdict =
    if jce_to_er && rank verdict == 12 then "ER" else verdict_to_abr verdict

-- WaitingVerdict
abbrev pub waiting_verdict : Bool → String
waiting_verdict waiting_to_queued = if waiting_to_queued then "queued" else "waiting"

-- OneTdJSON
unfoldable pub one_td_json : Bool → TestdataResult → ℕ → TdJson
unfolding verdict_to_abr_compat
one_td_json jce_to_er td position = record {
  position = position;
  verdict = verdict_to_abr_compat jce_to_er td.verdict;
  time = td.time;
  rss = td.rss;
  score = td.score;
  vss = if is_zero td.vss then none else some td.vss;
  message = if is_nil td.message then none else some (td.message_type, td.message);
}

-- The loop of `TdResultsJSON`, from index `i` on.
unfoldable pub all_td_json : Bool → ℕ → List TestdataResult → List TdJson
unfolding one_td_json
all_td_json jce_to_er i [] = []
all_td_json jce_to_er i (td ∷ tds) =
    if rank td.verdict == 0
    then all_td_json jce_to_er (suc i) tds
    else one_td_json jce_to_er td i ∷ all_td_json jce_to_er (suc i) tds

-- TdResultsJSON; none where a subtask has no result, which the code would read.
unfoldable pub td_results_json : Bool → List TestdataResult → Option ℕ → Option (List TdJson)
unfolding all_td_json
td_results_json jce_to_er tds none = some (all_td_json jce_to_er 0 tds)
td_results_json jce_to_er tds (some subtask) = do
  td ← get_elem? tds subtask
  some (one_td_json jce_to_er td subtask ∷ [])

-- TryFetchSubmission
abbrev pub fetch_submission : Request
fetch_submission = record {
  is_subscribe = false;
  is_unique = true;
  force_pop = false;
  key = fetch_key;
  action = "fetch_submission";
  body = no_body;
}

-- SendResult
unfoldable pub send_result : Bool → Submission → SubmissionResult → ℕ → Option Request
unfolding td_results_json
send_result jce_to_er sub res subtask = do
  results ← td_results_json jce_to_er res.td_results (some subtask)
  some (record {
    is_subscribe = false;
    is_unique = true;
    force_pop = false;
    key = pos sub.submission_id;
    action = "td_result";
    body = td_result sub.submission_id results;
  })

abbrev pub final_request : ℕ → Body → Request
final_request id body = record {
  is_subscribe = false;
  is_unique = false;
  force_pop = true;
  key = pos id;
  action = "submission_result";
  body = body;
}

abbrev pub text_or_none : String → Option String
text_or_none s = if str_eq s "" then none else some s

-- The message and the results of `SendFinalResult`.
unfoldable pub final_message : SubmissionResult → Option String
final_message res =
    if rank res.verdict == 12 then some res.jce_message else text_or_none res.ce_message

unfoldable pub final_results : Bool → SubmissionResult → Option (List TdJson)
unfolding all_td_json
final_results jce_to_er res =
    if rank res.verdict == 10
    then none
    else if rank res.verdict == 11
    then none
    else if rank res.verdict == 12
    then none
    else some (all_td_json jce_to_er 0 res.td_results)

-- SendFinalResult
unfoldable pub send_final_result : Bool → Submission → SubmissionResult → Request
unfolding final_message final_results verdict_to_abr_compat
send_final_result jce_to_er sub res = final_request sub.submission_id (
    final_result sub.submission_id (record {
      verdict = verdict_to_abr_compat jce_to_er res.verdict;
      score = res.total_score;
      total_time = res.total_time;
      total_memory = res.total_memory;
      message = final_message res;
      td_results = final_results jce_to_er res;
    }))

-- SendStatus
abbrev pub send_status : ℕ → String → Request
send_status submission_id text = final_request submission_id (status submission_id text)

-- GetQueuedSubmissionID, on `submission_list` with the internal ids as keys
unfoldable pub queued_ids : List ℕ → List (ℕ × Submission) → List ℕ
unfolding has_group
queued_ids cancelled [] = []
queued_ids cancelled ((id, sub) ∷ subs) =
    if has_group id cancelled
    then queued_ids cancelled subs
    else sub.submission_id ∷ queued_ids cancelled subs

-- GetReceivedSubmissionID; `receiving` is none for -1
unfoldable pub received_ids : List ℕ → Option ℕ → List ℕ
received_ids ids none = ids
received_ids ids (some id) = ids ++ (id ∷ [])

-- SendQueuedSubmissions
unfoldable pub send_queued : List ℕ → Bool → Requests → Requests
unfolding push_request
send_queued ids send_if_empty r =
    if is_nil ids && not send_if_empty
    then r
    else push_request
        (record {
          is_subscribe = false;
          is_unique = true;
          force_pop = false;
          key = report_queued_key;
          action = "report_queued";
          body = queued ids;
        })
        r

-- `empty_cnt` after a round of `ServerWorkLoop`
unfoldable pub next_empty : ℕ → ℕ → ℕ
next_empty queue_size empty_cnt =
    if queue_size == 0 then (if suc empty_cnt == 3 then 0 else suc empty_cnt) else 0

-- A round of `ServerWorkLoop`, between two sleeps of ten seconds.
unfoldable pub work_round :
    (max_queue : ℕ) → List ℕ → (queue_size : ℕ) → ℕ × Requests → ℕ × Requests
unfolding send_queued next_empty push_request
work_round max_queue ids queue_size (empty_cnt, r) =
    let sent = send_queued ids (empty_cnt == 2) r in
    (
      next_empty queue_size empty_cnt,
      if ltb queue_size max_queue then push_request fetch_submission sent else sent,
    )
