-- ===== src/Handler/Registry.antt =====
-- The lists of submissions of src/tioj/submission.cpp: the end of `PushSubmission`, the end of
-- `FinalizeSummary` with the result of a custom summary, `CurrentSubmissionQueueSize` and
-- `GetQueuedSubmissionID`.
pub mod Entries
pub mod Live
mod Tests
use Prim.Native.String.{String}
use tioj_judge.Base.{
  ℕ, zero, suc, Bool, true, false, not, ◌&&◌, ◌||◌, List, [], ◌∷◌, Option, none, some, ltb, leb,
  ◌==◌, if◌then◌else◌, length,
}
use tioj_judge.Base.Int.{ℤ, pos}
use tioj_judge.Verdict.{Verdict, nul, wa, jre, rank, abr_to_verdict}
use tioj_judge.Order.{has_group}
use tioj_judge.Push.Plan.{clamp_stages}
use tioj_judge.Submission.{Submission, SubmissionResult}
use tioj_judge.Handler.{SubmissionAndResult, lookup, Cancelled, LongDouble, normalize_score}
use tioj_judge.Handler.Summary.{summary_totals}

-- `submission_list` by internal id, `submission_id_map` from submission ids to internal ids, and the
-- cancellations.
pub record Registry : Type 0 where
  pub submission_list : List (ℕ × SubmissionAndResult)
  pub submission_id_map : List (ℕ × ℕ)
  pub cancelled : Cancelled

-- `erase` of a key.
unfoldable pub erase_key {ℓ} : {A : Type ℓ} → ℕ → List (ℕ × A) → List (ℕ × A)
erase_key x [] = []
erase_key x ((k, a) ∷ es) = if k == x then erase_key x es else (k, a) ∷ erase_key x es

unfoldable pub erase_id : ℕ → List ℕ → List ℕ
erase_id x [] = []
erase_id x (y ∷ ys) = if y == x then erase_id x ys else y ∷ erase_id x ys

-- `insert`, which keeps what a key has.
abbrev pub insert_new {ℓ} : {A : Type ℓ} → ℕ → A → Option A → List (ℕ × A) → List (ℕ × A)
insert_new k a (some b) es = es
insert_new k a none es = (k, a) ∷ es

-- The constructor of `SubmissionResult`.
abbrev pub new_submission_result : SubmissionResult
new_submission_result = record {
  td_results = [];
  verdict = nul;
  total_memory = pos 0;
  total_time = pos 0;
  total_score = pos 0;
  ce_message = "";
  jce_message = "";
}

-- CurrentSubmissionQueueSize
abbrev pub current_submission_queue_size : Registry → ℕ
current_submission_queue_size r = length r.submission_list

-- GetQueuedSubmissionID
unfoldable pub wanted_ids : List ℕ → List (ℕ × SubmissionAndResult) → List ℕ
wanted_ids cancelled [] = []
wanted_ids cancelled ((id, s) ∷ es) =
    let rest = wanted_ids cancelled es in
    if has_group id cancelled then rest else s.sub.submission_id ∷ rest

abbrev pub get_queued_submission_id : Registry → List ℕ
get_queued_submission_id r = wanted_ids r.cancelled.cancelled_list r.submission_list

-- The guard of `PushSubmission`.
abbrev pub is_full : ℕ → Registry → Bool
is_full max_queue r = ltb 0 max_queue && leb max_queue (length r.submission_list)

-- A submission of the same id that is being judged is cancelled, and the map follows.
abbrev pub track : ℕ → ℕ → Option ℕ → Registry → Registry
track sub_id id none r = record r { submission_id_map = (sub_id, id) ∷ r.submission_id_map }
track sub_id id (some old) r = record r {
  submission_id_map = (sub_id, id) ∷ erase_key sub_id r.submission_id_map;
  cancelled = record r.cancelled { cancelled_list = old ∷ r.cancelled.cancelled_list };
}

-- What `PushSubmission` puts in the list, with the stages that it has set.
abbrev pub listed_entry : Submission → SubmissionAndResult
listed_entry sub = record {
  sub = record sub { stages = clamp_stages sub.stages };
  result = new_submission_result;
}

abbrev pub add_entry : Submission → Registry → Registry
add_entry sub r =
    let id = sub.submission_internal_id in
    record r {
      submission_list =
          insert_new id (listed_entry sub) (lookup id r.submission_list) r.submission_list;
    }

-- The end of `PushSubmission`.
unfoldable pub enqueue : Submission → Registry → Registry
unfolding lookup erase_key clamp_stages
enqueue sub r =
    let old = lookup sub.submission_id r.submission_id_map in
    track sub.submission_id sub.submission_internal_id old (add_entry sub r)

-- What `FinalizeSummary` tells, with the callbacks set: ReportOverallResult or nothing, and what
-- ReportFinalized gets, cancelled or not.
pub record Finished : Type 0 where
  pub overall : Option SubmissionResult
  pub told_at_end : SubmissionResult × ℕ
  pub registry : Registry

-- The end of `FinalizeSummary`.
unfoldable pub end_submission : ℕ → SubmissionResult → Registry → Finished
unfolding erase_key erase_id has_group
end_submission id res r =
    let cancelled = has_group id r.cancelled.cancelled_list in
    record {
      overall = if cancelled then none else some res;
      told_at_end = (res, length r.submission_list);
      registry = record {
        submission_list = erase_key id r.submission_list;
        submission_id_map = erase_key id r.submission_id_map;
        cancelled = record {
          cancelled_list = erase_id id r.cancelled.cancelled_list;
          cancelled_group = erase_key id r.cancelled.cancelled_group;
        };
      };
    }

-- What `find`, the type tests and the conversions of the JSON library give on a summary's document.
pub record SummaryDoc (d : LongDouble) : Type 0 where
  pub verdict : Option String
  pub score : Option d.F
  pub total_time_us : Option ℤ
  pub total_memory_kib : Option ℤ
  pub ce_message : Option String

abbrev pub or_old {ℓ} : {A : Type ℓ} → Option A → A → A
or_old (some x) old = x
or_old none old = old

module _ (d : LongDouble) where
  abbrev pub named_verdict : Option String → Verdict → Verdict
  named_verdict none old = old
  named_verdict (some name) old = abr_to_verdict name false

  abbrev pub named_score : Option d.F → ℤ → ℤ
  named_score none old = old
  named_score (some x) old = normalize_score d x

  -- ReadSummaryResult, on a document that was parsed.
  unfoldable pub read_summary : SummaryDoc d → SubmissionResult → SubmissionResult
  unfolding abr_to_verdict normalize_score
  read_summary doc res =
      let v = named_verdict doc.verdict res.verdict in
      record res {
        verdict = if rank v == 0 then wa else v;
        total_score = named_score doc.score res.total_score;
        total_time = or_old doc.total_time_us res.total_time;
        total_memory = or_old doc.total_memory_kib res.total_memory;
        ce_message = or_old doc.ce_message res.ce_message;
      }

  -- The middle of `FinalizeSummary`: the program's file is a regular one and it exited with 0, or not;
  -- and the document that its file holds, or none.
  unfoldable pub custom_result :
      Bool → Bool → Option (SummaryDoc d) → SubmissionResult → SubmissionResult
  unfolding read_summary
  custom_result skipped ended doc res =
      let failed : SubmissionResult = record res {
        verdict = jre;
        total_memory = pos 0;
        total_time = pos 0;
      } in
      let answered : SubmissionResult = elim doc [ none ↦ failed | some j ↦ read_summary j res ] in
      if skipped then res else if not ended then failed else answered

  -- FinalizeSummary
  unfoldable pub finalize_summary :
      SubmissionAndResult → Bool → Bool → Option (SummaryDoc d) → Registry → Option Finished
  unfolding summary_totals custom_result end_submission
  finalize_summary s skipped ended doc r = elim (summary_totals d s.sub s.result) [
    | none ↦ none
    | some res ↦
        some (end_submission s.sub.submission_internal_id (custom_result skipped ended doc res) r)
  ]
