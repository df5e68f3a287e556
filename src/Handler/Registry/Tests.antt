-- ===== src/Handler/Registry/Tests.antt =====
-- Two pushes of one submission.
use tioj_judge.Base.{ℕ, ◌≡◌, refl, none}
use tioj_judge.Submission.{Submission, SubmissionResult}
use tioj_judge.Order.{has_group}
use tioj_judge.Handler.{SubmissionAndResult}
use tioj_judge.Handler.Tests.{sub}
use tioj_judge.Handler.Registry.{Registry, enqueue, end_submission, new_submission_result}
use tioj_judge.Handler.Registry.Live.{
  IsLive, RegistryReach, start, step, pushed, dropped, Later, here, and_then, no_submissions,
  reachable-one_each,
}

abbrev first : Submission
first = record sub { submission_internal_id = 1 }

abbrev again : Submission
again = record sub { submission_internal_id = 2 }

abbrev one_pushed : Registry
one_pushed = enqueue first no_submissions

reach-pushed : RegistryReach 1 one_pushed
reach-pushed = step 0 1 no_submissions one_pushed start (pushed 0 first no_submissions refl)

abbrev listed_first : SubmissionAndResult
listed_first = record { sub = record first { stages = 1 }; result = new_submission_result }

first-IsLive : IsLive 1 listed_first one_pushed
unfolding enqueue has_group
first-IsLive = record { listed = refl; wanted = refl }

reachable-one_each_example :
    ((a b : ℕ) (s t : SubmissionAndResult)
      → IsLive a s one_pushed
      → IsLive b t one_pushed
      → s.sub.submission_id ≡ t.sub.submission_id
      → a ≡ b)
    × ((a : ℕ) (s : SubmissionAndResult) (new : Submission) (res : SubmissionResult) (m : ℕ)
          (u : Registry)
        → IsLive a s one_pushed
        → s.sub.submission_id ≡ new.submission_id
        → Later a 2 (enqueue new one_pushed) m u
        → (end_submission a res u).overall ≡ none)
reachable-one_each_example = reachable-one_each 1 one_pushed reach-pushed

again-test : (end_submission 1 new_submission_result (enqueue again one_pushed)).overall ≡ none
again-test =
    (reachable-one_each 1 one_pushed reach-pushed).1 1 listed_first again new_submission_result 3
      (enqueue again one_pushed) first-IsLive refl
      (and_then 2 3 (enqueue again one_pushed) (enqueue again one_pushed)
        (dropped 2 (enqueue again one_pushed)) here tt)
