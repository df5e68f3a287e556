-- ===== src/Server/Deal/Pushed.antt =====
-- `DealOneSubmission` (src/server_io.cpp) and `PushSubmission` (src/tioj/submission.cpp) together.
use tioj_judge.Base.{ℕ, ◌≡◌, [], some}
use tioj_judge.Base.Partial.{Post, Post-map}
use tioj_judge.Verdict.{Compiler}
use tioj_judge.Push.{Build}
use tioj_judge.Push.Submit.{push_graph}
use tioj_judge.Loop.{Handlers}
use tioj_judge.Judge.{Judge, Reach}
use tioj_judge.Judge.Reachable.{reachable-push}
use tioj_judge.Server.Frames.{Frame}
use tioj_judge.Server.Deal.{read_submission}
use tioj_judge.Server.Deal.Valid.{Valid, read_submission-Valid}

-- Whatever the server sends, and wherever the judge has come to, a submission that DealOneSubmission
-- reads is pushed without meeting a missing entry, and none of its tasks stays out of the graph.
pub read_submission-push_graph :
    (h : Handlers) (par : ℕ) (s : h.State) (j : Judge h par)
    → Reach h par s j
    → (haskell_process_limit : ℕ) (unset : Compiler) (id : ℕ) (f : Frame)
    → Post
        (λ sub. (b : Build) × (push_graph sub j.task_count j.loop.graph ≡ some b) × (b.local ≡ []))
        (read_submission haskell_process_limit unset id f)
read_submission-push_graph h par s j r haskell_process_limit unset id f =
    Post-map (Valid f) _ (read_submission haskell_process_limit unset id f)
      (λ sub v. reachable-push h par s j r sub v.in_range)
      (read_submission-Valid haskell_process_limit unset id f)
