-- ===== src/Judge.antt =====
-- The judge as a whole: `PushSubmission` and `WorkLoop` of src/tioj/submission.cpp on the shared graph.
pub mod Reachable
mod Tests
use tioj_judge.Base.{ℕ, zero, suc, ◌<◌, ◌≡◌, List, [], Option, none, some, length}
use tioj_judge.Graph.{Graph}
use tioj_judge.Submission.{Submission}
use tioj_judge.Push.{Build}
use tioj_judge.Push.Submit.{push_graph}
use tioj_judge.Push.Plan.{first_prob, clamp_stages}
use tioj_judge.Pool.{Fork}
use tioj_judge.Sandbox.{uid_pool_size}
use tioj_judge.Loop.{Handlers, Loop, Event, pop, wait}

-- What server_io.cpp asks of a submission: the problem's program is built for one of the stages.
abbrev pub InRange : Submission → Type 0
InRange sub = (s : ℕ) → first_prob sub.problem_prog_stages ≡ some s → s < clamp_stages sub.stages

module _ (h : Handlers) (par : ℕ) where
  -- `task_count` is the counter that `TaskEntry` draws its ids from.
  pub record Judge : Type 0 where
    pub task_count : ℕ
    pub loop : Loop h

  -- One hold of `task_mtx`: a push, which may come between any two rounds and while `WaitTask` waits;
  -- the round that pops, which fewer than kMaxParallel running tasks and a queued one allow, whatever
  -- `RunTask` answers; or the end
  -- of a round that has waited, with what the kernel answered. A push in the middle of a wait stands
  -- before it, since it reads no running task.
  pub data Step : Judge → Judge → Type 0 where
    pushed :
        (sub : Submission) (j : Judge) (b : Build)
        → InRange sub
        → push_graph sub j.task_count j.loop.graph ≡ some b
        → Step j (record { task_count = b.task_count; loop = record j.loop { graph = b.graph } })
    popped :
        (fork : Fork) (j : Judge) (l : Loop h)
        → length j.loop.running < par
        → 0 < length j.loop.graph.task_queue
        → pop h fork j.loop ≡ some l
        → Step j (record j { loop = l })
    waited :
        (event : Event h) (j : Judge) (l : Loop h)
        → 0 < length j.loop.running
        → wait h event j.loop ≡ some l
        → Step j (record j { loop = l })

  abbrev pub initial : h.State → Judge
  initial s = record {
    task_count = 0;
    loop = record {
      graph = record { task_list = []; task_queue = [] };
      running = [];
      handles = [];
      failed = none;
      users = uid_pool_size;
      results = 0;
      state = s;
    };
  }

  -- What the judge can come to from its start.
  pub data Reach (s : h.State) : Judge → Type 0 where
    start : Reach s (initial s)
    step : (j k : Judge) → Reach s j → Step j k → Reach s k
