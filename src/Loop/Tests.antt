-- ===== src/Loop/Tests.antt =====
-- Two tasks of different priority, and a queue that holds both.
use tioj_judge.Base.{
  ℕ, ◌<◌, ◌≡◌, refl, true, false, List, [], ◌∷◌, some, none, ◌==◌, length, if◌then◌else◌, arith,
}
use tioj_judge.Base.Int.{pos, negsuc}
use tioj_judge.Graph.{find, TaskEntry, compile, userprog, execute}
use tioj_judge.Graph.Count.{count, id_count, edge_count, zeros}
use tioj_judge.Graph.Inv.{Inv}
use tioj_judge.Pool.{fork_failed, started}
use tioj_judge.Loop.Handles.{Calm}
use tioj_judge.Loop.{Handlers, Loop, Event, Done, is_started, of_failed, top, work}
use tioj_judge.Loop.Order.{TakenBefore, top-TakenBefore}
use tioj_judge.Loop.Progress.{work-ends}

abbrev low : TaskEntry
low = record {
  id = 0;
  submission_internal_id = 1;
  task = compile userprog;
  priority = negsuc 2;
  task_order = 0;
  indeg = 0;
  edges = [];
}

abbrev high : TaskEntry
high = record {
  id = 1;
  submission_internal_id = 2;
  task = execute 0 0;
  priority = pos 3;
  task_order = 0;
  indeg = 0;
  edges = [];
}

abbrev both : List TaskEntry
both = low ∷ high ∷ []

top-TakenBefore_example :
    (u : TaskEntry) × (find (top both 0 (1 ∷ [])) both ≡ some u)
    × ((y : ℕ) (t : TaskEntry) → 0 < count y (0 ∷ 1 ∷ []) → find y both ≡ some t → TakenBefore u t)
unfolding count id_count
top-TakenBefore_example = top-TakenBefore both 0 (1 ∷ []) (λ y c. ground arith)

abbrev runner : Handlers
runner = record {
  State = List ℕ;
  Outcome = ℕ;
  no_result = 0;
  setup = λ t s. (true, s);
  finalize = λ t o s. t.id ∷ s;
}

abbrev ready : Loop runner
ready = record {
  graph = record { task_list = both; task_queue = 0 ∷ 1 ∷ [] };
  running = [];
  handles = [];
  failed = none;
  users = 100;
  results = 0;
  state = [];
}

ready-Inv : Inv (λ x. x) [] ready.graph
unfolding id_count edge_count count zeros
ready-Inv = record {
  distinct = λ x. ground arith;
  degree = (refl, (refl, tt));
  rising = ((λ x c. absurd (omega arith)), ((λ x c. absurd (omega arith)), tt));
  targets = λ x c. absurd (omega arith);
  ready = λ x. ground arith;
}

-- The first fork fails, and the task at -1 waits until the other has ended.
abbrev one_fails : ℕ → Loop runner → Event runner
one_fails n l = record {
  fork = if length (of_failed l.failed) == 0 then fork_failed else started 3 40;
  ready = 0;
  choice = n;
  outcome = 0;
}

one_fails_lem : (n : ℕ) (l : Loop runner) → Calm runner (is_started (one_fails n l).fork) l
one_fails_lem n l i =
    let b : (length (of_failed l.failed) == 0) ≡ false = ground (arith, i) in rw b refl

work-ends_example : (l : Loop runner) × (work runner 2 one_fails 5 0 ready ≡ some l) × Done runner l
unfolding count
work-ends_example =
    work-ends runner (λ x. x) 2 one_fails 5 0 ready (omega arith) (omega arith) one_fails_lem
      (ready-Inv, (λ x. omega arith, omega arith, refl, omega arith)) refl (omega arith)
