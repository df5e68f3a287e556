-- ===== src/Graph/Tests.antt =====
-- A compilation before an execution.
use tioj_judge.Base.{ℕ, ◌+◌, ◌≡◌, refl, [], ◌∷◌, some, arith, length, ◌==◌}
use tioj_judge.Base.Int.{pos}
use tioj_judge.Graph.{TaskEntry, compile, userprog, execute, Graph, remove, find}
use tioj_judge.Graph.Count.{count, id_count, edge_count, zeros, one_if}
use tioj_judge.Graph.Inv.{Inv, remove-Inv}

abbrev compiling : TaskEntry
compiling = record {
  id = 0;
  submission_internal_id = 1;
  task = compile userprog;
  priority = pos 0;
  task_order = 0;
  indeg = 0;
  edges = 1 ∷ [];
}

abbrev executing : TaskEntry
executing = record {
  id = 1;
  submission_internal_id = 1;
  task = execute 0 0;
  priority = pos 0;
  task_order = 0;
  indeg = 1;
  edges = [];
}

abbrev two_tasks : Graph
two_tasks = record { task_list = compiling ∷ executing ∷ []; task_queue = 0 ∷ [] }

two_tasks-Inv : Inv (λ x. x) [] two_tasks
unfolding id_count edge_count count zeros
two_tasks-Inv = record {
  distinct = λ x. ground arith;
  degree = (refl, (refl, tt));
  rising = ((λ x c. ground arith), ((λ x c. absurd (omega arith)), tt));
  targets = λ x c. ground arith;
  ready = λ x. ground arith;
}

-- The compilation runs.
abbrev compiling_runs : Graph
compiling_runs = record two_tasks { task_queue = [] }

compiling_runs-Inv : Inv (λ x. x) (0 ∷ []) compiling_runs
unfolding count id_count edge_count zeros
compiling_runs-Inv = record {
  distinct = two_tasks-Inv.distinct;
  degree = two_tasks-Inv.degree;
  rising = two_tasks-Inv.rising;
  targets = two_tasks-Inv.targets;
  ready = λ x. omega (arith, two_tasks-Inv.ready x);
}

remove-Inv_example :
    (g : Graph) × (remove compiling compiling_runs ≡ some g)
    × Inv (λ x. x) [] g
    × (length g.task_list + 1 ≡ length compiling_runs.task_list)
    × ((x : ℕ)
        → id_count x g.task_list + one_if (compiling.id == x) ≡ id_count x compiling_runs.task_list)
unfolding find count
remove-Inv_example =
    remove-Inv (λ x. x) (0 ∷ []) [] compiling_runs compiling compiling_runs-Inv refl refl
      (λ x. refl)
