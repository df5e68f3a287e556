-- ===== src/Push.antt =====
-- `PushSubmission` of src/tioj/submission.cpp: the tasks of a submission, their dependencies, and their
-- way into the shared graph. The entries that the function holds in local variables and in the
-- vectors `executes` and `scorings` are found by their task.
pub mod Plan
pub mod Local
pub mod Runs
pub mod Steps
pub mod Testdata
pub mod Total
pub mod Finish
pub mod Submit
pub mod Inv
use tioj_judge.Base.{
  ℕ, zero, suc, ◌+◌, ◌-◌, Bool, true, false, ◌&&◌, List, [], ◌∷◌, ◌++◌, Option, none, some, ltb,
  leb, ◌==◌, if◌then◌else◌,
}
use tioj_judge.Base.Int.{ℤ}
use tioj_judge.Graph.{
  CompileSubtask, userprog, specjudge, summary_prog, probprog, Task, compile, execute, scoring,
  summary, TaskEntry, new_entry, Graph, insert_task_list,
}

abbrev pub compile_eq : CompileSubtask → CompileSubtask → Bool
compile_eq userprog userprog = true
compile_eq specjudge specjudge = true
compile_eq summary_prog summary_prog = true
compile_eq probprog probprog = true
compile_eq _ _ = false

abbrev pub task_eq : Task → Task → Bool
task_eq (compile a) (compile b) = compile_eq a b
task_eq (execute i j) (execute k l) = i == k && j == l
task_eq (scoring i j) (scoring k l) = i == k && j == l
task_eq summary summary = true
task_eq _ _ = false

-- A call that builds the graph: the constructor of `TaskEntry` with its order, `Link`, and
-- `InsertTaskList` on a moved entry.
pub data Op : Type 0 where
  create : Task → ℕ → Op
  link : Task → Task → Op
  insert : Task → Op

-- `task_count`, the local entries, and the shared graph.
pub record Build : Type 0 where
  pub task_count : ℕ
  pub local : List TaskEntry
  pub graph : Graph

unfoldable pub local_entry : Task → List TaskEntry → Option TaskEntry
local_entry t [] = none
local_entry t (e ∷ es) = if task_eq t e.task then some e else local_entry t es

unfoldable pub modify_local : Task → (TaskEntry → TaskEntry) → List TaskEntry → List TaskEntry
modify_local t f [] = []
modify_local t f (e ∷ es) = if task_eq t e.task then f e ∷ es else e ∷ modify_local t f es

unfoldable pub drop_local : Task → List TaskEntry → List TaskEntry
drop_local t [] = []
drop_local t (e ∷ es) = if task_eq t e.task then es else e ∷ drop_local t es

abbrev pub add_edge : ℕ → TaskEntry → TaskEntry
add_edge x e = record e { edges = e.edges ++ (x ∷ []) }

abbrev pub add_degree : TaskEntry → TaskEntry
add_degree e = record e { indeg = e.indeg + 1 }

-- Link: `a.edges.push_back(b.id); b.indeg++;`
unfoldable pub link_entries : Task → Task → TaskEntry → Build → Build
unfolding modify_local
link_entries a b target s = record s {
  local = modify_local b add_degree (modify_local a (add_edge target.id) s.local);
}

-- One call; `none` for an entry that is not in the vectors, which the code would read out of bounds.
unfoldable pub perform : ℕ → ℤ → Op → Build → Option Build
unfolding local_entry link_entries drop_local insert_task_list
perform sub_id prio (create t order) s = some (record s {
  task_count = suc s.task_count;
  local = new_entry s.task_count sub_id t prio order ∷ s.local;
})
perform sub_id prio (link a b) s = elim (local_entry a s.local) [
  | none ↦ none
  | some source ↦ elim (local_entry b s.local) [
    | none ↦ none
    | some target ↦ some (link_entries a b target s)
  ]
]
perform sub_id prio (insert t) s = elim (local_entry t s.local) [
  | none ↦ none
  | some e ↦ some (record s { local = drop_local t s.local; graph = insert_task_list e s.graph })
]

unfoldable pub perform_all : ℕ → ℤ → List Op → Build → Option Build
unfolding perform
perform_all sub_id prio [] s = some s
perform_all sub_id prio (op ∷ ops) s = elim (perform sub_id prio op s) [
  | none ↦ none
  | some s' ↦ perform_all sub_id prio ops s'
]
