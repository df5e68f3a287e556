-- ===== src/Graph.antt =====
-- The graph of tasks of src/tioj/submission.cpp: `Task` (src/tioj/tasks.h), `TaskEntry`, the maps
-- `task_list` and `task_queue`, and the helpers that change them.
pub mod Count
pub mod Release
pub mod Inv
mod Tests
use tioj_judge.Base.{
  ℕ, zero, suc, ◌-◌, Bool, true, false, List, [], ◌∷◌, Option, none, some, ltb, ◌==◌, if◌then◌else◌,
}
use tioj_judge.Base.Int.{ℤ, ltb_ℤ}

-- `CompileSubtask`, in the order of ENUM_COMPILE_SUBTASK_.
pub data CompileSubtask : Type 0 where
  userprog specjudge summary_prog probprog : CompileSubtask

-- `Task`: its type with the fields that the type uses.
pub data Task : Type 0 where
  compile : CompileSubtask → Task
  execute : (subtask stage : ℕ) → Task
  scoring : (subtask stage : ℕ) → Task
  summary : Task

pub record TaskEntry : Type 0 where
  pub id : ℕ
  pub submission_internal_id : ℕ
  pub task : Task
  pub priority : ℤ
  pub task_order : ℕ
  pub indeg : ℕ
  pub edges : List ℕ

-- The constructor with arguments, its `id` drawn from `task_count` by the caller.
abbrev pub new_entry : ℕ → ℕ → Task → ℤ → ℕ → TaskEntry
new_entry tid sub_id t prio order = record {
  id = tid;
  submission_internal_id = sub_id;
  task = t;
  priority = prio;
  task_order = order;
  indeg = 0;
  edges = [];
}

-- `operator<`: by priority, then the older submission, then the smaller order is larger.
unfoldable pub entry_lt : TaskEntry → TaskEntry → Bool
entry_lt a b =
    if ltb_ℤ a.priority b.priority
    then true
    else (if ltb_ℤ b.priority a.priority
        then false
        else (if ltb b.submission_internal_id a.submission_internal_id
            then true
            else (if ltb a.submission_internal_id b.submission_internal_id
                then false
                else ltb b.task_order a.task_order)))

-- `task_list`, whose key is the entry's `id`.
unfoldable pub find : ℕ → List TaskEntry → Option TaskEntry
find x [] = none
find x (t ∷ ts) = if t.id == x then some t else find x ts

unfoldable pub modify : ℕ → (TaskEntry → TaskEntry) → List TaskEntry → List TaskEntry
modify x f [] = []
modify x f (t ∷ ts) = if t.id == x then f t ∷ ts else t ∷ modify x f ts

unfoldable pub erase : ℕ → List TaskEntry → List TaskEntry
erase x [] = []
erase x (t ∷ ts) = if t.id == x then ts else t ∷ erase x ts

-- The shared maps. `task_queue` holds the ids that a `std::priority_queue` orders when it is read.
pub record Graph : Type 0 where
  pub task_list : List TaskEntry
  pub task_queue : List ℕ

-- InsertTaskList. Every id is drawn from `task_count`, so the key is new.
unfoldable pub insert_task_list : TaskEntry → Graph → Graph
insert_task_list t g = record {
  task_list = t ∷ g.task_list;
  task_queue = if t.indeg == 0 then t.id ∷ g.task_queue else g.task_queue;
}

abbrev pub decrement : TaskEntry → TaskEntry
decrement t = record t { indeg = t.indeg - 1 }

-- What a round of `Remove` does with the entry that `task_list[nxt]` finds.
unfoldable pub release_entry : ℕ → Graph → ℕ → Option Graph
unfolding modify
release_entry nxt g zero = none
release_entry nxt g (suc d) = some (record {
  task_list = modify nxt decrement g.task_list;
  task_queue = if d == 0 then nxt ∷ g.task_queue else g.task_queue;
})

-- One round of the loop of `Remove`: `--nxt_task.indeg`, and a push when it is 0. A `nxt` that is not
-- in the map, or a degree that is 0 already, is `none`.
unfoldable pub release : ℕ → Graph → Option Graph
unfolding find release_entry
release nxt g = elim (find nxt g.task_list) [ none ↦ none | some t ↦ release_entry nxt g t.indeg ]

unfoldable pub release_all : List ℕ → Graph → Option Graph
unfolding release
release_all [] g = some g
release_all (nxt ∷ es) g = elim (release nxt g) [ none ↦ none | some g' ↦ release_all es g' ]

-- Remove
unfoldable pub remove : TaskEntry → Graph → Option Graph
unfolding release_all erase
remove t g = elim (release_all t.edges g) [
  | none ↦ none
  | some g' ↦ some (record g' { task_list = erase t.id g'.task_list })
]
