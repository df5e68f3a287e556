-- ===== src/Loop.antt =====
-- `WorkLoop` of src/tioj/submission.cpp over the task graph. The handlers of a task (the `Setup…` and
-- `Finalize…` functions), which change neither map of the graph, are the parameter `Handlers`.
pub mod Queue
pub mod Handles
pub mod Steps
pub mod Waits
pub mod Progress
pub mod Order
mod Tests
use tioj_judge.Base.{
  ℕ, zero, suc, ◌+◌, ◌-◌, ◌≡◌, Bool, true, false, ◌&&◌, List, [], ◌∷◌, Option, none, some, ltb,
  ◌==◌, ◌%◌, if◌then◌else◌, length, get_elem?,
}
use tioj_judge.Pool.{Fork, pipe_failed, fork_failed, started}
use tioj_judge.Graph.{TaskEntry, Graph, entry_lt, find, remove}

-- `setup` is the `Setup…` function that `DispatchTask` calls, with its result; `finalize` is what
-- `FinalizeTask` does before `Remove`. The result of the sandbox is `none` for a skipped task, and
-- `no_result` is the `{}` that comes with the handle -1.
pub record Handlers : Type 1 where
  pub State : Type 0
  pub Outcome : Type 0
  pub no_result : Outcome
  pub setup : TaskEntry → State → Bool × State
  pub finalize : TaskEntry → Option Outcome → State → State

abbrev pub found_lt : Option TaskEntry → Option TaskEntry → Bool
found_lt (some t) (some u) = entry_lt t u
found_lt _ _ = false

-- `PriorityCompare` on ids; every id in the queue is in the map.
unfoldable pub id_lt : List TaskEntry → ℕ → ℕ → Bool
unfolding entry_lt find
id_lt ts a b = found_lt (find a ts) (find b ts)

-- The `top` of the priority queue: an id with none above it.
unfoldable pub top : List TaskEntry → ℕ → List ℕ → ℕ
top ts best [] = best
top ts best (x ∷ xs) = top ts (if id_lt ts best x then x else best) xs

-- The queue, and the running tasks, without one occurrence of an id.
unfoldable pub drop_one : ℕ → List ℕ → List ℕ
drop_one x [] = []
drop_one x (y ∷ ys) = if y == x then ys else y ∷ drop_one x ys

-- Whether `RunTask` gives a handle, or -1; and whether it takes a user from the pool.
abbrev pub is_started : Fork → Bool
is_started (started fd pid) = true
is_started _ = false

abbrev pub takes_user : Fork → Bool
takes_user pipe_failed = false
takes_user _ = true

-- The tasks at the key -1 of `handle_map`.
abbrev pub of_failed : Option ℕ → List ℕ
of_failed none = []
of_failed (some tid) = tid ∷ []

module _ (h : Handlers) where
  open h use {State, Outcome, no_result, setup, finalize}

  -- The state of the loop. `running` are the tasks that `task_running` counts; `handle_map` has those
  -- of `handles` at the descriptors that `RunTask` gave, and `failed` at -1, where a later task takes
  -- an earlier one's place. Of tasks.cpp, `users` is the size of uid_pool and `results` that of
  -- `finished`.
  pub record Loop : Type 0 where
    pub graph : Graph
    pub running : List ℕ
    pub handles : List ℕ
    pub failed : Option ℕ
    pub users : ℕ
    pub results : ℕ
    pub state : State

  -- What the kernel does in a round: the answers to `RunTask`; and for a wait, how many more results
  -- `select` finds, which of them is taken, and that result. `select` itself does not fail.
  pub record Event : Type 0 where
    pub fork : Fork
    pub ready : ℕ
    pub choice : ℕ
    pub outcome : Outcome

  -- FinalizeTask
  unfoldable pub finalize_task : ℕ → Option Outcome → Loop → Option Loop
  unfolding find remove
  finalize_task tid outcome l = elim (find tid l.graph.task_list) [
    | none ↦ none
    | some t ↦ elim (remove t l.graph) [
      | none ↦ none
      | some g ↦ some (record l { graph = g; state = finalize t outcome l.state })
    ]
  ]

  -- `handle_map[handle] = id`, and the user that the task has; `runs` is whether there is a handle.
  abbrev pub begun : Bool → ℕ → Loop → Loop
  begun runs tid l = record l {
    running = tid ∷ l.running;
    handles = if runs then tid ∷ l.handles else l.handles;
    failed = if runs then l.failed else some tid;
    users = if runs then l.users - 1 else l.users;
  }

  -- The end of `DispatchTask`; a user taken from an empty pool is a fault.
  unfoldable pub start_task : Fork → ℕ → Loop → Option Loop
  start_task fork tid l =
      if takes_user fork && l.users == 0 then none else some (begun (is_started fork) tid l)

  -- DispatchTask: a task that is set up runs, any other is finalized at once.
  unfoldable pub dispatch_task : Fork → ℕ → Loop → Option Loop
  unfolding find finalize_task start_task
  dispatch_task fork tid l = elim (find tid l.graph.task_list) [
    | none ↦ none
    | some t ↦
        let (runs, s) = setup t l.state in
        if runs
        then start_task fork tid (record l { state = s })
        else finalize_task tid none (record l { state = s })
  ]

  -- The branch that pops the queue.
  unfoldable pub pop : Fork → Loop → Option Loop
  unfolding top drop_one dispatch_task
  pop fork l = elim l.graph.task_queue [
    | [] ↦ none
    | x ∷ xs ↦
        let tid = top l.graph.task_list x xs in
        dispatch_task fork tid
          (record l { graph = record l.graph { task_queue = drop_one tid (x ∷ xs) } })
  ]

  -- The results that `Wait` adds, if there is none.
  abbrev pub more_results : ℕ → Loop → ℕ
  more_results ready l = if l.results == 0 then suc (ready % length l.handles) else 0

  -- One of the results is taken, and its handle leaves the map.
  abbrev pub taken : ℕ → ℕ → Loop → Loop
  taken more tid l = record l {
    running = drop_one tid l.running;
    handles = drop_one tid l.handles;
    users = l.users + more;
    results = l.results + more - 1;
  }

  -- Without a descriptor left, `WaitAnyResult` gives the handle -1, which the map may not have.
  abbrev pub wait_failed : Option ℕ → Loop → Option Loop
  wait_failed none l = none
  wait_failed (some tid) l =
      finalize_task tid (some no_result)
        (record l { running = drop_one tid l.running; failed = none })

  -- WaitTask and FinalizeTask. The kernel says which of the running tasks ends, and how.
  unfoldable pub wait : Event → Loop → Option Loop
  unfolding drop_one finalize_task
  wait event l = elim (get_elem? l.handles (event.choice % length l.handles)) [
    | none ↦ wait_failed l.failed l
    | some tid ↦ finalize_task tid (some event.outcome) (taken (more_results event.ready l) tid l)
  ]

  -- One round of the inner `while`, for kMaxParallel = `par`.
  unfoldable pub round : ℕ → Event → Loop → Option Loop
  unfolding pop wait
  round par event l =
      if ltb (length l.running) par && ltb 0 (length l.graph.task_queue)
      then pop event.fork l
      else wait event l

  abbrev pub is_idle : Loop → Bool
  is_idle l = length l.running == 0 && length l.graph.task_queue == 0

  -- Every task has left the map, and none is queued or running.
  abbrev pub Done : Loop → Type 0
  Done l = (l.graph.task_list ≡ []) × (l.graph.task_queue ≡ []) × (l.running ≡ [])

  -- The inner `while`, on fuel. `kernel n l` is what the kernel does in round `n`.
  unfoldable pub work : ℕ → (ℕ → Loop → Event) → ℕ → ℕ → Loop → Option Loop
  unfolding round
  work par kernel zero n l = none
  work par kernel (suc fuel) n l =
      let next : Option Loop = elim (round par (kernel n l) l) [
        | none ↦ none
        | some l' ↦ work par kernel fuel (suc n) l'
      ] in
      if is_idle l then some l else next
