-- ===== src/Push/Submit.antt =====
-- The graph part of `PushSubmission`, and that it keeps the invariant.
use tioj_judge.Base.{ℕ, ◌+◌, ◌<◌, ◌≡◌, refl, List, [], ◌∷◌, Option, some, arith, get_or, ap}
use tioj_judge.Order.{td_order}
use tioj_judge.Graph.{Task, TaskEntry, Graph}
use tioj_judge.Graph.Count.{id_count, edge_count}
use tioj_judge.Graph.Inv.{Inv}
use tioj_judge.Submission.{Submission}
use tioj_judge.Push.{Build, perform_all}
use tioj_judge.Push.Plan.{first_prob, clamp_stages, plan}
use tioj_judge.Push.Local.{task_eq_refl, All-map_mem}
use tioj_judge.Push.Inv.{BuildInv, task_number, edges}
use tioj_judge.Push.Finish.{no_task, plan-Runs}
use tioj_judge.Push.Steps.{perform_all-Inv}

unfoldable pub push_graph : Submission → ℕ → Graph → Option Build
unfolding perform_all plan td_order
push_graph sub task_count g =
    perform_all sub.submission_internal_id sub.priority (plan sub (λ i. get_or (td_order sub) i 0))
      (record { task_count = task_count; local = []; graph = g })

-- Every number in the map was drawn from `task_count`.
abbrev pub Drawn : ℕ → Graph → Type 0
Drawn task_count g = (x : ℕ) → 0 < id_count x g.task_list → x < task_count

no_local : (es : List TaskEntry) → ((t : Task) → task_number t es ≡ 0) → es ≡ []
unfolding task_number
no_local [] h = refl
no_local (e ∷ es) h = absurd (ground (arith, h e.task, task_eq_refl e.task))

start-Inv :
    (lev : ℕ → ℕ) (running : List ℕ) (task_count : ℕ) (g : Graph)
    → Inv lev running g
    → Drawn task_count g
    → BuildInv lev running no_task (record { task_count = task_count; local = []; graph = g })
unfolding id_count edge_count task_number
start-Inv lev running task_count g v d = record {
  distinct = λ x. omega (arith, v.distinct x);
  bounded = λ x h. d x (omega arith);
  degree_local = tt;
  degree_graph =
      All-map_mem (λ e. e.indeg ≡ edge_count e.id g.task_list)
        (λ e. e.indeg ≡ 0 + edge_count e.id g.task_list) g.task_list (λ e m h. omega arith)
        v.degree;
  rising_local = tt;
  rising_graph = v.rising;
  levels = tt;
  targets = λ x h. omega (arith, v.targets x (omega arith));
  ready = v.ready;
  present = λ t. refl;
}

finish :
    (lev : ℕ → ℕ) (running : List ℕ) (b : Build)
    → BuildInv lev running no_task b
    → b.local ≡ []
    → Inv lev running b.graph
unfolding id_count edge_count
finish lev running b w empty =
    let no_ids : (x : ℕ) → id_count x b.local ≡ 0 = λ x. ap (id_count x) empty in
    let no_edges : (x : ℕ) → edge_count x b.local ≡ 0 = λ x. ap (edge_count x) empty in
    record {
      distinct = λ x. omega (arith, w.distinct x);
      degree =
          All-map_mem (λ e. e.indeg ≡ edges e.id b)
            (λ e. e.indeg ≡ edge_count e.id b.graph.task_list) b.graph.task_list
            (λ e m h. omega (arith, no_edges e.id)) w.degree_graph;
      rising = w.rising_graph;
      targets = λ x h. omega (arith, no_ids x, w.targets x (omega arith));
      ready = w.ready;
    }

-- When the first stage of the problem's program is one of the stages, `PushSubmission` reads past no
-- vector and inserts every entry that it makes. The graph keeps its invariant: degrees count edges,
-- each edge leads to a task of the map and upwards in some order, and the queued and running tasks
-- are, each once, those that wait for none.
pub push_graph-Inv :
    (sub : Submission) (lev : ℕ → ℕ) (running : List ℕ) (task_count : ℕ) (g : Graph)
    → ((s : ℕ) → first_prob sub.problem_prog_stages ≡ some s → s < clamp_stages sub.stages)
    → Inv lev running g
    → Drawn task_count g
    → (b : Build) × (lev' : ℕ → ℕ) × (push_graph sub task_count g ≡ some b)
      × (b.local ≡ [])
      × Inv lev' running b.graph
      × Drawn b.task_count b.graph
unfolding push_graph
push_graph-Inv sub lev running task_count g in_range v d =
    let (b, lev', e, w) =
      perform_all-Inv sub.submission_internal_id sub.priority running
        (plan sub (λ i. get_or (td_order sub) i 0)) no_task no_task lev
        (record { task_count = task_count; local = []; graph = g })
        (start-Inv lev running task_count g v d)
        (plan-Runs sub (λ i. get_or (td_order sub) i 0) in_range) in
    let empty = no_local b.local w.present in
    (b, lev', e, empty, finish lev' running b w empty, λ x h. w.bounded x (omega arith))
