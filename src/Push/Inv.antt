-- ===== src/Push/Inv.antt =====
-- The graph and the local entries of `PushSubmission` together keep the invariant of the graph.
use mathlib.Core.List.{Memᴰ}
use tioj_judge.Base.{
  ℕ, suc, ◌+◌, ◌≤◌, ◌<◌, ◌≡◌, refl, false, List, [], ◌∷◌, some, arith, ◌==◌, if◌then◌else◌, All,
  Bool-cases, inl, inr, ==_iff, ap,
}
use tioj_judge.Base.Int.{ℤ}
use tioj_judge.Graph.{Task, TaskEntry, new_entry}
use tioj_judge.Graph.Count.{one_if, count, id_count, edge_count, zeros}
use tioj_judge.Graph.Inv.{Rises}
use tioj_judge.Push.{Build, task_eq, local_entry, modify_local}
use tioj_judge.Push.Local.{level, task_eq-eq, id_count-mem, edge_count-mem, All-map_mem}
use tioj_judge.Push.Runs.{Seen, with_task}

unfoldable pub task_number : Task → List TaskEntry → ℕ
task_number t [] = 0
task_number t (e ∷ es) = one_if (task_eq t e.task) + task_number t es

abbrev pub ids : ℕ → Build → ℕ
ids x s = id_count x s.local + id_count x s.graph.task_list

abbrev pub edges : ℕ → Build → ℕ
edges x s = edge_count x s.local + edge_count x s.graph.task_list

-- The invariant of the graph, over the local entries too; each task of `seen` has one local entry.
pub record BuildInv (lev : ℕ → ℕ) (running : List ℕ) (seen : Seen) (s : Build) : Type 0 where
  pub distinct : (x : ℕ) → ids x s ≤ 1
  pub bounded : (x : ℕ) → 0 < ids x s → x < s.task_count
  pub degree_local : All (λ e. e.indeg ≡ edges e.id s) s.local
  pub degree_graph : All (λ e. e.indeg ≡ edges e.id s) s.graph.task_list
  pub rising_local : All (Rises lev) s.local
  pub rising_graph : All (Rises lev) s.graph.task_list
  pub levels : All (λ e. lev e.id ≡ level e.task) s.local
  pub targets : (x : ℕ) → 0 < edges x s → 0 < ids x s
  pub ready : (x : ℕ) → count x s.graph.task_queue + count x running ≡ zeros x s.graph.task_list
  pub present : (t : Task) → task_number t s.local ≡ one_if (seen t)

pub local_entry-some :
    (t : Task) (es : List TaskEntry)
    → 0 < task_number t es
    → (e : TaskEntry) × (local_entry t es ≡ some e)
unfolding local_entry task_number
local_entry-some t [] h = absurd (omega arith)
local_entry-some t (e ∷ es) h = elim (Bool-cases (task_eq t e.task)) [
  | inl q ↦ (e, rw q)
  | inr q ↦ rw q (local_entry-some t es (ground arith))
]

pub task_number-modify :
    (f : TaskEntry → TaskEntry)
    → ((e : TaskEntry) → (f e).task ≡ e.task)
    → (t u : Task) (es : List TaskEntry) → task_number u (modify_local t f es) ≡ task_number u es
unfolding task_number modify_local
task_number-modify f same t u [] = refl
task_number-modify f same t u (e ∷ es) =
    ground (arith, ap (task_eq u) (same e), task_number-modify f same t u es)

-- A new level for a new id.
abbrev pub raise : ℕ → ℕ → (ℕ → ℕ) → ℕ → ℕ
raise n k lev x = if x == n then k else lev x

Rises-raise :
    (n k : ℕ) (lev : ℕ → ℕ) (all : ℕ → ℕ) (es : List TaskEntry)
    → ((e : TaskEntry) → Memᴰ e es → (e.id < n) × ((x : ℕ) → 0 < count x e.edges → x < n))
    → All (Rises lev) es
    → All (Rises (raise n k lev)) es
Rises-raise n k lev all es old a =
    All-map_mem (Rises lev) (Rises (raise n k lev)) es
      (λ e m r x c. ground (arith, old e m, (old e m).1 x c, r x c)) a

module _ (lev : ℕ → ℕ) (running : List ℕ) (seen : Seen) (s : Build)
    (v : BuildInv lev running seen s) where
  old_local :
      (e : TaskEntry)
      → Memᴰ e s.local
      → (e.id < s.task_count) × ((x : ℕ) → 0 < count x e.edges → x < s.task_count)
  old_local e m = (
    v.bounded e.id (omega (arith, id_count-mem e s.local m)),
    λ x c. v.bounded x (v.targets x (omega (arith, edge_count-mem x e s.local m))),
  )

  old_graph :
      (e : TaskEntry)
      → Memᴰ e s.graph.task_list
      → (e.id < s.task_count) × ((x : ℕ) → 0 < count x e.edges → x < s.task_count)
  old_graph e m = (
    v.bounded e.id (omega (arith, id_count-mem e s.graph.task_list m)),
    λ x c. v.bounded x (v.targets x (omega (arith, edge_count-mem x e s.graph.task_list m))),
  )

  -- The number of the new entry is on no entry and on no edge.
  no_old : (ids s.task_count s ≡ 0) × (edges s.task_count s ≡ 0)
  no_old = (
    ground (arith, v.bounded s.task_count),
    ground (arith, v.bounded s.task_count, v.targets s.task_count),
  )

  pub create-Inv :
      (sub_id : ℕ) (prio : ℤ) (t : Task) (order : ℕ)
      → seen t ≡ false
      → BuildInv (raise s.task_count (level t) lev) running (with_task t seen) (record s {
        task_count = suc s.task_count;
        local = new_entry s.task_count sub_id t prio order ∷ s.local;
      })
  unfolding id_count edge_count count task_number
  create-Inv sub_id prio t order fresh = record {
    distinct = λ x. ground (arith, v.distinct x, no_old, ==_iff s.task_count x);
    bounded = λ x h. ground (arith, v.bounded x);
    degree_local = (
      omega (arith, no_old),
      All-map_mem (λ e. e.indeg ≡ edges e.id s)
          (λ e. e.indeg ≡ 0 + edge_count e.id s.local + edge_count e.id s.graph.task_list) s.local
          (λ e m h. omega arith) v.degree_local,
    );
    degree_graph =
        All-map_mem (λ e. e.indeg ≡ edges e.id s)
          (λ e. e.indeg ≡ 0 + edge_count e.id s.local + edge_count e.id s.graph.task_list)
          s.graph.task_list (λ e m h. omega arith) v.degree_graph;
    rising_local = (
      λ x c. absurd (omega arith),
      Rises-raise s.task_count (level t) lev lev s.local old_local v.rising_local,
    );
    rising_graph =
        Rises-raise s.task_count (level t) lev lev s.graph.task_list old_graph v.rising_graph;
    levels = (
      ground arith,
      All-map_mem (λ e. lev e.id ≡ level e.task)
          (λ e. raise s.task_count (level t) lev e.id ≡ level e.task) s.local
          (λ e m h. ground (arith, old_local e m)) v.levels,
    );
    targets = λ x h. ground (arith, v.targets x);
    ready = v.ready;
    present = λ u. ground (arith, task_eq-eq u t, v.present u);
  }
