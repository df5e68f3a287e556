-- ===== src/Graph/Inv.antt =====
-- The invariant of the task graph, that `Remove` keeps it, and that the graph never gets stuck.
use mathlib.Core.List.{Memᴰ}
use tioj_judge.Base.{
  ℕ, zero, suc, ◌+◌, ◌≤◌, ◌<◌, ◌≡◌, refl, ◌≢◌, ◌∙◌, List, [], ◌∷◌, some, arith, ◌==◌, All,
  Bool-cases, inl, inr, ==_iff, length, ℕ_discrete,
}
use tioj_judge.Graph.{TaskEntry, Graph, find, erase, remove}
use tioj_judge.Graph.Count.{
  one_if, count, id_count, zeros, zeros-le, edge_count, find-mem, id_count-erase, edge_count-erase,
  zeros-erase, edge_source, All-mem,
}
use tioj_judge.Graph.Release.{Owed, Pending, Kept, release_all-Pending}

-- Every edge of the entry goes to a task of a higher level.
abbrev pub Rises : (ℕ → ℕ) → TaskEntry → Type 0
Rises level t = (x : ℕ) → 0 < count x t.edges → level t.id < level x

-- `degree`: the number of edges to the task. `ready`: the tasks that are queued or running, each
-- once, are those with degree 0.
pub record Inv (level : ℕ → ℕ) (running : List ℕ) (g : Graph) : Type 0 where
  pub distinct : (x : ℕ) → id_count x g.task_list ≤ 1
  pub degree : All (λ t. t.indeg ≡ edge_count t.id g.task_list) g.task_list
  pub rising : All (Rises level) g.task_list
  pub targets : (x : ℕ) → 0 < edge_count x g.task_list → 0 < id_count x g.task_list
  pub ready : (x : ℕ) → count x g.task_queue + count x running ≡ zeros x g.task_list

All-map {κ μ} :
    {A : Type 0} (P : A → Type κ) (Q : A → Type μ)
    → ((a : A) → P a → Q a)
    → (xs : List A) → All P xs
    → All Q xs
All-map P Q f [] h = tt
All-map P Q f (x ∷ xs) h = (f x h.0, All-map P Q f xs h.1)

All-erase {κ} :
    (P : TaskEntry → Type κ) (x : ℕ) (ts : List TaskEntry) → All P ts → All P (erase x ts)
unfolding erase
All-erase P x [] h = tt
All-erase P x (t ∷ ts) h = elim (Bool-cases (t.id == x)) [
  | inl e ↦ rw e h.1
  | inr e ↦ rw e (h.0, All-erase P x ts h.1)
]

pub length-erase :
    (x : ℕ) (ts : List TaskEntry) → 0 < id_count x ts → length (erase x ts) + 1 ≡ length ts
unfolding erase id_count
length-erase x [] h = absurd (omega arith)
length-erase x (t ∷ ts) h = ground (arith, length-erase x ts)

pub zeros-find :
    (x : ℕ) (ts : List TaskEntry) (t : TaskEntry)
    → find x ts ≡ some t
    → id_count x ts ≤ 1
    → 0 < zeros x ts
    → t.indeg ≡ 0
unfolding find id_count zeros
zeros-find x [] t f d z = cc
zeros-find x (u ∷ ts) t f d z = ground (arith, zeros-le x ts, zeros-find x ts t)

id_count-find :
    (x : ℕ) (ts : List TaskEntry) (t : TaskEntry) → find x ts ≡ some t → 0 < id_count x ts
unfolding find id_count
id_count-find x [] t f = cc
id_count-find x (u ∷ ts) t f = ground (arith, id_count-find x ts t)

zeros-mem : (t : TaskEntry) (ts : List TaskEntry) → Memᴰ t ts → t.indeg ≡ 0 → 0 < zeros t.id ts
unfolding zeros
zeros-mem t [] m z = elim m [ ]
zeros-mem t (u ∷ ts) (Memᴰ.head e) z = ground arith
zeros-mem t (u ∷ ts) (Memᴰ.tail m) z = ground (arith, zeros-mem t ts m z)

some_member : (ts : List TaskEntry) → ts ≢ [] → (t : TaskEntry) × Memᴰ t ts
some_member [] h = absurd (h refl)
some_member (t ∷ ts) h = (t, Memᴰ.head refl)

module _ (level : ℕ → ℕ) (running : List ℕ) (g : Graph) (v : Inv level running g) where
  descend :
      (n : ℕ) (t : TaskEntry)
      → Memᴰ t g.task_list
      → level t.id < n
      → (x : ℕ) × (0 < zeros x g.task_list)
  descend zero t m h = absurd (omega arith)
  descend (suc n) t m h = elim (ℕ_discrete t.indeg 0) [
    | yes z ↦ (t.id, zeros-mem t g.task_list m z)
    | no p ↦
        let e = All-mem (λ u. u.indeg ≡ edge_count u.id g.task_list) t g.task_list v.degree m in
        let (s, ms, c) = edge_source t.id g.task_list (omega arith) in
        let up = All-mem (Rises level) s g.task_list v.rising ms t.id c in
        descend n s ms (omega arith)
  ]

  -- While a task is left, one is queued or running: no task waits for ever.
  pub not_stuck : g.task_list ≢ [] → (x : ℕ) × (0 < count x g.task_queue + count x running)
  not_stuck h =
      let (t, m) = some_member g.task_list h in
      let (x, z) = descend (suc (level t.id)) t m (omega arith) in (x, omega (arith, v.ready x))

-- One task that waits for none is taken out.
module _ (level : ℕ → ℕ) (running : List ℕ) (g : Graph) (t : TaskEntry) (v : Inv level running g)
    (found : find t.id g.task_list ≡ some t) (free : t.indeg ≡ 0) where
  remaining : ℕ → ℕ
  remaining x = edge_count x (erase t.id g.task_list)

  split_edges : (x : ℕ) → remaining x + count x t.edges ≡ edge_count x g.task_list
  unfolding remaining
  split_edges x = edge_count-erase t.id x g.task_list t found

  -- No edge leads to it.
  no_edge : edge_count t.id g.task_list ≡ 0
  no_edge =
      let m = (find-mem t.id g.task_list t found).1 in
      omega (arith, All-mem (λ u. u.indeg ≡ edge_count u.id g.task_list) t g.task_list v.degree m)

  before : Pending remaining running t.edges g
  before = record {
    distinct = v.distinct;
    owed =
        All-map (λ u. u.indeg ≡ edge_count u.id g.task_list) (Owed remaining t.edges)
          (λ u e. omega (arith, split_edges u.id)) g.task_list v.degree;
    present = λ x h. v.targets x (omega (arith, split_edges x));
    ready = v.ready;
  }

  module _ (left : List ℕ) (taken : (x : ℕ) → count x running ≡ one_if (t.id == x) + count x left)
      (g' : Graph) (p : Pending remaining running [] g')
      (k : Kept (Rises level) t.edges g.task_list g'.task_list) where
    found' : find t.id g'.task_list ≡ some t
    found' = k.others t.id (omega (arith, split_edges t.id, no_edge)) ∙ found

    split_edges' :
        (x : ℕ)
        → edge_count x (erase t.id g'.task_list) + count x t.edges ≡ edge_count x g.task_list
    split_edges' x = edge_count-erase t.id x g'.task_list t found' ∙ k.edges x

    split_ids :
        (x : ℕ)
        → id_count x (erase t.id g'.task_list) + one_if (t.id == x) ≡ id_count x g'.task_list
    split_ids x = id_count-erase t.id x g'.task_list (id_count-find t.id g'.task_list t found')

    after : Inv level left (record g' { task_list = erase t.id g'.task_list })
    unfolding count
    after = record {
      distinct = λ x. omega (arith, split_ids x, p.distinct x);
      degree =
          All-erase (λ u. u.indeg ≡ edge_count u.id (erase t.id g'.task_list)) t.id g'.task_list
            (All-map (Owed remaining []) (λ u. u.indeg ≡ edge_count u.id (erase t.id g'.task_list))
              (λ u e. omega (arith, split_edges u.id, split_edges' u.id)) g'.task_list p.owed);
      rising = All-erase (Rises level) t.id g'.task_list (k.all v.rising);
      targets = λ x h.
          ground (arith, split_ids x, split_edges' x, k.ids x, v.targets x, no_edge, ==_iff t.id x);
      ready = λ x. omega (arith, taken x, p.ready x, zeros-erase t.id x g'.task_list t found' free);
    }

-- `Remove` of a task that waits for none never meets a missing or a used-up successor. It keeps the
-- invariant, and exactly this task leaves the graph.
pub remove-Inv :
    (level : ℕ → ℕ) (running left : List ℕ) (g : Graph) (t : TaskEntry)
    → Inv level running g
    → find t.id g.task_list ≡ some t
    → t.indeg ≡ 0
    → ((x : ℕ) → count x running ≡ one_if (t.id == x) + count x left)
    → (g' : Graph) × (remove t g ≡ some g')
      × Inv level left g'
      × (length g'.task_list + 1 ≡ length g.task_list)
      × ((x : ℕ) → id_count x g'.task_list + one_if (t.id == x) ≡ id_count x g.task_list)
unfolding remove
remove-Inv level running left g t v found free taken =
    let (g1, e, p, k) =
      release_all-Pending (Rises level) (remaining level running g t v found free) running t.edges g
        (λ _ r. r) (before level running g t v found free) in
    (
      record g1 { task_list = erase t.id g1.task_list },
      rw (e, remove),
      after level running g t v found free left taken g1 p k,
      length-erase t.id g1.task_list (
            id_count-find t.id g1.task_list t
              (found' level running g t v found free left taken g1 p k))
          ∙ k.size,
      λ x. split_ids level running g t v found free left taken g1 p k x ∙ k.ids x,
    )
