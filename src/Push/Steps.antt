-- ===== src/Push/Steps.antt =====
-- `Link`, `InsertTaskList` and the whole sequence of calls keep the invariant.
use tioj_judge.Base.{
  ℕ, ◌+◌, ◌<◌, ◌≡◌, refl, true, List, [], ◌∷◌, some, arith, ◌==◌, All, ==_iff, ap, sym, ◌∙◌,
}
use tioj_judge.Base.Int.{ℤ}
use tioj_judge.Graph.{Task, TaskEntry, insert_task_list}
use tioj_judge.Graph.Count.{one_if, count, id_count, edge_count, zeros, All-mem}
use tioj_judge.Graph.Inv.{Rises}
use tioj_judge.Push.{
  Op, create, link, insert, Build, task_eq, local_entry, modify_local, drop_local, add_edge,
  add_degree, link_entries, perform, perform_all,
}
use tioj_judge.Push.Local.{
  level, task_eq-eq, count-snoc, local_entry-mem, id_count-mem, All-map_mem, id_count-modify_local,
  edge_count-add_degree, edge_count-add_edge, local_entry-add_edge, All-modify_local,
  id_count-drop_local, edge_count-drop_local, All-drop_local, degree-other, degree-add,
}
use tioj_judge.Push.Runs.{Seen, with_task, without_task, Runs}
use tioj_judge.Push.Inv.{
  task_number, edges, BuildInv, local_entry-some, task_number-modify, raise, create-Inv,
}

task_number-drop :
    (t u : Task) (es : List TaskEntry) (e : TaskEntry)
    → local_entry t es ≡ some e
    → task_number u (drop_local t es) + one_if (task_eq u e.task) ≡ task_number u es
unfolding task_number drop_local local_entry
task_number-drop t u [] e h = cc
task_number-drop t u (x ∷ es) e h = ground (arith, task_number-drop t u es e)

module _ (lev : ℕ → ℕ) (running : List ℕ) (seen : Seen) (s : Build)
    (v : BuildInv lev running seen s) where
  entry_of : (t : Task) → seen t ≡ true → (e : TaskEntry) × (local_entry t s.local ≡ some e)
  entry_of t h = local_entry-some t s.local (ground (arith, v.present t))

  level_of : (t : Task) (e : TaskEntry) → local_entry t s.local ≡ some e → lev e.id ≡ level t
  level_of t e h =
      let (q, m) = local_entry-mem t s.local e h in
      All-mem (λ u. lev u.id ≡ level u.task) e s.local v.levels m
      ∙ ap level (sym (task_eq-eq t e.task q))

  module _ (a b : Task) (source target : TaskEntry) (fa : local_entry a s.local ≡ some source)
      (fb : local_entry b s.local ≡ some target) (up : level a < level b) where
    abbrev linked : Build
    linked = link_entries a b target s

    abbrev mid : List TaskEntry
    mid = modify_local a (add_edge target.id) s.local

    same_ids : (x : ℕ) → id_count x linked.local ≡ id_count x s.local
    unfolding link_entries
    same_ids x =
        id_count-modify_local add_degree (λ _. refl) b x
          (modify_local a (add_edge target.id) s.local)
        ∙ id_count-modify_local (add_edge target.id) (λ _. refl) a x s.local

    more_edges :
        (x : ℕ) → edge_count x linked.local ≡ edge_count x s.local + one_if (target.id == x)
    unfolding link_entries
    more_edges x =
        edge_count-add_degree b x (modify_local a (add_edge target.id) s.local)
        ∙ edge_count-add_edge a x target.id s.local source fa

    target_there : 0 < id_count target.id s.local
    target_there = id_count-mem target s.local (local_entry-mem b s.local target fb).1

    degree_mid : All (λ e. e.indeg ≡ edges e.id s) mid
    degree_mid =
        All-modify_local (λ e. e.indeg ≡ edges e.id s) (add_edge target.id) a s.local source fa
          (λ h. h) v.degree_local

    Rises-source : Rises lev source → Rises lev (add_edge target.id source)
    Rises-source r x c = ground (
      arith,
      count-snoc x target.id source.edges,
      r x,
      level_of a source fa,
      level_of b target fb,
      ==_iff target.id x,
    )

    pub link-Inv : BuildInv lev running seen linked
    unfolding link_entries
    link-Inv = record {
      distinct = λ x. omega (arith, same_ids x, v.distinct x);
      bounded = λ x h. v.bounded x (omega (arith, same_ids x));
      degree_local =
          let (target', f', i) = local_entry-add_edge a b target.id s.local target fb in
          All-map_mem (λ e. e.indeg ≡ edges e.id s + one_if (target'.id == e.id))
            (λ e. e.indeg ≡ edges e.id linked) linked.local
            (λ e m h. ground (arith, more_edges e.id, i))
            (degree-add (λ x. edges x s) b mid target' f'
              (omega (
                arith,
                v.distinct target'.id,
                id_count-modify_local (add_edge target.id) (λ _. refl) a target'.id s.local,
              ))
              degree_mid);
      degree_graph =
          All-map_mem (λ e. e.indeg ≡ edges e.id s + one_if (target.id == e.id))
            (λ e. e.indeg ≡ edges e.id linked) s.graph.task_list
            (λ e m h. omega (arith, more_edges e.id))
            (degree-other (λ x. edges x s) target.id s.graph.task_list
              (omega (arith, v.distinct target.id, target_there)) v.degree_graph);
      rising_local =
          let (target', f', i) = local_entry-add_edge a b target.id s.local target fb in
          All-modify_local (Rises lev) add_degree b mid target' f' (λ r. r)
            (All-modify_local (Rises lev) (add_edge target.id) a s.local source fa Rises-source
              v.rising_local);
      rising_graph = v.rising_graph;
      levels =
          let (target', f', i) = local_entry-add_edge a b target.id s.local target fb in
          All-modify_local (λ e. lev e.id ≡ level e.task) add_degree b mid target' f' (λ r. r)
            (All-modify_local (λ e. lev e.id ≡ level e.task) (add_edge target.id) a s.local source
              fa (λ r. r) v.levels);
      targets = λ x h.
          ground (arith, same_ids x, more_edges x, v.targets x, target_there, ==_iff target.id x);
      ready = v.ready;
      present = λ t.
          task_number-modify add_degree (λ _. refl) b t mid
          ∙ (task_number-modify (add_edge target.id) (λ _. refl) a t s.local ∙ v.present t);
    }

  module _ (t : Task) (e : TaskEntry) (f : local_entry t s.local ≡ some e) where
    abbrev moved : Build
    moved = record s { local = drop_local t s.local; graph = insert_task_list e s.graph }

    split_ids :
        (x : ℕ) → id_count x (drop_local t s.local) + one_if (e.id == x) ≡ id_count x s.local
    split_ids x = id_count-drop_local t x s.local e f

    split_edges :
        (x : ℕ) → edge_count x (drop_local t s.local) + count x e.edges ≡ edge_count x s.local
    split_edges x = edge_count-drop_local t x s.local e f

    entry_facts : (e.indeg ≡ edges e.id s) × Rises lev e × (task_eq t e.task ≡ true)
    entry_facts =
        let (q, m) = local_entry-mem t s.local e f in
        (
          All-mem (λ u. u.indeg ≡ edges u.id s) e s.local v.degree_local m,
          All-mem (Rises lev) e s.local v.rising_local m,
          q,
        )

    pub insert-Inv : BuildInv lev running (without_task t seen) moved
    unfolding insert_task_list id_count edge_count zeros
    insert-Inv = record {
      distinct = λ x. omega (arith, split_ids x, v.distinct x);
      bounded = λ x h. v.bounded x (omega (arith, split_ids x));
      degree_local =
          All-map_mem (λ u. u.indeg ≡ edges u.id s) (λ u. u.indeg ≡ edges u.id moved)
            (drop_local t s.local) (λ u m h. omega (arith, split_edges u.id))
            (All-drop_local (λ u. u.indeg ≡ edges u.id s) t s.local v.degree_local);
      degree_graph = (
        omega (arith, entry_facts.0, split_edges e.id),
        All-map_mem (λ u. u.indeg ≡ edges u.id s) (λ u. u.indeg ≡ edges u.id moved)
            s.graph.task_list (λ u m h. omega (arith, split_edges u.id)) v.degree_graph,
      );
      rising_local = All-drop_local (Rises lev) t s.local v.rising_local;
      rising_graph = (entry_facts.1, v.rising_graph);
      levels = All-drop_local (λ u. lev u.id ≡ level u.task) t s.local v.levels;
      targets = λ x h.
          omega (arith, split_ids x, split_edges x, v.targets x (omega (arith, split_edges x)));
      ready = λ x. unfold count in ground (arith, v.ready x);
      present = λ u.
          let same = task_eq-eq t e.task entry_facts.2 in
          ground (arith, task_number-drop t u s.local e f, v.present u, ap (task_eq u) same);
    }

module _ (sub_id : ℕ) (prio : ℤ) (running : List ℕ) where
  link_found :
      (a b : Task) (source target : TaskEntry) (s : Build)
      → local_entry a s.local ≡ some source
      → local_entry b s.local ≡ some target
      → perform sub_id prio (link a b) s ≡ some (link_entries a b target s)
  unfolding perform
  link_found a b source target s fa fb = rw (fa, perform) (rw (fb, perform))

  insert_found :
      (t : Task) (e : TaskEntry) (s : Build)
      → local_entry t s.local ≡ some e
      → perform sub_id prio (insert t) s
        ≡ some (record s { local = drop_local t s.local; graph = insert_task_list e s.graph })
  unfolding perform
  insert_found t e s f = rw (f, perform)

  -- A sequence that finds its entries is carried out, and keeps the invariant.
  pub perform_all-Inv :
      (ops : List Op) (seen after : Seen) (lev : ℕ → ℕ) (s : Build)
      → BuildInv lev running seen s
      → Runs seen ops after
      → (s' : Build) × (lev' : ℕ → ℕ) × (perform_all sub_id prio ops s ≡ some s')
        × BuildInv lev' running after s'
  unfolding perform_all perform
  perform_all-Inv [] seen after lev s v r = (
    s,
    lev,
    refl,
    record {
      distinct = v.distinct;
      bounded = v.bounded;
      degree_local = v.degree_local;
      degree_graph = v.degree_graph;
      rising_local = v.rising_local;
      rising_graph = v.rising_graph;
      levels = v.levels;
      targets = v.targets;
      ready = v.ready;
      present = λ t. v.present t ∙ ap one_if (r t);
    },
  )
  perform_all-Inv (create t order ∷ ops) seen after lev s v r =
      perform_all-Inv ops (with_task t seen) after (raise s.task_count (level t) lev) _
        (create-Inv lev running seen s v sub_id prio t order r.0) r.1
  perform_all-Inv (link a b ∷ ops) seen after lev s v r =
      let (source, fa) = entry_of lev running seen s v a r.0 in
      let (target, fb) = entry_of lev running seen s v b r.1 in
      let (s', lev', e, w) =
        perform_all-Inv ops seen after lev (link_entries a b target s)
          (link-Inv lev running seen s v a b source target fa fb r.2) r.3 in
      (s', lev', rw (link_found a b source target s fa fb, perform_all) e, w)
  perform_all-Inv (insert t ∷ ops) seen after lev s v r =
      let (e, f) = entry_of lev running seen s v t r.0 in
      let (s', lev', d, w) =
        perform_all-Inv ops (without_task t seen) after lev
          (record s { local = drop_local t s.local; graph = insert_task_list e s.graph })
          (insert-Inv lev running seen s v t e f) r.1 in
      (s', lev', rw (insert_found t e s f, perform_all) d, w)
