-- ===== src/Loop/Steps.antt =====
-- What a finalized task and a pop of `WorkLoop` (src/tioj/submission.cpp) do to the invariant.
use tioj_judge.Base.{
  ℕ, zero, suc, ◌+◌, ◌-◌, ◌*◌, ◌≤◌, ◌<◌, ◌≡◌, ◌∙◌, true, false, ◌&&◌, List, [], ◌∷◌, Option, none,
  some, arith, ◌==◌, length, get_elem?, Bool-cases, ◌⊎◌, inl, inr, refl, ap,
}
use tioj_judge.Graph.{TaskEntry, Graph, find, remove}
use tioj_judge.Graph.Count.{one_if, count, id_count, zeros, zeros-le, find-mem, find-some}
use tioj_judge.Graph.Inv.{Inv, zeros-find, remove-Inv}
use tioj_judge.Loop.Queue.{head_counts, top-mem, count-drop_one, length-le-ids}
use tioj_judge.Pool.{Fork, pipe_failed, fork_failed, started}
use tioj_judge.Loop.Handles.{Held, Kept, Calm, begun-Held}
use tioj_judge.Loop.{
  Handlers, Loop, is_started, takes_user, begun, start_task, taken, top, drop_one, finalize_task,
  dispatch_task, pop,
}

-- A task that may run is in the map, and waits for none.
free_entry :
    (level : ℕ → ℕ) (running : List ℕ) (g : Graph) (tid : ℕ)
    → Inv level running g
    → 0 < count tid running
    → (t : TaskEntry) × (t.id ≡ tid) × (find tid g.task_list ≡ some t) × (t.indeg ≡ 0)
free_entry level running g tid v h =
    let z : 0 < zeros tid g.task_list = omega (arith, v.ready tid) in
    let (t, f) = find-some tid g.task_list (omega (arith, zeros-le tid g.task_list)) in
    (t, (find-mem tid g.task_list t f).0, f, zeros-find tid g.task_list t f (v.distinct tid) z)

cons_counts : (y x : ℕ) (xs : List ℕ) → count x (y ∷ xs) ≡ one_if (y == x) + count x xs
unfolding count
cons_counts y x xs = refl

pub get_elem?-count :
    (i : ℕ) (xs : List ℕ) → i < length xs → (x : ℕ) × (get_elem? xs i ≡ some x) × (0 < count x xs)
unfolding count
get_elem?-count i [] h = absurd (omega arith)
get_elem?-count zero (x ∷ xs) h = (x, refl, ground arith)
get_elem?-count (suc i) (x ∷ xs) h =
    let (y, e, m) = get_elem?-count i xs (omega arith) in (y, e, omega (arith, m))

pub empty_of_length : (xs : List ℕ) → length xs ≡ 0 → xs ≡ []
empty_of_length [] h = refl
empty_of_length (x ∷ xs) h = absurd (omega arith)

-- The ids in the queue and those running are no more than the tasks.
pub running-le :
    (level : ℕ → ℕ) (running : List ℕ) (g : Graph)
    → Inv level running g
    → length running ≤ length g.task_list
running-le level running g v =
    length-le-ids running g.task_list (λ x. omega (arith, v.ready x, zeros-le x g.task_list))

module _ (h : Handlers) (level : ℕ → ℕ) where
  open h use {State, Outcome, no_result, setup, finalize}

  -- The graph, and what is known of the running tasks.
  abbrev pub LoopInv : Loop h → Type 0
  LoopInv l = Inv level l.running l.graph × Held h l

  abbrev pub measure : Loop h → ℕ
  measure l = 2 * length l.graph.task_list - length l.running

  -- No task is added.
  abbrev pub Fewer : Loop h → Loop h → Type 0
  Fewer l' l = (x : ℕ) → id_count x l'.graph.task_list ≤ id_count x l.graph.task_list

  -- What a step makes of a state.
  abbrev pub After : Loop h → Loop h → Type 0
  After l l' =
      LoopInv l'
      × (measure l' < measure l)
      × (length l'.running ≤ suc (length l.running))
      × Fewer l' l

  finalize_found :
      (tid : ℕ) (outcome : Option Outcome) (l : Loop h) (t : TaskEntry) (g : Graph)
      → find tid l.graph.task_list ≡ some t
      → remove t l.graph ≡ some g
      → finalize_task h tid outcome l
        ≡ some (record l { graph = g; state = finalize t outcome l.state })
  unfolding finalize_task
  finalize_found tid outcome l t g f e = rw (f, finalize_task) (rw (e, finalize_task))

  dispatch_runs :
      (fork : Fork) (tid : ℕ) (l : Loop h) (t : TaskEntry)
      → find tid l.graph.task_list ≡ some t
      → (setup t l.state).0 ≡ true
      → dispatch_task h fork tid l
        ≡ start_task h fork tid (record l { state = (setup t l.state).1 })
  unfolding dispatch_task
  dispatch_runs fork tid l t f e = rw (f, dispatch_task) (rw e)

  dispatch_skips :
      (fork : Fork) (tid : ℕ) (l : Loop h) (t : TaskEntry)
      → find tid l.graph.task_list ≡ some t
      → (setup t l.state).0 ≡ false
      → dispatch_task h fork tid l
        ≡ finalize_task h tid none (record l { state = (setup t l.state).1 })
  unfolding dispatch_task
  dispatch_skips fork tid l t f e = rw (f, dispatch_task) (rw e)

  pub finalize_task-Inv :
      (tid : ℕ) (outcome : Option Outcome) (running : List ℕ) (l : Loop h)
      → Inv level running l.graph
      → 0 < count tid running
      → ((x : ℕ) → count x running ≡ one_if (tid == x) + count x l.running)
      → Held h l
      → (l' : Loop h) × (finalize_task h tid outcome l ≡ some l')
        × LoopInv l'
        × (length l'.graph.task_list + 1 ≡ length l.graph.task_list)
        × (l'.running ≡ l.running)
        × Fewer l' l
        × (Kept h l → Kept h l')
  finalize_task-Inv tid outcome running l v i taken held =
      let (t, same, f, z) = free_entry level running l.graph tid v i in
      let (g, e, w, n, fewer) =
        remove-Inv level running l.running l.graph t v (rw same f) z (λ x. rw same (taken x)) in
      (
        record l { graph = g; state = finalize t outcome l.state },
        finalize_found tid outcome l t g f e,
        (w, held),
        n,
        refl,
        λ x. omega (arith, fewer x),
        λ k. k,
      )

  -- A task leaves the queue and runs.
  popped :
      (tid x : ℕ) (xs : List ℕ) (l : Loop h)
      → Inv level l.running l.graph
      → l.graph.task_queue ≡ x ∷ xs
      → 0 < count tid (x ∷ xs)
      → Inv level (tid ∷ l.running) (record l.graph { task_queue = drop_one tid (x ∷ xs) })
  unfolding count
  popped tid x xs l v e i = record {
    distinct = v.distinct;
    degree = v.degree;
    rising = v.rising;
    targets = v.targets;
    ready = λ y. omega (arith, count-drop_one tid y (x ∷ xs) i, v.ready y, ap (count y) e);
  }

  started_takes : (fork : Fork) → is_started fork ≡ true → takes_user fork ≡ true
  started_takes pipe_failed e = cc
  started_takes fork_failed e = refl
  started_takes (started fd pid) e = refl

  -- A started task that takes a user runs; without a user there is none to take.
  start_task-cases :
      (fork : Fork) (tid : ℕ) (l : Loop h)
      → ((start_task h fork tid l ≡ none) × (l.users ≡ 0))
        ⊎ ((start_task h fork tid l ≡ some (begun h (is_started fork) tid l))
            × (is_started fork ≡ true → 0 < l.users))
  unfolding start_task
  start_task-cases fork tid l = elim (Bool-cases (takes_user fork && l.users == 0)) [
    | inl b ↦ inl (rw b refl, ground (arith, b))
    | inr b ↦ inr (rw b refl, λ r. let t = started_takes fork r in ground (arith, b, t))
  ]

  -- A task that leaves the queue runs or is finalized, or there is no user for it.
  dispatch_task-Inv :
      (fork : Fork) (tid : ℕ) (l : Loop h)
      → Inv level (tid ∷ l.running) l.graph
      → Held h l
      → ((dispatch_task h fork tid l ≡ none) × (l.users ≡ 0))
        ⊎ ((l' : Loop h) × (dispatch_task h fork tid l ≡ some l')
            × After l l'
            × (Kept h l → Calm h (is_started fork) l → Kept h l'))
  dispatch_task-Inv fork tid l v held =
      let (t, same, f, z) =
        free_entry level (tid ∷ l.running) l.graph tid v (head_counts tid l.running) in
      let l1 : Loop h = record l { state = (setup t l.state).1 } in
      elim (Bool-cases (setup t l.state).0) [
        | inl e ↦ elim (start_task-cases fork tid l1) [
          | inl (d, u) ↦ inl (dispatch_runs fork tid l t f e ∙ d, u)
          | inr (d, u) ↦
              let (held', kept) = begun-Held h (is_started fork) tid l1 u held in
              inr (
                begun h (is_started fork) tid l1,
                dispatch_runs fork tid l t f e ∙ d,
                (
                  (v, held'),
                  omega (arith, running-le level (tid ∷ l.running) l.graph v),
                  omega arith,
                  λ x. omega arith,
                ),
                kept,
              )
        ]
        | inr e ↦
            let (l', d, w, n, r, fewer, kept) =
              finalize_task-Inv tid none (tid ∷ l.running) l1 v (head_counts tid l.running)
                (λ x. cons_counts tid x l.running) held in
            inr (
              l',
              dispatch_skips fork tid l t f e ∙ d,
              (
                w,
                omega (arith, n, ap length r, running-le level (tid ∷ l.running) l.graph v),
                omega (arith, ap length r),
                fewer,
              ),
              λ k c. kept k,
            )
      ]

  pop_cons :
      (fork : Fork) (x : ℕ) (xs : List ℕ) (l : Loop h)
      → l.graph.task_queue ≡ x ∷ xs
      → pop h fork l
        ≡ dispatch_task h fork (top l.graph.task_list x xs) (record l {
          graph = record l.graph { task_queue = drop_one (top l.graph.task_list x xs) (x ∷ xs) };
        })
  unfolding pop
  pop_cons fork x xs l e = rw (e, pop)

  pub pop-Inv :
      (fork : Fork) (queue : List ℕ) (l : Loop h)
      → l.graph.task_queue ≡ queue
      → 0 < length queue
      → LoopInv l
      → ((pop h fork l ≡ none) × (l.users ≡ 0))
        ⊎ ((l' : Loop h) × (pop h fork l ≡ some l')
            × After l l'
            × (Kept h l → Calm h (is_started fork) l → Kept h l'))
  pop-Inv fork [] l e i v = absurd (omega arith)
  pop-Inv fork (x ∷ xs) l e i (v, held) =
      let tid = top l.graph.task_list x xs in
      let l1 : Loop h = record l {
        graph = record l.graph { task_queue = drop_one tid (x ∷ xs) };
      } in
      elim (dispatch_task-Inv fork tid l1 (popped tid x xs l v e (top-mem l.graph.task_list x xs))
        held) [
          | inl (d, u) ↦ inl (pop_cons fork x xs l e ∙ d, u)
          | inr (l', d, a, kept) ↦ inr (l', pop_cons fork x xs l e ∙ d, a, kept)
        ]
