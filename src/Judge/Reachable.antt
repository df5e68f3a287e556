-- ===== src/Judge/Reachable.antt =====
-- What holds of the judge in every state that it can come to.
use tioj_judge.Base.{
  ℕ, ◌≤◌, ◌<◌, ◌≡◌, ◌≢◌, refl, [], Option, some, length, arith, subst, none, sym, ◌∙◌, ◌+◌, ◌==◌,
  Bool-cases, inl, inr,
}
use tioj_judge.Graph.Count.{count, id_count, edge_count, zeros}
use tioj_judge.Graph.Inv.{Inv, not_stuck}
use tioj_judge.Submission.{Submission}
use tioj_judge.Push.{Build}
use tioj_judge.Push.Submit.{push_graph, push_graph-Inv, Drawn}
use tioj_judge.Sandbox.{uid_pool_size}
use tioj_judge.Pool.{Fork}
use tioj_judge.Loop.{Handlers, Loop, Event, is_started, of_failed, pop, wait}
use tioj_judge.Loop.Handles.{Held, Kept, Calm}
use tioj_judge.Loop.Steps.{pop-Inv}
use tioj_judge.Loop.Waits.{wait-Inv, wait_nothing}
use tioj_judge.Judge.{InRange, Judge, Step, pushed, popped, waited, initial, Reach, start, step}

module _ (h : Handlers) (par : ℕ) where
  -- The invariant of the judge: of the graph, of the ids that were drawn, and of the running tasks.
  abbrev pub Sound : Judge h par → Type 0
  Sound j =
      (level : ℕ → ℕ) × Inv level j.loop.running j.loop.graph
      × Drawn j.task_count j.loop.graph
      × (length j.loop.running ≤ par)
      × Held h j.loop

  no_entry : (x : ℕ) → id_count x [] ≡ 0
  unfolding id_count
  no_entry x = refl

  initial-Sound : (s : h.State) → Sound (initial h par s)
  unfolding id_count edge_count count zeros
  initial-Sound s = (
    λ x. 0,
    record {
      distinct = λ x. omega arith;
      degree = tt;
      rising = tt;
      targets = λ x i. absurd (omega arith);
      ready = λ x. refl;
    },
    λ x i. absurd (omega arith),
    omega arith,
    (λ x. omega arith, omega arith, refl, omega arith),
  )

  -- What follows from a result and from the result that is known.
  same_result : {A : Type 0} (o : Option A) (a b : A) → o ≡ some a → o ≡ some b → a ≡ b
  same_result o a b p q = cc

  Step-Sound : (j k : Judge h par) → Step h par j k → Sound j → Sound k
  Step-Sound j k (pushed sub i b r e) (level, v, d, c, held) =
      let (b', level', e', empty, v', d') =
        push_graph-Inv sub level i.loop.running i.task_count i.loop.graph r v d in
      let same : b' ≡ b = cc in
      (
        level',
        subst (λ z. Inv level' i.loop.running z.graph) same v',
        subst (λ z. Drawn z.task_count z.graph) same d',
        c,
        held,
      )
  Step-Sound j k (popped fork i l c q e) (level, v, d, p, held) =
      elim (pop-Inv h level fork i.loop.graph.task_queue i.loop refl q (v, held)) [
        | inl (e', u) ↦ absurd (let clash : none ≡ some l = sym e' ∙ e in cc)
        | inr (l', e', ((w, held'), m, r, fewer), kept) ↦
            let same : l' ≡ l = cc in
            subst (λ z. Sound (record i { loop = z })) same
              (level, w, λ x i'. d x (omega (arith, fewer x)), omega arith, held')
      ]
  Step-Sound j k (waited event i l c e) (level, v, d, p, held) =
      elim (Bool-cases (length (of_failed i.loop.failed) + length i.loop.handles == 0)) [
        | inl b ↦
            let e' = wait_nothing h level event i.loop (ground (arith, b)) in
            absurd (let clash : none ≡ some l = sym e' ∙ e in cc)
        | inr b ↦
            let (l', e', ((w, held'), m, r, fewer), q, kept) =
              wait-Inv h level event i.loop (ground (arith, b)) (v, held) in
            let same : l' ≡ l = cc in
            subst (λ z. Sound (record i { loop = z })) same
              (level, w, λ x i'. d x (omega (arith, fewer x)), omega arith, held')
      ]

  -- In every state that the judge can come to, by pushes, pops and waits in any order, and with any
  -- answers to RunTask, degrees count edges, the edges lead upwards in some order, the tasks that wait
  -- for none are, each once, those queued or running, ids are never drawn twice, no more than
  -- kMaxParallel tasks run, those in handle_map are running, and the users in the pool and those of
  -- tasks without a result are kUidPoolSize.
  pub reachable-Sound : (s : h.State) (j : Judge h par) → Reach h par s j → Sound j
  reachable-Sound s j start = initial-Sound s
  reachable-Sound s j (step i k r t) = Step-Sound i k t (reachable-Sound s i r)

  pub reachable-push :
      (s : h.State) (j : Judge h par)
      → Reach h par s j
      → (sub : Submission) → InRange sub
      → (b : Build) × (push_graph sub j.task_count j.loop.graph ≡ some b) × (b.local ≡ [])
  reachable-push s j r sub i =
      let (level, v, d, c, held) = reachable-Sound s j r in
      let (b, level', e, empty, w, d') =
        push_graph-Inv sub level j.loop.running j.task_count j.loop.graph i v d in
      (b, e, empty)

  -- Wherever the judge has come to, with a kMaxParallel of at most kUidPoolSize, these succeed: a push of
  -- a further submission whose problem program stands for one of the stages, which leaves no entry out;
  -- a pop of a queue that is not empty while fewer than kMaxParallel tasks run, whatever RunTask answers;
  -- and a wait while handle_map is not empty. If handle_map has every running task, so it does after the
  -- wait, and after the pop if RunTask gives no -1 while a task is at -1 in handle_map.
  pub reachable-steps :
      (s : h.State) (j : Judge h par)
      → Reach h par s j
      → par ≤ uid_pool_size
      → ((sub : Submission)
          → InRange sub
          → (b : Build) × (push_graph sub j.task_count j.loop.graph ≡ some b) × (b.local ≡ []))
        × ((fork : Fork)
            → length j.loop.running < par
            → 0 < length j.loop.graph.task_queue
            → (l : Loop h) × (pop h fork j.loop ≡ some l)
              × (Kept h j.loop → Calm h (is_started fork) j.loop → Kept h l))
        × ((event : Event h)
            → 0 < length (of_failed j.loop.failed) + length j.loop.handles
            → (l : Loop h) × (wait h event j.loop ≡ some l) × (Kept h j.loop → Kept h l))
  reachable-steps s j r few =
      let (level, v, d, c, held) = reachable-Sound s j r in
      (
        reachable-push s j r,
        λ fork i q. elim (pop-Inv h level fork j.loop.graph.task_queue j.loop refl q (v, held)) [
          | inl (e, u) ↦ let (c', n, p, t) = held in absurd (omega (arith, i, u, n, p, few))
          | inr (l, e, a, kept) ↦ (l, e, kept)
        ],
        λ event i.
            let (l, e, a, q, kept) = wait-Inv h level event j.loop i (v, held) in (l, e, kept),
      )

  -- Wherever the judge has come to, as long as a task is left, one is queued or running.
  pub reachable-not_stuck :
      (s : h.State) (j : Judge h par)
      → Reach h par s j
      → j.loop.graph.task_list ≢ []
      → (x : ℕ) × (0 < count x j.loop.graph.task_queue + count x j.loop.running)
  reachable-not_stuck s j r n =
      let (level, v, d, c, held) = reachable-Sound s j r in
      not_stuck level j.loop.running j.loop.graph v n
