-- ===== src/Loop/Progress.antt =====
-- `WorkLoop` ends, and every task has been finalized when it does.
use tioj_judge.Base.{
  ℕ, zero, suc, ◌*◌, ◌≤◌, ◌<◌, ◌≡◌, true, false, ◌&&◌, List, [], ◌∷◌, some, arith, ltb, length,
  Bool-cases, inl, inr, refl, ap,
}
use tioj_judge.Graph.{TaskEntry}
use tioj_judge.Graph.Count.{count}
use tioj_judge.Graph.Inv.{not_stuck}
use tioj_judge.Sandbox.{uid_pool_size}
use tioj_judge.Loop.Handles.{Kept, Calm}
use tioj_judge.Loop.{Handlers, Loop, Event, is_started, round, is_idle, work, Done}
use tioj_judge.Loop.Steps.{LoopInv, measure, pop-Inv, empty_of_length}
use tioj_judge.Loop.Waits.{wait-Inv}

module _ (h : Handlers) (level : ℕ → ℕ) where
  -- A round of the loop that is not done makes progress, whatever the kernel does, if every running
  -- task is in `handle_map`, there are as many users as tasks may run, and `RunTask` fails for one task
  -- at a time.
  round-Inv :
      (par : ℕ) (event : Event h) (l : Loop h)
      → 0 < par
      → par ≤ uid_pool_size
      → is_idle h l ≡ false
      → LoopInv h level l
      → Kept h l
      → Calm h (is_started event.fork) l
      → (l' : Loop h) × (round h par event l ≡ some l')
        × LoopInv h level l'
        × (measure h level l' < measure h level l)
        × Kept h l'
  unfolding round
  round-Inv par event l i few busy v k c =
      elim (Bool-cases (ltb (length l.running) par && ltb 0 (length l.graph.task_queue))) [
        | inl e ↦ elim (pop-Inv h level event.fork l.graph.task_queue l refl (ground arith) v) [
          | inl (d, u) ↦
              let (g, held) = v in
              let (c', n, p, q) = held in absurd (ground (arith, e, u, p, k, few))
          | inr (l', d, (w, m, r, f), kept) ↦ rw e (l', d, w, m, kept k c)
        ]
        | inr e ↦
            let (l', d, (w, m, r, f), q, kept) = wait-Inv h level event l (ground (arith, k)) v in
            rw e (l', d, w, m, kept k)
      ]

  no_task :
      (ts : List TaskEntry) (l : Loop h)
      → l.graph.task_list ≡ ts
      → LoopInv h level l
      → l.graph.task_queue ≡ []
      → l.running ≡ []
      → ts ≡ []
  unfolding count
  no_task [] l e v q r = refl
  no_task (t ∷ ts) l e (v, held) q r =
      let (x, some_left) = not_stuck level l.running l.graph v (λ z. cc) in
      absurd (omega (arith, some_left, ap (count x) q, ap (count x) r))

  -- Nothing is queued or running only when no task is left.
  idle-Done : (l : Loop h) → LoopInv h level l → is_idle h l ≡ true → Done h l
  idle-Done l v e =
      let q = empty_of_length l.graph.task_queue (ground arith) in
      let r = empty_of_length l.running (ground arith) in
      (no_task l.graph.task_list l refl v q r, q, r)

  ends :
      (par : ℕ) (kernel : ℕ → Loop h → Event h) (fuel n : ℕ) (l : Loop h)
      → 0 < par
      → par ≤ uid_pool_size
      → ((m : ℕ) (k : Loop h) → Calm h (is_started (kernel m k).fork) k)
      → LoopInv h level l
      → Kept h l
      → measure h level l < fuel
      → (l' : Loop h) × (work h par kernel fuel n l ≡ some l') × Done h l'
  unfolding work
  ends par kernel zero n l i few calm v k m = absurd (omega arith)
  ends par kernel (suc fuel) n l i few calm v k m = elim (Bool-cases (is_idle h l)) [
    | inl e ↦ (l, rw e refl, idle-Done l v e)
    | inr e ↦
        let (l1, e1, v1, m1, k1) = round-Inv par (kernel n l) l i few e v k (calm n l) in
        let (l', e2, done) = ends par kernel fuel (suc n) l1 i few calm v1 k1 (omega arith) in
        (l', rw e (rw (e1) e2), done)
  ]

  -- From a state that satisfies the invariant, with every running task in `handle_map`, a parallelism
  -- from 1 to the number of users, and `RunTask` giving -1 for no task while another is at -1 in the map,
  -- the loop ends within twice as many rounds as there are tasks, without a fault and with every task
  -- finalized, whatever the handlers answer, and in whichever order and with whatever results the
  -- running tasks end.
  pub work-ends :
      (par : ℕ) (kernel : ℕ → Loop h → Event h) (fuel n : ℕ) (l : Loop h)
      → 0 < par
      → par ≤ uid_pool_size
      → ((m : ℕ) (k : Loop h) → Calm h (is_started (kernel m k).fork) k)
      → LoopInv h level l
      → Kept h l
      → 2 * length l.graph.task_list < fuel
      → (l' : Loop h) × (work h par kernel fuel n l ≡ some l') × Done h l'
  work-ends par kernel fuel n l i few calm v k m =
      ends par kernel fuel n l i few calm v k (omega arith)
