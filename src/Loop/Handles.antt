-- ===== src/Loop/Handles.antt =====
-- The running tasks of `WorkLoop`, `handle_map` and the pool of users (src/tioj/submission.cpp and
-- src/tioj/tasks.cpp).
use native.Mathlib.Nat.{mod-lt}
use tioj_judge.Base.{
  ℕ, ◌+◌, ◌%◌, ◌≤◌, ◌<◌, ◌≡◌, refl, Bool, true, false, [], ◌∷◌, none, some, arith, ◌==◌, length, ap,
  Bool-cases, inl, inr,
}
use tioj_judge.Sandbox.{uid_pool_size}
use tioj_judge.Graph.Count.{count}
use tioj_judge.Loop.Queue.{count-drop_one, length-drop_one}
use tioj_judge.Loop.{Handlers, Loop, of_failed, drop_one, begun, more_results, taken}

module _ (h : Handlers) where
  -- The tasks of `handle_map` are running, each as often as it is in the map, the users are those of
  -- the pool and those of tasks without a result, and the results are of tasks in the map.
  abbrev pub Held : Loop h → Type 0
  Held l =
      ((x : ℕ) → count x (of_failed l.failed) + count x l.handles ≤ count x l.running)
      × (length (of_failed l.failed) + length l.handles ≤ length l.running)
      × (l.users + length l.handles ≡ uid_pool_size + l.results)
      × (l.results ≤ length l.handles)

  -- Every running task is in `handle_map`.
  abbrev pub Kept : Loop h → Type 0
  Kept l = length (of_failed l.failed) + length l.handles ≡ length l.running

  -- `RunTask` gives a handle if a task is at the key -1.
  abbrev pub Calm : Bool → Loop h → Type 0
  Calm runs l = 0 < length (of_failed l.failed) → runs ≡ true

  pub begun-Held :
      (runs : Bool) (tid : ℕ) (l : Loop h)
      → (runs ≡ true → 0 < l.users)
      → Held l
      → Held (begun h runs tid l) × (Kept l → Calm runs l → Kept (begun h runs tid l))
  unfolding count
  begun-Held true tid l u (c, n, p, r) = (
    (
      λ x. let here = c x in omega (arith, here),
      omega (arith, n),
      (let some_user = u refl in omega (arith, p, some_user)),
      omega (arith, r),
    ),
    λ k m. omega (arith, k),
  )
  begun-Held false tid l u (c, n, p, r) = (
    (λ x. let here = c x in omega (arith, here), omega (arith, n), p, r),
    λ k m. ground (arith, k, m),
  )

  -- With a task in the map there is a result, and no more results than tasks.
  more_results-le :
      (ready : ℕ) (l : Loop h)
      → 0 < length l.handles
      → l.results ≤ length l.handles
      → (0 < l.results + more_results h ready l)
        × (l.results + more_results h ready l ≤ length l.handles)
  more_results-le ready l i r = elim (Bool-cases (l.results == 0)) [
    | inl b ↦
        let small : ready % length l.handles < length l.handles = mod-lt ready i in
        rw b (omega arith, ground (arith, small))
    | inr b ↦ rw b (ground arith, omega (arith, r))
  ]

  -- A running task is taken with its result.
  pub taken-Held :
      (ready tid : ℕ) (l : Loop h)
      → 0 < count tid l.handles
      → Held l
      → Held (taken h (more_results h ready l) tid l)
        × (Kept l → Kept (taken h (more_results h ready l) tid l))
  taken-Held ready tid l i (c, n, p, r) =
      let one = length-drop_one tid l.handles i in
      let there : 0 < count tid l.running = (let here = c tid in omega (arith, here, i)) in
      let two = length-drop_one tid l.running there in
      let (some_result, few) = more_results-le ready l (omega (arith, one)) r in
      (
        (
          λ x.
              let here = c x in
              omega (
                arith,
                here,
                count-drop_one tid x l.handles i,
                count-drop_one tid x l.running there,
              ),
          omega (arith, n, one, two),
          omega (arith, p, one, some_result),
          omega (arith, few, one, some_result),
        ),
        λ k. omega (arith, k, one, two),
      )

  -- The task at the key -1 leaves the map.
  pub unheld :
      (tid : ℕ) (l : Loop h)
      → l.failed ≡ some tid
      → Held l
      → (0 < count tid l.running)
        × Held (record l { running = drop_one tid l.running; failed = none })
        × (Kept l → Kept (record l { running = drop_one tid l.running; failed = none }))
  unfolding count
  unheld tid l f (c, n, p, r) =
      let same : of_failed l.failed ≡ tid ∷ [] = ap of_failed f in
      let there : 0 < count tid l.running =
        (let here = c tid in ground (arith, here, ap (count tid) same)) in
      let two = length-drop_one tid l.running there in
      (
        there,
        (
          λ x.
              let here = c x in
              omega (arith, here, ap (count x) same, count-drop_one tid x l.running there),
          omega (arith, n, two, ap length same),
          p,
          r,
        ),
        λ k. omega (arith, k, two, ap length same),
      )
