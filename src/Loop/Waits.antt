-- ===== src/Loop/Waits.antt =====
-- What a wait of `WorkLoop` (src/tioj/submission.cpp) does to the invariant.
use native.Mathlib.Nat.{mod-lt}
use tioj_judge.Base.{
  ℕ, ◌+◌, ◌%◌, ◌<◌, ◌≡◌, ◌∙◌, List, [], ◌∷◌, Option, none, some, arith, ltb, length, get_elem?,
  Bool-cases, inl, inr, refl, sym, ap,
}
use tioj_judge.Graph.Count.{count}
use tioj_judge.Graph.Inv.{Inv}
use tioj_judge.Loop.Queue.{count-drop_one, length-drop_one}
use tioj_judge.Loop.Handles.{Kept, taken-Held, unheld}
use tioj_judge.Loop.{
  Handlers, Loop, Event, of_failed, more_results, taken, drop_one, finalize_task, wait,
}
use tioj_judge.Loop.Steps.{
  LoopInv, After, Fewer, finalize_task-Inv, running-le, get_elem?-count, empty_of_length,
}

module _ (h : Handlers) (level : ℕ → ℕ) where
  open h use {State, Outcome, no_result, setup, finalize}

  wait_found :
      (event : Event h) (l : Loop h) (tid : ℕ)
      → get_elem? l.handles (event.choice % length l.handles) ≡ some tid
      → wait h event l
        ≡ finalize_task h tid (some event.outcome) (taken h (more_results h event.ready l) tid l)
  unfolding wait
  wait_found event l tid e = rw (e, wait)

  wait_minus_one :
      (event : Event h) (l : Loop h) (tid : ℕ)
      → get_elem? l.handles (event.choice % length l.handles) ≡ none
      → l.failed ≡ some tid
      → wait h event l
        ≡ finalize_task h tid
            (some no_result)
            (record l { running = drop_one tid l.running; failed = none })
  unfolding wait
  wait_minus_one event l tid e f = rw (e, wait) (rw f refl)

  failed_some : (o : Option ℕ) → 0 < length (of_failed o) → (tid : ℕ) × (o ≡ some tid)
  failed_some none i = absurd (omega arith)
  failed_some (some tid) i = (tid, refl)

  none_failed : (o : Option ℕ) → length (of_failed o) ≡ 0 → o ≡ none
  none_failed none i = refl
  none_failed (some tid) i = absurd (omega (arith, i))

  no_elem : (choice : ℕ) (xs : List ℕ) → xs ≡ [] → get_elem? xs (choice % length xs) ≡ none
  no_elem choice [] e = refl
  no_elem choice (x ∷ xs) e = absurd (let n = ap length e in omega (arith, n))

  progress_of_wait :
      (tid : ℕ) (l l' : Loop h)
      → Inv level l.running l.graph
      → 0 < count tid l.running
      → LoopInv h level l'
      → length l'.graph.task_list + 1 ≡ length l.graph.task_list
      → l'.running ≡ drop_one tid l.running
      → Fewer h level l' l
      → After h level l l'
  progress_of_wait tid l l' v there w n r fewer = (
    w,
    omega (
      arith,
      n,
      ap length r,
      length-drop_one tid l.running there,
      running-le level l.running l.graph v,
    ),
    omega (arith, ap length r, length-drop_one tid l.running there),
    fewer,
  )

  -- With none, there is no result to take.
  pub wait_nothing :
      (event : Event h) (l : Loop h)
      → length (of_failed l.failed) + length l.handles ≡ 0
      → wait h event l ≡ none
  unfolding wait
  wait_nothing event l i =
      let e = no_elem event.choice l.handles (empty_of_length l.handles (ground (arith, i))) in
      let f = none_failed l.failed (ground (arith, i)) in rw (e, wait) (rw f refl)

  -- With a task in `handle_map`, one is finalized.
  pub wait-Inv :
      (event : Event h) (l : Loop h)
      → 0 < length (of_failed l.failed) + length l.handles
      → LoopInv h level l
      → (l' : Loop h) × (wait h event l ≡ some l')
        × After h level l l'
        × (length l'.running < length l.running)
        × (Kept h l → Kept h l')
  wait-Inv event l i (v, held) = elim (Bool-cases (ltb 0 (length l.handles))) [
    | inl b ↦
        let (tid, e, m) =
          get_elem?-count (event.choice % length l.handles) l.handles
            (mod-lt event.choice (ground (arith, b))) in
        let there : 0 < count tid l.running = (let c = held.0 tid in omega (arith, c, m)) in
        let (held', kept) = taken-Held h event.ready tid l m held in
        let (l', d, w, n, r, fewer, kept') =
          finalize_task-Inv h level tid (some event.outcome) l.running
            (taken h (more_results h event.ready l) tid l) v there
            (λ x. sym (count-drop_one tid x l.running there)) held' in
        (
          l',
          wait_found event l tid e ∙ d,
          progress_of_wait tid l l' v there w n r fewer,
          omega (arith, ap length r, length-drop_one tid l.running there),
          λ k. kept' (kept k),
        )
    | inr b ↦
        let none_held : l.handles ≡ [] = empty_of_length l.handles (ground (arith, b)) in
        let (tid, f) = failed_some l.failed (ground (arith, b)) in
        let (there, held', kept) = unheld h tid l f held in
        let (l', d, w, n, r, fewer, kept') =
          finalize_task-Inv h level tid (some no_result) l.running
            (record l { running = drop_one tid l.running; failed = none }) v there
            (λ x. sym (count-drop_one tid x l.running there)) held' in
        (
          l',
          wait_minus_one event l tid (no_elem event.choice l.handles none_held) f ∙ d,
          progress_of_wait tid l l' v there w n r fewer,
          omega (arith, ap length r, length-drop_one tid l.running there),
          λ k. kept' (kept k),
        )
  ]
