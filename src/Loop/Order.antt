-- ===== src/Loop/Order.antt =====
-- The order in which `WorkLoop` takes tasks from the priority queue: `TaskEntry::operator<` and
-- `PriorityCompare` of src/tioj/submission.cpp.
use tioj_judge.Base.{
  ℕ, ◌<◌, ◌≤◌, ◌≡◌, ap, ◌⊎◌, refl, true, false, List, [], ◌∷◌, Option, none, some, arith,
  if◌then◌else◌, Bool-cases, inl, inr, ==_iff,
}
use tioj_judge.Base.Int.{◌≤ℤ◌, pos_part, neg_part}
use tioj_judge.Graph.{TaskEntry, entry_lt, find}
use tioj_judge.Graph.Count.{count, id_count, find-some}
use tioj_judge.Loop.Queue.{top-mem, count-pick, head_counts, tail_counts}
use tioj_judge.Loop.{found_lt, id_lt, top}

entry_ge_trans :
    (a b c : TaskEntry) → entry_lt a b ≡ false → entry_lt b c ≡ false → entry_lt a c ≡ false
unfolding entry_lt
entry_ge_trans a b c h k = ground arith

entry_lt_asym : (a b : TaskEntry) → entry_lt a b ≡ true → entry_lt b a ≡ false
unfolding entry_lt
entry_lt_asym a b h = ground arith

entry_lt_irrefl : (a : TaskEntry) → entry_lt a a ≡ false
unfolding entry_lt
entry_lt_irrefl a = ground arith

found_ge_trans :
    (o p q : Option TaskEntry) (t : TaskEntry)
    → p ≡ some t
    → found_lt o p ≡ false
    → found_lt p q ≡ false
    → found_lt o q ≡ false
found_ge_trans none p q t e h k = refl
found_ge_trans (some a) none q t e h k = cc
found_ge_trans (some a) (some b) none t e h k = refl
found_ge_trans (some a) (some b) (some c) t e h k = entry_ge_trans a b c h k

found_lt_asym : (o p : Option TaskEntry) → found_lt o p ≡ true → found_lt p o ≡ false
found_lt_asym none none h = refl
found_lt_asym none (some b) h = refl
found_lt_asym (some a) none h = refl
found_lt_asym (some a) (some b) h = entry_lt_asym a b h

found_lt_irrefl : (o : Option TaskEntry) → found_lt o o ≡ false
found_lt_irrefl none = refl
found_lt_irrefl (some a) = entry_lt_irrefl a

-- The same on the ids of tasks in the map.
module _ (ts : List TaskEntry) where
  id_ge_trans :
      (a b c : ℕ)
      → 0 < id_count b ts
      → id_lt ts a b ≡ false
      → id_lt ts b c ≡ false
      → id_lt ts a c ≡ false
  unfolding id_lt
  id_ge_trans a b c i h k =
      let (t, f) = find-some b ts i in found_ge_trans (find a ts) (find b ts) (find c ts) t f h k

  id_lt_asym : (a b : ℕ) → id_lt ts a b ≡ true → id_lt ts b a ≡ false
  unfolding id_lt
  id_lt_asym a b h = found_lt_asym (find a ts) (find b ts) h

  id_lt_irrefl : (a : ℕ) → id_lt ts a a ≡ false
  unfolding id_lt
  id_lt_irrefl a = found_lt_irrefl (find a ts)

  counted_cases :
      (y best x : ℕ) (xs : List ℕ)
      → 0 < count y (best ∷ x ∷ xs)
      → (y ≡ best) ⊎ (y ≡ x) ⊎ (0 < count y xs)
  unfolding count
  counted_cases y best x xs h = ground (arith, ==_iff best y, ==_iff x y)

  pick_ge :
      (best x y : ℕ)
      → (y ≡ best) ⊎ (y ≡ x)
      → id_lt ts (if id_lt ts best x then x else best) y ≡ false
  pick_ge best x y h = elim (Bool-cases (id_lt ts best x)) [
    | inl e ↦ rw e (ground (arith, id_lt_asym best x e, id_lt_irrefl x))
    | inr e ↦ rw e (ground (arith, e, id_lt_irrefl best))
  ]

  -- No queued task is larger than the one at the top.
  top-max :
      (best : ℕ) (xs : List ℕ)
      → ((y : ℕ) → 0 < count y (best ∷ xs) → 0 < id_count y ts)
      → (y : ℕ) → 0 < count y (best ∷ xs)
      → id_lt ts (top ts best xs) y ≡ false
  unfolding top
  top-max best [] p y m =
      let e : y ≡ best = unfold count in ground (arith, ==_iff best y) in rw e (id_lt_irrefl best)
  top-max best (x ∷ xs) p y m =
      let next = if id_lt ts best x then x else best in
      let there = λ (z : ℕ) (h : 0 < count z (next ∷ xs)).
        p z (omega (arith, count-pick z best x (id_lt ts best x) xs)) in
      let below = λ (h : (y ≡ best) ⊎ (y ≡ x)).
        id_ge_trans (top ts next xs) next y (there next (head_counts next xs))
          (top-max next xs there next (head_counts next xs)) (pick_ge best x y h) in
      elim (counted_cases y best x xs m) [
        | inl e ↦ below (inl e)
        | inr (inl e) ↦ below (inr e)
        | inr (inr h) ↦ top-max next xs there y (tail_counts y next xs h)
      ]

-- A task of higher priority is taken first, then one of an older submission, then one whose testdata
-- comes earlier in the order.
abbrev pub TakenBefore : TaskEntry → TaskEntry → Type 0
TakenBefore u t =
    (t.priority ≤ℤ u.priority)
    × (u.priority ≡ t.priority
        → (u.submission_internal_id ≤ t.submission_internal_id)
          × (u.submission_internal_id ≡ t.submission_internal_id → u.task_order ≤ t.task_order))

entry_lt-TakenBefore : (u t : TaskEntry) → entry_lt u t ≡ false → TakenBefore u t
unfolding entry_lt
entry_lt-TakenBefore u t h = (
  ground arith,
  λ p.
      let q = ap pos_part p in
      let r = ap neg_part p in (ground (arith, h, q, r), λ i. ground (arith, h, q, r, i)),
)

-- When every id in the queue is in the map, the task at the top of the queue is in the map, and every
-- queued task has at most its priority; one of the same priority is not of an older submission, and one
-- of the same submission as well has no smaller task_order.
pub top-TakenBefore :
    (ts : List TaskEntry) (best : ℕ) (xs : List ℕ)
    → ((y : ℕ) → 0 < count y (best ∷ xs) → 0 < id_count y ts)
    → (u : TaskEntry) × (find (top ts best xs) ts ≡ some u)
      × ((y : ℕ) (t : TaskEntry) → 0 < count y (best ∷ xs) → find y ts ≡ some t → TakenBefore u t)
unfolding id_lt
top-TakenBefore ts best xs p =
    let (u, f) = find-some (top ts best xs) ts (p (top ts best xs) (top-mem ts best xs)) in
    (
      u,
      f,
      λ y t m e.
          let small : found_lt (find (top ts best xs) ts) (find y ts) ≡ false =
            top-max ts best xs p y m in
          entry_lt-TakenBefore u t (rw (f, e) at small),
    )
