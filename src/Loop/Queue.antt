-- ===== src/Loop/Queue.antt =====
-- The priority queue: which id is at the top, and what is left without it.
use tioj_judge.Base.{
  ℕ, ◌+◌, ◌≤◌, ◌<◌, ◌≡◌, Bool, true, false, List, [], ◌∷◌, arith, ◌==◌, if◌then◌else◌, length,
}
use tioj_judge.Graph.{TaskEntry, erase}
use tioj_judge.Graph.Count.{one_if, count, id_count, id_count-erase}
use tioj_judge.Graph.Inv.{length-erase}
use tioj_judge.Loop.{id_lt, top, drop_one}

pub head_counts : (x : ℕ) (xs : List ℕ) → 0 < count x (x ∷ xs)
unfolding count
head_counts x xs = ground arith

pub tail_counts : (x y : ℕ) (xs : List ℕ) → 0 < count x xs → 0 < count x (y ∷ xs)
unfolding count
tail_counts x y xs h = omega arith

pub count-pick :
    (y best x : ℕ) (b : Bool) (xs : List ℕ)
    → count y ((if b then x else best) ∷ xs) ≤ count y (best ∷ x ∷ xs)
unfolding count
count-pick y best x true xs = omega arith
count-pick y best x false xs = omega arith

pub top-mem :
    (ts : List TaskEntry) (best : ℕ) (xs : List ℕ) → 0 < count (top ts best xs) (best ∷ xs)
unfolding top
top-mem ts best [] = unfold count in ground arith
top-mem ts best (x ∷ xs) =
    let next = if id_lt ts best x then x else best in
    let found = top-mem ts next xs in
    omega (arith, count-pick (top ts next xs) best x (id_lt ts best x) xs)

pub count-drop_one :
    (x y : ℕ) (xs : List ℕ)
    → 0 < count x xs
    → one_if (x == y) + count y (drop_one x xs) ≡ count y xs
unfolding drop_one count
count-drop_one x y [] h = absurd (omega arith)
count-drop_one x y (z ∷ xs) h = ground (arith, count-drop_one x y xs)

pub length-drop_one :
    (x : ℕ) (xs : List ℕ) → 0 < count x xs → length (drop_one x xs) + 1 ≡ length xs
unfolding drop_one count
length-drop_one x [] h = absurd (omega arith)
length-drop_one x (z ∷ xs) h = ground (arith, length-drop_one x xs)

pub length-le-ids :
    (xs : List ℕ) (ts : List TaskEntry)
    → ((x : ℕ) → count x xs ≤ id_count x ts)
    → length xs ≤ length ts
unfolding count
length-le-ids [] ts h = omega arith
length-le-ids (y ∷ ys) ts h =
    let here : 0 < id_count y ts = ground (arith, h y) in
    let rest =
      length-le-ids ys (erase y ts) (λ x. omega (arith, h x, id_count-erase y x ts here)) in
    omega (arith, rest, length-erase y ts here)
