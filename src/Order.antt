-- ===== src/Order.antt =====
-- `td_order` of `PushSubmission` (src/tioj/submission.cpp): the order in which the testdata of a
-- submission are tried when a failed group is skipped.
use tioj_judge.Base.{
  ℕ, zero, suc, Bool, true, false, ◌&&◌, List, [], ◌∷◌, ◌++◌, ltb, ◌==◌, if◌then◌else◌, length,
  get_or, set,
}
use tioj_judge.Submission.{Submission, TestdataItem}

-- std::stable_sort
unfoldable pub insert_sorted : (ℕ → ℕ → Bool) → ℕ → List ℕ → List ℕ
insert_sorted less x [] = x ∷ []
insert_sorted less x (y ∷ ys) = if less x y then x ∷ y ∷ ys else y ∷ insert_sorted less x ys

unfoldable pub stable_sort : (ℕ → ℕ → Bool) → List ℕ → List ℕ → List ℕ
unfolding insert_sorted
stable_sort less sorted [] = sorted
stable_sort less sorted (x ∷ xs) = stable_sort less (insert_sorted less x sorted) xs

-- 0, 1, …, n - 1 from `lo` on
unfoldable pub up_from : ℕ → ℕ → List ℕ
up_from lo zero = []
up_from lo (suc n) = lo ∷ up_from (suc lo) n

unfoldable pub groups_of : List TestdataItem → ℕ → List ℕ
groups_of [] i = []
groups_of (t ∷ ts) zero = t.td_groups
groups_of (t ∷ ts) (suc i) = groups_of ts i

-- `layer.count(group)`
unfoldable pub has_group : ℕ → List ℕ → Bool
has_group x [] = false
has_group x (y ∷ ys) = if y == x then true else has_group x ys

-- `std::all_of` over the groups of a testdata
unfoldable pub covers : List ℕ → List ℕ → Bool
unfolding has_group
covers layer [] = true
covers layer (g ∷ gs) = has_group g layer && covers layer gs

-- One round of the loop over `scan_order`: the first layer that does not cover the groups takes them.
-- The result is its position. `std::lower_bound` finds it by bisection, since the layers that cover
-- a testdata stand first.
unfoldable pub place : List ℕ → List (List ℕ) → ℕ × List (List ℕ)
unfolding covers
place gs [] = (0, (gs ++ []) ∷ [])
place gs (layer ∷ layers) =
    let (pos, rest) = place gs layers in
    if covers layer gs then (suc pos, layer ∷ rest) else (0, (gs ++ layer) ∷ layers)

-- The loop, with `td_layer`.
unfoldable pub assign_layers : (ℕ → List ℕ) → List ℕ → List (List ℕ) → List ℕ → List ℕ
unfolding place
assign_layers groups [] layers td_layer = td_layer
assign_layers groups (td ∷ tds) layers td_layer =
    let (pos, layers') = place (groups td) layers in
    assign_layers groups tds layers' (set td_layer td pos)

-- `for (i) td_order[inv_order[i]] = i;`
unfoldable pub invert : ℕ → List ℕ → List ℕ → List ℕ
invert i [] td_order = td_order
invert i (td ∷ tds) td_order = invert (suc i) tds (set td_order td i)

unfoldable pub zeroes : ℕ → List ℕ
zeroes zero = []
zeroes (suc n) = 0 ∷ zeroes n

unfoldable pub td_layers : List TestdataItem → List ℕ
unfolding stable_sort up_from groups_of assign_layers zeroes
td_layers tds =
    let n = length tds in
    let more_groups = λ (a b : ℕ). ltb (length (groups_of tds b)) (length (groups_of tds a)) in
    assign_layers (groups_of tds) (stable_sort more_groups [] (up_from 0 n)) [] (zeroes n)

unfoldable pub td_order : Submission → List ℕ
unfolding td_layers stable_sort up_from invert zeroes
td_order sub =
    let n = length sub.testdata in
    let layer = td_layers sub.testdata in
    if sub.skip_group
    then invert 0 (stable_sort (λ a b. ltb (get_or layer a 0) (get_or layer b 0)) [] (up_from 0 n))
        (zeroes n)
    else up_from 0 n
