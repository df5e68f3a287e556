-- ===== src/Handler/Execute/Results.antt =====
-- What `FinalizeExecute` (src/tioj/submission.cpp) changes in the results, over one stage and over all.
use tioj_judge.Base.{
  ℕ, zero, suc, ◌+◌, ◌-◌, ◌<◌, ◌≤◌, ◌≡◌, ◌≢◌, refl, ap, ◌∙◌, List, [], ◌∷◌, ◌++◌, some, arith,
  length, get_elem?, set, replicate, length-set, get_elem?-set_self, length-append,
  length-replicate,
}
use tioj_judge.Base.Int.{ℤ, pos, ◌+ℤ◌, int_laws}
use tioj_judge.Submission.{Submission, TestdataItem, CjailResult, TestdataResult}
use tioj_judge.Handler.{max_ℤ}
use tioj_judge.Handler.Execute.{
  add_usage, execute_result, extend, finalized, finalize_execute, new_result,
}

-- The result of a testdata, new if the vector does not have it yet.
abbrev pub result_at : List TestdataResult → ℕ → TestdataResult
result_at [] i = new_result
result_at (r ∷ rs) zero = r
result_at (r ∷ rs) (suc i) = result_at rs i

result_at-new : (n i : ℕ) → result_at (replicate n new_result) i ≡ new_result
result_at-new zero i = refl
result_at-new (suc n) zero = refl
result_at-new (suc n) (suc i) = result_at-new n i

result_at-append :
    (n i : ℕ) (rs : List TestdataResult)
    → result_at (rs ++ replicate n new_result) i ≡ result_at rs i
result_at-append n i [] = result_at-new n i
result_at-append n zero (r ∷ rs) = refl
result_at-append n (suc i) (r ∷ rs) = result_at-append n i rs

result_at-set :
    (i j : ℕ) (v : TestdataResult) (rs : List TestdataResult)
    → i ≢ j
    → result_at (set rs j v) i ≡ result_at rs i
result_at-set i j v [] h = refl
result_at-set zero zero v (r ∷ rs) h = absurd (h refl)
result_at-set zero (suc j) v (r ∷ rs) h = refl
result_at-set (suc i) zero v (r ∷ rs) h = refl
result_at-set (suc i) (suc j) v (r ∷ rs) h = result_at-set i j v rs (λ e. h (ap suc e))

get_elem?-result_at :
    (j : ℕ) (rs : List TestdataResult) → j < length rs → get_elem? rs j ≡ some (result_at rs j)
get_elem?-result_at j [] h = absurd (omega arith)
get_elem?-result_at zero (r ∷ rs) h = refl
get_elem?-result_at (suc j) (r ∷ rs) h = get_elem?-result_at j rs (omega arith)

finalize_found :
    (sub : Submission) (subtask stage : ℕ) (r : CjailResult) (rs : List TestdataResult)
    (lim : TestdataItem)
    → get_elem? sub.testdata subtask ≡ some lim
    → finalize_execute sub subtask stage r rs
      ≡ finalized sub subtask stage r
          (extend subtask rs)
          (some lim)
          (get_elem? (extend subtask rs) subtask)
unfolding finalize_execute
finalize_found sub subtask stage r rs lim h = rw h

-- For a testdata of the submission, `FinalizeExecute` succeeds, and makes the vector long enough. The
-- result of the testdata is the one computed from its old result, or from a new one, and no other
-- result changes.
pub finalize_execute_lem :
    (sub : Submission) (subtask stage : ℕ) (r : CjailResult) (rs : List TestdataResult)
    (lim : TestdataItem)
    → get_elem? sub.testdata subtask ≡ some lim
    → (rs' : List TestdataResult) × (finalize_execute sub subtask stage r rs ≡ some rs')
      × (subtask < length rs')
      × (length rs ≤ length rs')
      × (get_elem? rs' subtask
          ≡ some (execute_result sub.sandbox_strict lim stage r (result_at rs subtask)))
      × ((i : ℕ) → i ≢ subtask → result_at rs' i ≡ result_at rs i)
unfolding extend
finalize_execute_lem sub subtask stage r rs lim h =
    let n = subtask + 1 - length rs in
    let longer = rs ++ replicate n new_result in
    let size = length-append rs (replicate n new_result) in
    let inside : subtask < length longer = omega (arith, size, length-replicate n new_result) in
    let same = result_at-append n subtask rs in
    let v = execute_result sub.sandbox_strict lim stage r (result_at longer subtask) in
    (
      set longer subtask v,
      finalize_found sub subtask stage r rs lim h
          ∙ ap (finalized sub subtask stage r longer (some lim))
              (get_elem?-result_at subtask longer inside),
      omega (arith, length-set longer subtask v),
      omega (arith, length-set longer subtask v, size),
      get_elem?-set_self longer subtask v inside
          ∙ ap (λ t. some (execute_result sub.sandbox_strict lim stage r t)) same,
      λ i d. result_at-set i subtask v longer d ∙ result_at-append n i rs,
    )

-- All the stages of one testdata, from stage `n` on.
unfoldable pub add_stages : ℕ → List CjailResult → TestdataResult → TestdataResult
unfolding add_usage
add_stages n [] td = td
add_stages n (r ∷ rs) td = add_stages (suc n) rs (add_usage n r td)

abbrev pub total_time : List CjailResult → ℤ
total_time [] = pos 0
total_time (r ∷ rs) = (r.user_us +ℤ r.sys_us) +ℤ total_time rs

abbrev pub largest : ℤ → (CjailResult → ℤ) → List CjailResult → ℤ
largest m f [] = m
largest m f (r ∷ rs) = largest (max_ℤ m (f r)) f rs

add_stages-from :
    (n : ℕ) (rs : List CjailResult) (td : TestdataResult)
    → ((add_stages (suc n) rs td).time ≡ td.time +ℤ total_time rs)
      × ((add_stages (suc n) rs td).vss ≡ largest td.vss (λ r. r.hiwater_vm) rs)
      × ((add_stages (suc n) rs td).rss ≡ largest td.rss (λ r. r.maxrss) rs)
unfolding add_stages add_usage
add_stages-from n [] td = (grind int_laws, refl, refl)
add_stages-from n (r ∷ rs) td =
    let (t, v, m) = add_stages-from (suc n) rs (add_usage (suc n) r td) in
    (t ∙ grind int_laws, v, m)

-- The stages of a testdata, with nothing else changing its result in between, use the sum of their
-- times and the largest of their sizes of
-- memory together, whatever the result held before.
pub add_stages_lem :
    (r : CjailResult) (rs : List CjailResult) (td : TestdataResult)
    → ((add_stages 0 (r ∷ rs) td).time ≡ total_time (r ∷ rs))
      × ((add_stages 0 (r ∷ rs) td).vss ≡ largest r.hiwater_vm (λ s. s.hiwater_vm) rs)
      × ((add_stages 0 (r ∷ rs) td).rss ≡ largest r.maxrss (λ s. s.maxrss) rs)
unfolding add_stages add_usage
add_stages_lem r rs td = add_stages-from 0 rs (add_usage 0 r td)
