-- ===== src/Push/Testdata.antt =====
-- The loop over the testdata in `PushSubmission` names only entries that are there.
use tioj_judge.Base.{
  ℕ, zero, suc, ◌-◌, ◌≤◌, ◌<◌, ◌≡◌, refl, Bool, true, false, ◌&&◌, ◌||◌, [], ◌∷◌, ◌++◌, arith, ltb,
  ◌==◌, lt→ltb,
}
use tioj_judge.Graph.{Task, compile, execute, scoring, summary}
use tioj_judge.Push.{create, link}
use tioj_judge.Push.Plan.{for_up, stage_between, stage_plain, testdata_ops}
use tioj_judge.Push.Local.{level}
use tioj_judge.Push.Runs.{Seen, with_task, Runs, Runs-append, Runs-for_up}

-- The tasks of the first `k` testdata, of `n` stages each, those of the first `j` stages of the next
-- one, and the summary. In the plain mode a testdata has one scoring, of the last stage.
abbrev pub td_seen : Bool → ℕ → ℕ → ℕ → Seen
td_seen between n k j (compile c) = false
td_seen between n k j (execute i l) = (ltb i k && ltb l n) || (i == k && ltb l j)
td_seen true n k j (scoring i l) = (ltb i k && ltb l n) || (i == k && ltb l j)
td_seen false n k j (scoring i l) = ltb i k && l == n - 1
td_seen between n k j summary = true

between_next :
    (n k j : ℕ)
    → j < n
    → (u : Task)
    → with_task (scoring k j) (with_task (execute k j) (td_seen true n k j)) u
      ≡ td_seen true n k (suc j) u
between_next n k j h (compile c) = refl
between_next n k j h (execute i l) = ground arith
between_next n k j h (scoring i l) = ground arith
between_next n k j h summary = refl

plain_next :
    (n k j : ℕ)
    → j < n
    → (u : Task) → with_task (execute k j) (td_seen false n k j) u ≡ td_seen false n k (suc j) u
plain_next n k j h (compile c) = refl
plain_next n k j h (execute i l) = ground arith
plain_next n k j h (scoring i l) = refl
plain_next n k j h summary = refl

stage_between-Runs :
    (order n k j : ℕ)
    → j < n
    → Runs (td_seen true n k j) (stage_between order k j) (td_seen true n k (suc j))
unfolding stage_between level
stage_between-Runs order n k zero h = (
  ground arith,
  (ground arith, (ground arith, ground arith, omega arith, between_next n k zero h)),
)
stage_between-Runs order n k (suc j) h = (
  ground arith,
  (
    ground arith,
    (
      ground arith,
      ground arith,
      omega arith,
      rw (lt→ltb 0 (suc j) (omega arith))
          (ground arith, ground arith, omega arith, between_next n k (suc j) h),
    ),
  ),
)

stage_plain-Runs :
    (order n k j : ℕ)
    → j < n
    → Runs (td_seen false n k j) (stage_plain order k j) (td_seen false n k (suc j))
unfolding stage_plain level
stage_plain-Runs order n k zero h = (ground arith, plain_next n k zero h)
stage_plain-Runs order n k (suc j) h = (
  ground arith,
  rw (lt→ltb 0 (suc j) (omega arith))
      (ground arith, ground arith, omega arith, plain_next n k (suc j) h),
)

between_done : (n k : ℕ) (u : Task) → td_seen true n k n u ≡ td_seen true n (suc k) 0 u
between_done n k (compile c) = refl
between_done n k (execute i l) = ground arith
between_done n k (scoring i l) = ground arith
between_done n k summary = refl

plain_done :
    (n k : ℕ)
    → 0 < n
    → (u : Task)
    → with_task (scoring k (n - 1)) (td_seen false n k n) u ≡ td_seen false n (suc k) 0 u
plain_done n k h (compile c) = refl
plain_done n k h (execute i l) = ground arith
plain_done n k h (scoring i l) = ground arith
plain_done n k h summary = refl

-- One round of the loop, for 1 to 32 stages.
pub testdata_ops-Runs :
    (between : Bool) (n : ℕ) (order : ℕ → ℕ) (k : ℕ)
    → 0 < n
    → n ≤ 32
    → Runs (td_seen between n k 0) (testdata_ops between n order k) (td_seen between n (suc k) 0)
unfolding testdata_ops level
testdata_ops-Runs true n order k h b =
    Runs-append (td_seen true n k 0) (td_seen true n k n) (td_seen true n (suc k) 0)
      (for_up n 0 (stage_between (order k) k)) (link (scoring k (n - 1)) summary ∷ [])
      (Runs-for_up (td_seen true n k) (stage_between (order k) k) n 0 n (omega arith)
        (λ j. stage_between-Runs (order k) n k j))
      (ground arith, refl, omega arith, between_done n k)
testdata_ops-Runs false n order k h b =
    Runs-append (td_seen false n k 0) (td_seen false n (suc k) 0) (td_seen false n (suc k) 0)
      (for_up n 0 (stage_plain (order k) k)
        ++ (create (scoring k (n - 1)) (order k)
            ∷ link (execute k (n - 1)) (scoring k (n - 1))
            ∷ []))
      (link (scoring k (n - 1)) summary ∷ [])
      (Runs-append (td_seen false n k 0) (td_seen false n k n) (td_seen false n (suc k) 0)
        (for_up n 0 (stage_plain (order k) k))
        (create (scoring k (n - 1)) (order k) ∷ link (execute k (n - 1)) (scoring k (n - 1)) ∷ [])
        (Runs-for_up (td_seen false n k) (stage_plain (order k) k) n 0 n (omega arith)
          (λ j. stage_plain-Runs (order k) n k j))
        (ground arith, (ground arith, ground arith, omega arith, plain_done n k h)))
      (ground arith, refl, omega arith, λ u. refl)
