-- ===== src/Pool/Tests.antt =====
-- Two processors, and a task that starts.
use tioj_judge.Base.{ℕ, ◌≤◌, ◌<◌, ◌≡◌, refl, [], ◌∷◌, Option, some, arith}
use tioj_judge.Sandbox.{uid_pool_size}
use tioj_judge.Graph.Count.{count}
use tioj_judge.Order.{up_from}
use tioj_judge.Pool.{Fork, started, Pools, init_pools, run_task, put_running}
use tioj_judge.Pool.Accounts.{uids, cpus, Reached, initial, ran, reached-users}

abbrev first_task : Pools ℕ
first_task = record {
  uid_pool = up_from 50001 99;
  cpuid_pool = 2 ∷ [];
  running = record { fd = 5; pid = 900; uid = 50000; cpuid = some 3 } ∷ [];
  finished = [];
}

first_task-Reached : Reached ℕ (3 ∷ 2 ∷ []) first_task
unfolding run_task init_pools up_from put_running
first_task-Reached =
    ran (started 5 900) (init_pools ℕ (3 ∷ 2 ∷ [])) first_task (some 5) initial (omega arith) refl

reached-users_example :
    ((x : ℕ) → uids ℕ x first_task ≤ 1)
    × ((x : ℕ) → cpus ℕ x first_task ≡ count x (3 ∷ 2 ∷ []))
    × (1 < uid_pool_size
        → (f : Fork) → (h : Option ℕ) × (q : Pools ℕ) × (run_task ℕ f first_task ≡ some (h, q)))
reached-users_example = reached-users ℕ (3 ∷ 2 ∷ []) first_task first_task-Reached
