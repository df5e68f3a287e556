-- ===== src/Pool.antt =====
-- The users and processors that src/tioj/tasks.cpp hands to tasks: `InitPools`, `RunTask`, `Wait` and
-- `WaitAnyResult`. What the child process does is left out, and its result is a parameter.
pub mod Counts
pub mod Accounts
mod Tests
use tioj_judge.Base.{
  ℕ, zero, suc, ◌+◌, ◌<◌, ◌≡◌, Bool, true, false, List, [], ◌∷◌, ◌++◌, Option, none, some, ◌==◌,
  ltb, if◌then◌else◌, length,
}
use tioj_judge.Sandbox.{uid_base, uid_pool_size}
use tioj_judge.Order.{up_from, has_group}

-- A value of `running`, with its key; `cpuid` is none for -1.
pub record Running : Type 0 where
  pub fd : ℕ
  pub pid : ℕ
  pub uid : ℕ
  pub cpuid : Option ℕ

-- What `pipe` and `fork` answer.
pub data Fork : Type 0 where
  pipe_failed fork_failed : Fork
  started : ℕ → ℕ → Fork

-- An assignment to a new key of `running`, a `std::map` in the order of its keys.
unfoldable pub put_running : Running → List Running → List Running
put_running r [] = r ∷ []
put_running r (s ∷ rs) = if ltb r.fd s.fd then r ∷ s ∷ rs else s ∷ put_running r rs

module _ (R : Type 0) where
  -- The last element of a pool, which is taken first and put back, stands at the head of its list.
  pub record Pools : Type 0 where
    pub uid_pool : List ℕ
    pub cpuid_pool : List ℕ
    pub running : List Running
    pub finished : List (ℕ × R)

  -- InitPools; `cpus` are the pinned processors, from the last to the first.
  unfoldable pub init_pools : List ℕ → Pools
  unfolding up_from
  init_pools cpus = record {
    uid_pool = up_from uid_base uid_pool_size;
    cpuid_pool = cpus;
    running = [];
    finished = [];
  }

  abbrev pub first_cpu : List ℕ → Option ℕ
  first_cpu [] = none
  first_cpu (c ∷ cs) = some c

  abbrev pub other_cpus : List ℕ → List ℕ
  other_cpus [] = []
  other_cpus (c ∷ cs) = cs

  abbrev pub put_cpu : Option ℕ → List ℕ → List ℕ
  put_cpu none cs = cs
  put_cpu (some c) cs = c ∷ cs

  abbrev pub forked : Fork → ℕ → List ℕ → Pools → Option ℕ × Pools
  forked (started fd pid) uid uids p = (
    some fd,
    record p {
      uid_pool = uids;
      cpuid_pool = other_cpus p.cpuid_pool;
      running =
          put_running (record { fd = fd; pid = pid; uid = uid; cpuid = first_cpu p.cpuid_pool })
            p.running;
    },
  )
  forked pipe_failed uid uids p = (none, p)
  forked fork_failed uid uids p = (
    none,
    record p {
      uid_pool = uid ∷ uids;
      cpuid_pool = put_cpu (first_cpu p.cpuid_pool) (other_cpus p.cpuid_pool);
    },
  )

  -- RunTask: a handle, or none for -1. A pool of users that is empty is a fault.
  unfoldable pub run_task : Fork → Pools → Option (Option ℕ × Pools)
  unfolding put_running
  run_task pipe_failed p = some (none, p)
  run_task f p = elim p.uid_pool [ [] ↦ none | uid ∷ uids ↦ some (forked f uid uids p) ]

  -- A task that ended goes to `finished`, and its user and processor to their pools.
  abbrev pub release : Running → R → Pools → Pools
  release r x p = record p {
    uid_pool = r.uid ∷ p.uid_pool;
    cpuid_pool = put_cpu r.cpuid p.cpuid_pool;
    finished = (r.fd, x) ∷ p.finished;
  }

  abbrev pub keep : Running → Pools → Pools
  keep r p = record p { running = p.running ++ (r ∷ []) }

  -- The loop of `Wait` over `running`: the descriptors in `ready` are read and leave the map.
  unfoldable pub collect : List ℕ → (ℕ → R) → List Running → Pools → Pools
  unfolding has_group
  collect ready result [] p = p
  collect ready result (r ∷ rs) p =
      collect ready result rs (if has_group r.fd ready then release r (result r.fd) p else keep r p)

  -- Wait; an empty `ready` is a `select` that fails.
  unfoldable pub wait : List ℕ → (ℕ → R) → Pools → Pools
  unfolding collect
  wait ready result p = collect ready result p.running (record p { running = [] })

  -- An element of `finished`, which has no order: the one at the place, or the last.
  unfoldable pub remove_at : ℕ → List (ℕ × R) → Option ((ℕ × R) × List (ℕ × R))
  remove_at i [] = none
  remove_at i (f ∷ []) = some (f, [])
  remove_at zero (f ∷ g ∷ fs) = some (f, g ∷ fs)
  remove_at (suc i) (f ∷ g ∷ fs) = elim (remove_at i (g ∷ fs)) [
    | none ↦ none
    | some (h, rest) ↦ some (h, f ∷ rest)
  ]

  unfoldable pub take_finished : ℕ → Pools → Option (Option (ℕ × R) × Pools)
  unfolding remove_at
  take_finished i p = elim (remove_at i p.finished) [
    | none ↦ none
    | some (f, fs) ↦ some (some f, record p { finished = fs })
  ]

  abbrev pub is_empty : {A : Type 0} → List A → Bool
  is_empty [] = true
  is_empty (a ∷ xs) = false

  -- WaitAnyResult: none for the handle -1. No result after `Wait` is a fault.
  unfoldable pub wait_any : ℕ → List ℕ → (ℕ → R) → Pools → Option (Option (ℕ × R) × Pools)
  unfolding wait take_finished
  wait_any i ready result p =
      if is_empty p.finished
      then (if is_empty p.running then some (none, p) else take_finished i (wait ready result p))
      else take_finished i p
