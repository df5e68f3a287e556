-- ===== src/Pool/Accounts.antt =====
-- Every user and every processor is in its pool or with one running task (src/tioj/tasks.cpp).
use tioj_judge.Base.{
  ℕ, ◌+◌, ◌<◌, ◌≤◌, ◌≡◌, refl, ◌∙◌, subst, List, [], ◌∷◌, Option, none, some, arith, if◌then◌else◌,
  length, Bool-cases, inl, inr, ap, length-append,
}
use tioj_judge.Sandbox.{uid_base, uid_pool_size}
use tioj_judge.Order.{has_group}
use tioj_judge.Graph.Count.{count}
use tioj_judge.Pool.{
  Running, Fork, pipe_failed, fork_failed, started, Pools, init_pools, run_task, collect, wait,
  put_cpu, release, keep, first_cpu, other_cpus, forked, take_finished, remove_at,
}
use tioj_judge.Pool.Counts.{
  uses_uid, uses_cpu, with_cpu, uses_uid-last, uses_cpu-last, uses_uid-put, uses_cpu-put,
  length-put, head_of, count-up_from, length-up_from,
}

module _ (R : Type 0) where
  -- How often a user and a processor are there, and the number of users.
  abbrev pub uids : ℕ → Pools R → ℕ
  uids x p = count x p.uid_pool + uses_uid x p.running

  abbrev pub cpus : ℕ → Pools R → ℕ
  cpus x p = count x p.cpuid_pool + uses_cpu x p.running

  abbrev pub users : Pools R → ℕ
  users p = length p.uid_pool + length p.running

  abbrev pub Same : Pools R → Pools R → Type 0
  Same p q = ((x : ℕ) → uids x q ≡ uids x p) × ((x : ℕ) → cpus x q ≡ cpus x p) × (users q ≡ users p)

  count-put_cpu :
      (x : ℕ) (c : Option ℕ) (cs : List ℕ) → count x (put_cpu R c cs) ≡ count x cs + with_cpu x c
  unfolding count
  count-put_cpu x none cs = omega arith
  count-put_cpu x (some c) cs = omega arith

  collect_end : (ready : List ℕ) (result : ℕ → R) (p : Pools R) → collect R ready result [] p ≡ p
  unfolding collect
  collect_end ready result p = refl

  collect_step :
      (ready : List ℕ) (result : ℕ → R) (r : Running) (rs : List Running) (p : Pools R)
      → collect R ready result (r ∷ rs) p
        ≡ collect R ready result rs
            (if has_group r.fd ready then release R r (result r.fd) p else keep R r p)
  unfolding collect
  collect_step ready result r rs p = refl

  collect-Same :
      (ready : List ℕ) (result : ℕ → R) (rs : List Running) (p : Pools R)
      → ((x : ℕ) → uids x (collect R ready result rs p) ≡ uids x p + uses_uid x rs)
        × ((x : ℕ) → cpus x (collect R ready result rs p) ≡ cpus x p + uses_cpu x rs)
        × (users (collect R ready result rs p) ≡ users p + length rs)
  unfolding uses_uid uses_cpu count
  collect-Same ready result [] p =
      rw (collect_end ready result p) (λ x. omega arith, λ x. omega arith, omega arith)
  collect-Same ready result (r ∷ rs) p = elim (Bool-cases (has_group r.fd ready)) [
    | inl b ↦
        let (u, c, n) = collect-Same ready result rs (release R r (result r.fd) p) in
        rw (collect_step ready result r rs p, b)
          (
            λ x. omega (arith, u x),
            λ x. omega (arith, c x, count-put_cpu x r.cpuid p.cpuid_pool),
            omega (arith, n),
          )
    | inr b ↦
        let (u, c, n) = collect-Same ready result rs (keep R r p) in
        rw (collect_step ready result r rs p, b)
          (
            λ x. omega (arith, u x, uses_uid-last x r p.running),
            λ x. omega (arith, c x, uses_cpu-last x r p.running),
            omega (arith, n, length-append p.running (r ∷ [])),
          )
  ]

  wait-Same : (ready : List ℕ) (result : ℕ → R) (p : Pools R) → Same p (wait R ready result p)
  unfolding wait uses_uid uses_cpu
  wait-Same ready result p =
      let (u, c, n) = collect-Same ready result p.running (record p { running = [] }) in
      (λ x. omega (arith, u x), λ x. omega (arith, c x), omega (arith, n))

  cpu_taken :
      (x : ℕ) (cs : List ℕ) → count x cs ≡ with_cpu x (first_cpu R cs) + count x (other_cpus R cs)
  unfolding count
  cpu_taken x [] = refl
  cpu_taken x (c ∷ cs) = refl

  forked-Same :
      (f : Fork) (uid : ℕ) (rest : List ℕ) (p : Pools R)
      → p.uid_pool ≡ uid ∷ rest
      → Same p (forked R f uid rest p).1
  unfolding count
  forked-Same pipe_failed uid rest p e = (λ x. refl, λ x. refl, refl)
  forked-Same fork_failed uid rest p e = (
    λ x. omega (arith, ap (count x) e),
    λ x. omega (
      arith,
      cpu_taken x p.cpuid_pool,
      count-put_cpu x (first_cpu R p.cpuid_pool) (other_cpus R p.cpuid_pool),
    ),
    omega (arith, ap length e),
  )
  forked-Same (started fd pid) uid rest p e =
      let r : Running = record {
        fd = fd;
        pid = pid;
        uid = uid;
        cpuid = first_cpu R p.cpuid_pool;
      } in
      (
        λ x. omega (arith, ap (count x) e, uses_uid-put x r p.running),
        λ x. omega (arith, cpu_taken x p.cpuid_pool, uses_cpu-put x r p.running),
        omega (arith, ap length e, length-put r p.running),
      )

  run_found :
      (f : Fork) (p : Pools R)
      → 0 < length p.uid_pool
      → (h : Option ℕ) × (q : Pools R) × (run_task R f p ≡ some (h, q)) × Same p q
  unfolding run_task
  run_found pipe_failed p i = (none, p, refl, (λ x. refl, λ x. refl, refl))
  run_found fork_failed p i =
      let (uid, rest, e) = head_of p.uid_pool i in
      let (h, q) = forked R fork_failed uid rest p in
      (h, q, rw (e, run_task), forked-Same fork_failed uid rest p e)
  run_found (started fd pid) p i =
      let (uid, rest, e) = head_of p.uid_pool i in
      let (h, q) = forked R (started fd pid) uid rest p in
      (h, q, rw (e, run_task), forked-Same (started fd pid) uid rest p e)

  -- What the pools can come to: tasks start while fewer than kUidPoolSize run, end, and are returned.
  pub data Reached (start_cpus : List ℕ) : Pools R → Type 0 where
    initial : Reached start_cpus (init_pools R start_cpus)
    ran :
        (f : Fork) (p q : Pools R) (h : Option ℕ)
        → Reached start_cpus p
        → length p.running < uid_pool_size
        → run_task R f p ≡ some (h, q)
        → Reached start_cpus q
    waited :
        (ready : List ℕ) (result : ℕ → R) (p : Pools R)
        → Reached start_cpus p
        → Reached start_cpus (wait R ready result p)
    taken :
        (i : ℕ) (p q : Pools R) (h : Option (ℕ × R))
        → Reached start_cpus p
        → take_finished R i p ≡ some (h, q)
        → Reached start_cpus q

  abbrev Counted : List ℕ → Pools R → Type 0
  Counted cs p =
      ((x : ℕ) → uids x p ≤ 1) × ((x : ℕ) → cpus x p ≡ count x cs) × (users p ≡ uid_pool_size)

  Counted-Same : (cs : List ℕ) (p q : Pools R) → Same p q → Counted cs p → Counted cs q
  Counted-Same cs p q (u, c, n) (a, b, d) = (λ x. omega (arith, u x, a x), λ x. c x ∙ b x, n ∙ d)

  taken_case :
      (i : ℕ) (p q : Pools R) (h : Option (ℕ × R)) (o : Option ((ℕ × R) × List (ℕ × R)))
      → remove_at R i p.finished ≡ o
      → take_finished R i p ≡ some (h, q)
      → (q.uid_pool ≡ p.uid_pool) × (q.cpuid_pool ≡ p.cpuid_pool) × (q.running ≡ p.running)
  unfolding take_finished
  taken_case i p q h none n e = absurd (let e' = rw (n, take_finished) at e in cc)
  taken_case i p q h (some (g, fs)) n e =
      let e' = rw (n, take_finished) at e in
      let same : record p { finished = fs } ≡ q = cc in rw (← same) (refl, refl, refl)

  taken-Same :
      (i : ℕ) (p q : Pools R) (h : Option (ℕ × R)) → take_finished R i p ≡ some (h, q) → Same p q
  taken-Same i p q h e =
      let (u, c, r) = taken_case i p q h (remove_at R i p.finished) refl e in
      (
        λ x. omega (arith, ap (count x) u, ap (uses_uid x) r),
        λ x. omega (arith, ap (count x) c, ap (uses_cpu x) r),
        omega (arith, ap length u, ap length r),
      )

  reached-Counted : (cs : List ℕ) (p : Pools R) → Reached cs p → Counted cs p
  unfolding init_pools uses_uid uses_cpu
  reached-Counted cs p initial = (
    λ x. ground (arith, count-up_from x uid_base uid_pool_size),
    λ x. omega arith,
    omega (arith, length-up_from uid_base uid_pool_size),
  )
  reached-Counted cs q (ran f p _ h r l e) =
      let before = reached-Counted cs p r in
      let (h', q', e', s) = run_found f p (omega (arith, before)) in
      let same : q' ≡ q = cc in subst (Counted cs) same (Counted-Same cs p q' s before)
  reached-Counted cs _ (waited ready result p r) =
      Counted-Same cs p (wait R ready result p) (wait-Same ready result p) (reached-Counted cs p r)
  reached-Counted cs q (taken i p _ h r e) =
      Counted-Same cs p q (taken-Same i p q h e) (reached-Counted cs p r)

  -- As long as tasks start only while fewer than kUidPoolSize run: no two running tasks, and no running
  -- task and the pool, have the same user; each processor is as often in the pool and with running
  -- tasks as it was at the start; and `RunTask` finds a user while fewer than kUidPoolSize tasks run.
  pub reached-users :
      (cs : List ℕ) (p : Pools R)
      → Reached cs p
      → ((x : ℕ) → uids x p ≤ 1)
        × ((x : ℕ) → cpus x p ≡ count x cs)
        × (length p.running < uid_pool_size
            → (f : Fork) → (h : Option ℕ) × (q : Pools R) × (run_task R f p ≡ some (h, q)))
  reached-users cs p r =
      let (a, b, n) = reached-Counted cs p r in
      (a, b, λ l f. let (h, q, e, s) = run_found f p (omega (arith, n, l)) in (h, q, e))
