-- ===== src/Push/Runs.antt =====
-- Sequences of calls that name only entries that are there: what each needs, and what is there after.
use mathlib.Core.Path.{fun_ext}
use tioj_judge.Base.{
  ℕ, zero, suc, ◌+◌, ◌<◌, ◌≡◌, refl, Bool, true, false, not, ◌&&◌, ◌||◌, List, [], ◌∷◌, ◌++◌, arith,
  subst, sym,
}
use tioj_judge.Graph.{Task}
use tioj_judge.Push.{Op, create, link, insert, task_eq}
use tioj_judge.Push.Plan.{for_up}
use tioj_judge.Push.Local.{level}

-- Which tasks have a local entry.
abbrev pub Seen : Type 0
Seen = Task → Bool

abbrev pub with_task : Task → Seen → Seen
with_task t seen u = task_eq u t || seen u

abbrev pub without_task : Task → Seen → Seen
without_task t seen u = not (task_eq u t) && seen u

-- From the tasks of `seen` each call finds its entries, none is created twice, every link leads to a
-- higher level, and the tasks of `after` are left.
abbrev pub Runs : Seen → List Op → Seen → Type 0
Runs seen [] after = (u : Task) → seen u ≡ after u
Runs seen (create t order ∷ ops) after = (seen t ≡ false) × Runs (with_task t seen) ops after
Runs seen (link a b ∷ ops) after =
    (seen a ≡ true) × (seen b ≡ true) × (level a < level b) × Runs seen ops after
Runs seen (insert t ∷ ops) after = (seen t ≡ true) × Runs (without_task t seen) ops after

pub Runs-append :
    (seen mid after : Seen) (xs ys : List Op)
    → Runs seen xs mid
    → Runs mid ys after
    → Runs seen (xs ++ ys) after
Runs-append seen mid after [] ys h k = subst (λ s. Runs s ys after) (sym (fun_ext h)) k
Runs-append seen mid after (create t order ∷ xs) ys h k =
    (h.0, Runs-append (with_task t seen) mid after xs ys h.1 k)
Runs-append seen mid after (link a b ∷ xs) ys h k =
    (h.0, h.1, h.2, Runs-append seen mid after xs ys h.3 k)
Runs-append seen mid after (insert t ∷ xs) ys h k =
    (h.0, Runs-append (without_task t seen) mid after xs ys h.1 k)

-- A loop, by what is there before each round.
pub Runs-for_up :
    (at : ℕ → Seen) (body : ℕ → List Op) (n lo top : ℕ)
    → lo + n ≡ top
    → ((k : ℕ) → k < top → Runs (at k) (body k) (at (suc k)))
    → Runs (at lo) (for_up n lo body) (at top)
Runs-for_up at body zero lo top e step =
    let same : lo ≡ top = omega arith in λ u. subst (λ k. at lo u ≡ at k u) same refl
Runs-for_up at body (suc n) lo top e step =
    Runs-append (at lo) (at (suc lo)) (at top) (body lo) (for_up n (suc lo) body)
      (step lo (omega arith)) (Runs-for_up at body n (suc lo) top (omega arith) step)

-- Only what is there before and after counts.
pub Runs-before :
    (seen seen' after : Seen) (ops : List Op)
    → ((u : Task) → seen u ≡ seen' u)
    → Runs seen' ops after
    → Runs seen ops after
Runs-before seen seen' after ops h r = subst (λ s. Runs s ops after) (sym (fun_ext h)) r

pub Runs-after :
    (seen after after' : Seen) (ops : List Op)
    → Runs seen ops after
    → ((u : Task) → after u ≡ after' u)
    → Runs seen ops after'
Runs-after seen after after' ops r h = subst (Runs seen ops) (fun_ext h) r
