-- ===== src/Graph/Release.antt =====
-- The loop of `Remove`: every successor loses one degree, and is queued when it has none left.
use tioj_judge.Base.{
  ℕ, suc, ◌+◌, ◌-◌, ◌≤◌, ◌<◌, ◌≡◌, refl, ◌≢◌, ◌∙◌, List, [], ◌∷◌, some, arith, ◌==◌, if◌then◌else◌,
  All, length, Bool-cases, inl, inr, ==_iff,
}
use tioj_judge.Graph.{TaskEntry, Graph, find, modify, decrement, release, release_all}
use tioj_judge.Graph.Count.{
  one_if, count, id_count, zeros, edge_count, find-mem, find-some, id_count-modify,
  edge_count-modify, All-mem,
}

-- The degree that an entry has while edges to `es` are still to be taken off.
abbrev pub Owed : (ℕ → ℕ) → List ℕ → TaskEntry → Type 0
Owed c es t = t.indeg ≡ c t.id + count t.id es

Owed-rest :
    (c : ℕ → ℕ) (nxt : ℕ) (es : List ℕ) (ts : List TaskEntry)
    → id_count nxt ts ≡ 0
    → All (Owed c (nxt ∷ es)) ts
    → All (Owed c es) ts
unfolding id_count count
Owed-rest c nxt es [] z h = tt
Owed-rest c nxt es (t ∷ ts) z h = (ground (arith, h.0), Owed-rest c nxt es ts (ground arith) h.1)

Owed-modify :
    (c : ℕ → ℕ) (nxt : ℕ) (es : List ℕ) (ts : List TaskEntry)
    → id_count nxt ts ≤ 1
    → All (Owed c (nxt ∷ es)) ts
    → All (Owed c es) (modify nxt decrement ts)
unfolding id_count count modify
Owed-modify c nxt es [] d h = tt
Owed-modify c nxt es (t ∷ ts) d h =
    ground (arith, ==_iff t.id nxt, Owed-rest c nxt es ts, Owed-modify c nxt es ts)

zeros-modify :
    (x y d : ℕ) (ts : List TaskEntry) (t : TaskEntry)
    → find x ts ≡ some t
    → t.indeg ≡ suc d
    → zeros y (modify x decrement ts) ≡ (if x == y then one_if (d == 0) else 0) + zeros y ts
unfolding zeros modify find
zeros-modify x y d [] t f e = cc
zeros-modify x y d (u ∷ ts) t f e = ground (arith, zeros-modify x y d ts t)

find-modify_ne :
    (x y : ℕ) (ts : List TaskEntry) → x ≢ y → find y (modify x decrement ts) ≡ find y ts
unfolding find modify
find-modify_ne x y [] h = refl
find-modify_ne x y (t ∷ ts) h = ground (arith, find-modify_ne x y ts h)

length-modify : (x : ℕ) (ts : List TaskEntry) → length (modify x decrement ts) ≡ length ts
unfolding modify
length-modify x [] = refl
length-modify x (t ∷ ts) = ground (arith, length-modify x ts)

pub All-modify {κ} :
    (P : TaskEntry → Type κ)
    → ((t : TaskEntry) → P t → P (decrement t))
    → (x : ℕ) (ts : List TaskEntry) → All P ts
    → All P (modify x decrement ts)
unfolding modify
All-modify P keep x [] h = tt
All-modify P keep x (t ∷ ts) h = elim (Bool-cases (t.id == x)) [
  | inl e ↦ rw e (keep t h.0, h.1)
  | inr e ↦ rw e (h.0, All-modify P keep x ts h.1)
]

-- What holds before each round, for the degrees `c` that remain after the last one.
pub record Pending (c : ℕ → ℕ) (running : List ℕ) (es : List ℕ) (g : Graph) : Type 0 where
  pub distinct : (x : ℕ) → id_count x g.task_list ≤ 1
  pub owed : All (Owed c es) g.task_list
  pub present : (x : ℕ) → 0 < count x es → 0 < id_count x g.task_list
  pub ready : (x : ℕ) → count x g.task_queue + count x running ≡ zeros x g.task_list

-- The graph after the round, where the entry is `t` and has `suc d` degrees.
abbrev released : ℕ → ℕ → Graph → Graph
released nxt d g = record {
  task_list = modify nxt decrement g.task_list;
  task_queue = if d == 0 then nxt ∷ g.task_queue else g.task_queue;
}

released-Pending :
    (c : ℕ → ℕ) (running : List ℕ) (nxt d : ℕ) (es : List ℕ) (g : Graph) (t : TaskEntry)
    → Pending c running (nxt ∷ es) g
    → find nxt g.task_list ≡ some t
    → t.indeg ≡ suc d
    → Pending c running es (released nxt d g)
unfolding count
released-Pending c running nxt d es g t p f e = record {
  distinct = λ x. omega (arith, same_ids x, p.distinct x);
  owed = Owed-modify c nxt es g.task_list (p.distinct nxt) p.owed;
  present = λ x h. omega (arith, same_ids x, p.present x (omega arith));
  ready = λ x. ground (arith, zeros-modify nxt x d g.task_list t f e, p.ready x);
}
  where
    same_ids : (x : ℕ) → id_count x (modify nxt decrement g.task_list) ≡ id_count x g.task_list
    same_ids x = id_count-modify decrement (λ _. refl) nxt x g.task_list

-- The entry is there, and its degree is not 0.
Pending-entry :
    (c : ℕ → ℕ) (running : List ℕ) (nxt : ℕ) (es : List ℕ) (g : Graph)
    → Pending c running (nxt ∷ es) g
    → (t : TaskEntry) × (d : ℕ) × (find nxt g.task_list ≡ some t) × (t.indeg ≡ suc d)
unfolding count
Pending-entry c running nxt es g p =
    let (t, f) = find-some nxt g.task_list (p.present nxt (ground arith)) in
    let (i, m) = find-mem nxt g.task_list t f in
    (t, t.indeg - 1, f, ground (arith, All-mem (Owed c (nxt ∷ es)) t g.task_list p.owed m))

release_found :
    (nxt d : ℕ) (g : Graph) (t : TaskEntry)
    → find nxt g.task_list ≡ some t
    → t.indeg ≡ suc d
    → release nxt g ≡ some (released nxt d g)
unfolding release
release_found nxt d g t f e = ground arith

pub release-Pending :
    (c : ℕ → ℕ) (running : List ℕ) (nxt : ℕ) (es : List ℕ) (g : Graph)
    → Pending c running (nxt ∷ es) g
    → (g' : Graph) × (release nxt g ≡ some g')
      × Pending c running es g'
      × (g'.task_list ≡ modify nxt decrement g.task_list)
release-Pending c running nxt es g p =
    let (t, d, f, e) = Pending-entry c running nxt es g p in
    (
      released nxt d g,
      release_found nxt d g t f e,
      released-Pending c running nxt d es g t p f e,
      refl,
    )

-- What the loop leaves alone: ids, edges, the entries that are no successor, and what holds of every
-- entry whatever its degree.
pub record Kept {κ} (P : TaskEntry → Type κ) (es : List ℕ) (ts us : List TaskEntry) : Type κ where
  pub ids : (x : ℕ) → id_count x us ≡ id_count x ts
  pub edges : (x : ℕ) → edge_count x us ≡ edge_count x ts
  pub size : length us ≡ length ts
  pub others : (x : ℕ) → count x es ≡ 0 → find x us ≡ find x ts
  pub all : All P ts → All P us

Kept-step {κ} :
    (P : TaskEntry → Type κ) (nxt : ℕ) (es : List ℕ) (ts us vs : List TaskEntry)
    → ((t : TaskEntry) → P t → P (decrement t))
    → us ≡ modify nxt decrement ts
    → Kept P es us vs
    → Kept P (nxt ∷ es) ts vs
unfolding count
Kept-step P nxt es ts us vs keep e k = record {
  ids = λ x. k.ids x ∙ rw e (id_count-modify decrement (λ _. refl) nxt x ts);
  edges = λ x. k.edges x ∙ rw e (edge_count-modify decrement (λ _. refl) (λ _. refl) nxt x ts);
  size = k.size ∙ rw e (length-modify nxt ts);
  others = λ x h. k.others x (ground arith) ∙ rw e (find-modify_ne nxt x ts (λ q. ground arith));
  all = λ h. k.all (rw e (All-modify P keep nxt ts h));
}

pub release_all-Pending {κ} :
    (P : TaskEntry → Type κ) (c : ℕ → ℕ) (running : List ℕ) (es : List ℕ) (g : Graph)
    → ((t : TaskEntry) → P t → P (decrement t))
    → Pending c running es g
    → (g' : Graph) × (release_all es g ≡ some g')
      × Pending c running [] g'
      × Kept P es g.task_list g'.task_list
unfolding release_all
release_all-Pending P c running [] g keep p = (
  g,
  refl,
  p,
  record { ids = λ _. refl; edges = λ _. refl; size = refl; others = λ _ _. refl; all = λ h. h },
)
release_all-Pending P c running (nxt ∷ es) g keep p =
    let (g1, e1, p1, s1) = release-Pending c running nxt es g p in
    let (g2, e2, p2, k2) = release_all-Pending P c running es g1 keep p1 in
    (
      g2,
      rw (e1, release_all) e2,
      p2,
      Kept-step P nxt es g.task_list g1.task_list g2.task_list keep s1 k2,
    )
