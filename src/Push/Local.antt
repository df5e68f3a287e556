-- ===== src/Push/Local.antt =====
-- What the helpers on the local entries of `PushSubmission` change.
use mathlib.Core.List.{Memᴰ}
use tioj_judge.Base.{
  ℕ, ◌+◌, ◌*◌, ◌≤◌, ◌<◌, ◌≡◌, refl, true, List, [], ◌∷◌, ◌++◌, some, arith, ◌==◌, All, Bool-cases,
  inl, inr, ap, sym,
}
use tioj_judge.Graph.{
  Task, compile, execute, scoring, summary, userprog, specjudge, summary_prog, probprog, TaskEntry,
}
use tioj_judge.Graph.Count.{one_if, count, id_count, edge_count}
use tioj_judge.Push.{task_eq, local_entry, modify_local, drop_local, add_edge, add_degree}

-- How far a task is from the start: every dependency leads upwards.
unfoldable pub level : Task → ℕ
level (compile c) = 0
level (execute i j) = 2 * j + 1
level (scoring i j) = 2 * j + 2
level summary = 100

pub task_eq-eq : (t u : Task) → task_eq t u ≡ true → t ≡ u
task_eq-eq (compile userprog) (compile userprog) h = refl
task_eq-eq (compile specjudge) (compile specjudge) h = refl
task_eq-eq (compile summary_prog) (compile summary_prog) h = refl
task_eq-eq (compile probprog) (compile probprog) h = refl
task_eq-eq (execute i j) (execute k l) h = ground arith
task_eq-eq (scoring i j) (scoring k l) h = ground arith
task_eq-eq summary summary h = refl
task_eq-eq _ _ h = cc

pub task_eq_refl : (t : Task) → task_eq t t ≡ true
task_eq_refl (compile userprog) = refl
task_eq_refl (compile specjudge) = refl
task_eq_refl (compile summary_prog) = refl
task_eq_refl (compile probprog) = refl
task_eq_refl (execute i j) = ground arith
task_eq_refl (scoring i j) = ground arith
task_eq_refl summary = refl

pub count-snoc : (x y : ℕ) (es : List ℕ) → count x (es ++ (y ∷ [])) ≡ count x es + one_if (y == x)
unfolding count
count-snoc x y [] = omega arith
count-snoc x y (e ∷ es) = omega (arith, count-snoc x y es)

-- The entry of a task stands in the list, under an id that only it has.
pub local_entry-mem :
    (t : Task) (es : List TaskEntry) (e : TaskEntry)
    → local_entry t es ≡ some e
    → (task_eq t e.task ≡ true) × Memᴰ e es
unfolding local_entry
local_entry-mem t [] e h = cc
local_entry-mem t (u ∷ es) e h = elim (Bool-cases (task_eq t u.task)) [
  | inl q ↦ found (rw q at h) q
  | inr q ↦ let (i, m) = local_entry-mem t es e (rw q at h) in (i, Memᴰ.tail m)
]
  where
    found : some u ≡ some e → task_eq t u.task ≡ true → (task_eq t e.task ≡ true) × Memᴰ e (u ∷ es)
    found p q = let same : u ≡ e = cc in (rw (← same) q, Memᴰ.head (sym same))

pub id_count-mem : (e : TaskEntry) (es : List TaskEntry) → Memᴰ e es → 0 < id_count e.id es
unfolding id_count
id_count-mem e [] m = elim m [ ]
id_count-mem e (u ∷ es) (Memᴰ.head p) = ground arith
id_count-mem e (u ∷ es) (Memᴰ.tail m) = omega (arith, id_count-mem e es m)

pub edge_count-mem :
    (x : ℕ) (e : TaskEntry) (es : List TaskEntry) → Memᴰ e es → count x e.edges ≤ edge_count x es
unfolding edge_count
edge_count-mem x e [] m = elim m [ ]
edge_count-mem x e (u ∷ es) (Memᴰ.head p) = ground arith
edge_count-mem x e (u ∷ es) (Memᴰ.tail m) = omega (arith, edge_count-mem x e es m)

pub All-map_mem {κ μ} :
    {A : Type 0} (P : A → Type κ) (Q : A → Type μ) (xs : List A)
    → ((a : A) → Memᴰ a xs → P a → Q a)
    → All P xs
    → All Q xs
All-map_mem P Q [] f h = tt
All-map_mem P Q (x ∷ xs) f h =
    (f x (Memᴰ.head refl) h.0, All-map_mem P Q xs (λ a m. f a (Memᴰ.tail m)) h.1)

pub id_count-modify_local :
    (f : TaskEntry → TaskEntry)
    → ((e : TaskEntry) → (f e).id ≡ e.id)
    → (t : Task) (x : ℕ) (es : List TaskEntry) → id_count x (modify_local t f es) ≡ id_count x es
unfolding id_count modify_local
id_count-modify_local f same t x [] = refl
id_count-modify_local f same t x (e ∷ es) =
    ground (arith, same e, id_count-modify_local f same t x es)

pub edge_count-add_degree :
    (t : Task) (x : ℕ) (es : List TaskEntry)
    → edge_count x (modify_local t add_degree es) ≡ edge_count x es
unfolding edge_count modify_local
edge_count-add_degree t x [] = refl
edge_count-add_degree t x (e ∷ es) = ground (arith, edge_count-add_degree t x es)

pub edge_count-add_edge :
    (t : Task) (x y : ℕ) (es : List TaskEntry) (e : TaskEntry)
    → local_entry t es ≡ some e
    → edge_count x (modify_local t (add_edge y) es) ≡ edge_count x es + one_if (y == x)
unfolding edge_count modify_local local_entry
edge_count-add_edge t x y [] e h = cc
edge_count-add_edge t x y (u ∷ es) e h =
    ground (arith, count-snoc x y u.edges, edge_count-add_edge t x y es e)

-- The entry of `b` keeps its id when an edge is added somewhere.
pub local_entry-add_edge :
    (a b : Task) (y : ℕ) (es : List TaskEntry) (e : TaskEntry)
    → local_entry b es ≡ some e
    → (e' : TaskEntry) × (local_entry b (modify_local a (add_edge y) es) ≡ some e') × (e'.id ≡ e.id)
unfolding modify_local local_entry
local_entry-add_edge a b y [] e h = cc
local_entry-add_edge a b y (u ∷ es) e h = elim (Bool-cases (task_eq a u.task)) [
  | inl p ↦ rw p (elim (Bool-cases (task_eq b u.task)) [
    | inl q ↦ (add_edge y u, rw q, same_id (rw q at h))
    | inr q ↦ (e, rw q (rw q at h), refl)
  ])
  | inr p ↦ rw p (elim (Bool-cases (task_eq b u.task)) [
    | inl q ↦ (u, rw q, same_id (rw q at h))
    | inr q ↦ let (e', f, i) = local_entry-add_edge a b y es e (rw q at h) in (e', rw q f, i)
  ])
]
  where
    same_id : some u ≡ some e → u.id ≡ e.id
    same_id h' = cc

pub All-modify_local {κ} :
    (P : TaskEntry → Type κ) (f : TaskEntry → TaskEntry) (t : Task) (es : List TaskEntry)
    (e : TaskEntry)
    → local_entry t es ≡ some e
    → (P e → P (f e))
    → All P es
    → All P (modify_local t f es)
unfolding modify_local local_entry
All-modify_local P f t [] e h keep a = tt
All-modify_local P f t (u ∷ es) e h keep a = elim (Bool-cases (task_eq t u.task)) [
  | inl q ↦ rw q (changed (rw q at h), a.1)
  | inr q ↦ rw q (a.0, All-modify_local P f t es e (rw q at h) keep a.1)
]
  where
    changed : some u ≡ some e → P (f u)
    changed h' = let same : u ≡ e = cc in rw same (keep (rw (← same) a.0))

pub id_count-drop_local :
    (t : Task) (x : ℕ) (es : List TaskEntry) (e : TaskEntry)
    → local_entry t es ≡ some e
    → id_count x (drop_local t es) + one_if (e.id == x) ≡ id_count x es
unfolding id_count drop_local local_entry
id_count-drop_local t x [] e h = cc
id_count-drop_local t x (u ∷ es) e h = ground (arith, id_count-drop_local t x es e)

pub edge_count-drop_local :
    (t : Task) (x : ℕ) (es : List TaskEntry) (e : TaskEntry)
    → local_entry t es ≡ some e
    → edge_count x (drop_local t es) + count x e.edges ≡ edge_count x es
unfolding edge_count drop_local local_entry
edge_count-drop_local t x [] e h = cc
edge_count-drop_local t x (u ∷ es) e h = ground (arith, edge_count-drop_local t x es e)

pub All-drop_local {κ} :
    (P : TaskEntry → Type κ) (t : Task) (es : List TaskEntry) → All P es → All P (drop_local t es)
unfolding drop_local
All-drop_local P t [] a = tt
All-drop_local P t (u ∷ es) a = elim (Bool-cases (task_eq t u.task)) [
  | inl q ↦ rw q a.1
  | inr q ↦ rw q (a.0, All-drop_local P t es a.1)
]

-- Adding a degree to the entry of `b`, whose id `y` no other entry has, accounts for one edge to `y`.
pub degree-other :
    (edges : ℕ → ℕ) (y : ℕ) (es : List TaskEntry)
    → id_count y es ≡ 0
    → All (λ e. e.indeg ≡ edges e.id) es
    → All (λ e. e.indeg ≡ edges e.id + one_if (y == e.id)) es
unfolding id_count
degree-other edges y [] z a = tt
degree-other edges y (u ∷ es) z a =
    (ground (arith, a.0), degree-other edges y es (ground arith) a.1)

pub degree-add :
    (edges : ℕ → ℕ) (b : Task) (es : List TaskEntry) (e : TaskEntry)
    → local_entry b es ≡ some e
    → id_count e.id es ≤ 1
    → All (λ u. u.indeg ≡ edges u.id) es
    → All (λ u. u.indeg ≡ edges u.id + one_if (e.id == u.id)) (modify_local b add_degree es)
unfolding id_count modify_local local_entry
degree-add edges b [] e h d a = cc
degree-add edges b (u ∷ es) e h d a = elim (Bool-cases (task_eq b u.task)) [
  | inl q ↦ rw q (here (rw q at h))
  | inr q ↦
      let m = id_count-mem e es (local_entry-mem b es e (rw q at h)).1 in
      rw q (ground (arith, m, d, a.0), degree-add edges b es e (rw q at h) (omega (arith, d)) a.1)
]
  where
    here :
        some u ≡ some e
        → (u.indeg + 1 ≡ edges u.id + one_if (e.id == u.id))
          × All (λ v. v.indeg ≡ edges v.id + one_if (e.id == v.id)) es
    here h' =
        let same : u ≡ e = cc in
        let none_left : id_count e.id es ≡ 0 =
          ground (arith, d, ap (λ (t : TaskEntry). t.id) same) in
        (
          ground (arith, a.0, ap (λ (t : TaskEntry). t.id) same),
          degree-other edges e.id es none_left a.1,
        )
