-- ===== src/Graph/Count.antt =====
-- How often an id stands in a list, among the entries and among their edges, and how the helpers of
-- Graph change these numbers.
use mathlib.Core.List.{Memᴰ}
use tioj_judge.Base.{
  ℕ, ◌+◌, ◌≤◌, ◌<◌, ◌≡◌, refl, inl, inr, Bool, true, false, List, [], ◌∷◌, none, some, arith, ◌==◌,
  if◌then◌else◌, All, sym, subst, Bool-cases, ==_iff, ℕ_discrete,
}
use tioj_judge.Graph.{TaskEntry, find, modify, erase}

abbrev pub one_if : Bool → ℕ
one_if true = 1
one_if false = 0

unfoldable pub count : ℕ → List ℕ → ℕ
count x [] = 0
count x (y ∷ ys) = one_if (y == x) + count x ys

-- Entries with the id `x`, those of them with no task to wait for, and edges to `x`.
unfoldable pub id_count : ℕ → List TaskEntry → ℕ
id_count x [] = 0
id_count x (t ∷ ts) = one_if (t.id == x) + id_count x ts

unfoldable pub zeros : ℕ → List TaskEntry → ℕ
zeros x [] = 0
zeros x (t ∷ ts) = (if t.id == x then one_if (t.indeg == 0) else 0) + zeros x ts

unfoldable pub edge_count : ℕ → List TaskEntry → ℕ
unfolding count
edge_count x [] = 0
edge_count x (t ∷ ts) = count x t.edges + edge_count x ts

pub zeros-le : (x : ℕ) (ts : List TaskEntry) → zeros x ts ≤ id_count x ts
unfolding zeros id_count
zeros-le x [] = omega arith
zeros-le x (t ∷ ts) = ground (arith, zeros-le x ts)

-- An entry that is found has the id, and stands in the list.
pub find-mem :
    (x : ℕ) (ts : List TaskEntry) (t : TaskEntry) → find x ts ≡ some t → (t.id ≡ x) × Memᴰ t ts
unfolding find
find-mem x [] t h = cc
find-mem x (u ∷ ts) t h = elim (Bool-cases (u.id == x)) [
  | inl e ↦ found (rw e at h) ((==_iff u.id x).0 e)
  | inr e ↦ let (i, m) = find-mem x ts t (rw e at h) in (i, Memᴰ.tail m)
]
  where
    found : some u ≡ some t → u.id ≡ x → (t.id ≡ x) × Memᴰ t (u ∷ ts)
    found p i = let same : u ≡ t = cc in (cc, Memᴰ.head (sym same))

pub find-some :
    (x : ℕ) (ts : List TaskEntry) → 0 < id_count x ts → (t : TaskEntry) × (find x ts ≡ some t)
unfolding find id_count
find-some x [] h = absurd (omega arith)
find-some x (u ∷ ts) h = elim (Bool-cases (u.id == x)) [
  | inl e ↦ (u, rw e)
  | inr e ↦ rw e (find-some x ts (ground arith))
]

pub find-none : (x : ℕ) (ts : List TaskEntry) → id_count x ts ≡ 0 → find x ts ≡ none
unfolding find id_count
find-none x [] h = refl
find-none x (u ∷ ts) h = ground (arith, find-none x ts)

-- Changing the degree of an entry moves no edge and no id.
module _ (f : TaskEntry → TaskEntry) (same_id : (t : TaskEntry) → (f t).id ≡ t.id) where
  pub id_count-modify : (x y : ℕ) (ts : List TaskEntry) → id_count y (modify x f ts) ≡ id_count y ts
  unfolding modify id_count
  id_count-modify x y [] = refl
  id_count-modify x y (t ∷ ts) = ground (arith, same_id t, id_count-modify x y ts)

  pub edge_count-modify :
      ((t : TaskEntry) → (f t).edges ≡ t.edges)
      → (x y : ℕ) (ts : List TaskEntry) → edge_count y (modify x f ts) ≡ edge_count y ts
  unfolding modify edge_count
  edge_count-modify same x y [] = refl
  edge_count-modify same x y (t ∷ ts) = ground (arith, same t, edge_count-modify same x y ts)

pub id_count-erase :
    (x y : ℕ) (ts : List TaskEntry)
    → 0 < id_count x ts
    → id_count y (erase x ts) + one_if (x == y) ≡ id_count y ts
unfolding erase id_count
id_count-erase x y [] h = absurd (omega arith)
id_count-erase x y (t ∷ ts) h = ground (arith, id_count-erase x y ts)

pub edge_count-erase :
    (x y : ℕ) (ts : List TaskEntry) (t : TaskEntry)
    → find x ts ≡ some t
    → edge_count y (erase x ts) + count y t.edges ≡ edge_count y ts
unfolding erase edge_count find
edge_count-erase x y [] t h = cc
edge_count-erase x y (u ∷ ts) t h = ground (arith, edge_count-erase x y ts t)

pub zeros-erase :
    (x y : ℕ) (ts : List TaskEntry) (t : TaskEntry)
    → find x ts ≡ some t
    → t.indeg ≡ 0
    → zeros y (erase x ts) + one_if (x == y) ≡ zeros y ts
unfolding erase zeros find
zeros-erase x y [] t h z = cc
zeros-erase x y (u ∷ ts) t h z = ground (arith, zeros-erase x y ts t)

-- An edge to `x` stands in some entry.
pub edge_source :
    (x : ℕ) (ts : List TaskEntry)
    → 0 < edge_count x ts
    → (t : TaskEntry) × Memᴰ t ts × (0 < count x t.edges)
unfolding edge_count
edge_source x [] h = absurd (omega arith)
edge_source x (t ∷ ts) h = elim (ℕ_discrete (count x t.edges) 0) [
  | yes z ↦ let (s, m, c) = edge_source x ts (omega arith) in (s, Memᴰ.tail m, c)
  | no p ↦ (t, Memᴰ.head refl, omega arith)
]

pub All-mem {κ} : {A : Type 0} (P : A → Type κ) (a : A) (xs : List A) → All P xs → Memᴰ a xs → P a
All-mem P a [] h m = elim m [ ]
All-mem P a (x ∷ xs) h (Memᴰ.head e) = subst P (sym e) h.0
All-mem P a (x ∷ xs) h (Memᴰ.tail m) = All-mem P a xs h.1 m
