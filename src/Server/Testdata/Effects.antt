-- ===== src/Server/Testdata/Effects.antt =====
-- What the loops of `DealOneSubmission` (src/server_io.cpp) over the testdata do to the files of a problem.
use tioj_judge.Base.{
  ℕ, zero, suc, ◌+◌, ◌<◌, ◌≡◌, ◌∙◌, refl, sym, ap, subst, inl, inr, Bool, true, false, not, ◌&&◌,
  List, [], ◌∷◌, Option, none, some, arith, ◌==◌, ==_iff, if◌then◌else◌, Bool-cases, get_elem?,
}
use tioj_judge.Base.Int.{ℤ}
use tioj_judge.Handler.{lookup}
use tioj_judge.Order.{has_group}
use tioj_judge.Server.Testdata.{
  Testdata, TdMap, needs_download, needs_position, compare_td, compare_tds, is_missing, to_delete,
  write, version, store, remove_td, relink,
}

-- The first testdata with this id.
unfoldable pub find_td : ℕ → List Testdata → Option Testdata
find_td x [] = none
find_td x (td ∷ tds) = if td.testdata_id == x then some td else find_td x tds

abbrev pub DistinctTds : List Testdata → Type 0
DistinctTds [] = Unit
DistinctTds (td ∷ tds) = (find_td td.testdata_id tds ≡ none) × DistinctTds tds

pub find_td-get_elem? :
    (tds : List Testdata) (i : ℕ) (td : Testdata)
    → DistinctTds tds
    → get_elem? tds i ≡ some td
    → find_td td.testdata_id tds ≡ some td
unfolding find_td
find_td-get_elem? [] i td d e = absurd cc
find_td-get_elem? (t ∷ tds) zero td d e =
    let same : t ≡ td = cc in
    subst (λ x. find_td x.testdata_id (t ∷ tds) ≡ some x) same
      (rw ((==_iff t.testdata_id t.testdata_id).1 refl) refl)
find_td-get_elem? (t ∷ tds) (suc i) td d e =
    let found = find_td-get_elem? tds i td d.1 e in
    elim (Bool-cases (t.testdata_id == td.testdata_id)) [
      | inl b ↦ absurd (
          let same : t.testdata_id ≡ td.testdata_id = ground (arith, b) in
          let f : none ≡ some td = sym (rw same at d.0) ∙ found in cc)
      | inr b ↦ rw b found
    ]

same_key : {A : Type 0} (f : ℕ → A) (i j : ℕ) → (i == j) ≡ true → f i ≡ f j
same_key f i j b = ap f ((==_iff i j).0 b)

pub lookup-new_meta :
    (orig_td : TdMap) (i x : ℕ) (tds : List Testdata)
    → lookup x (compare_tds orig_td i tds).new_meta ≡ find_td x tds
unfolding compare_tds compare_td lookup find_td
lookup-new_meta orig_td i x [] = refl
lookup-new_meta orig_td i x (td ∷ tds) = rw (lookup-new_meta orig_td (suc i) x tds) refl

-- Whether a testdata is fetched.
abbrev pub fetched : TdMap → ℕ → Option Testdata → Bool
fetched orig_td x none = false
fetched orig_td x (some td) = needs_download (lookup x orig_td) td.timestamp

pub has_group-to_download :
    (orig_td : TdMap) (i x : ℕ) (tds : List Testdata)
    → DistinctTds tds
    → has_group x (compare_tds orig_td i tds).to_download ≡ fetched orig_td x (find_td x tds)
unfolding compare_tds compare_td has_group find_td
has_group-to_download orig_td i x [] d = refl
has_group-to_download orig_td i x (td ∷ tds) d =
    let rest = has_group-to_download orig_td (suc i) x tds d.1 in
    elim (Bool-cases (td.testdata_id == x)) [
      | inl b ↦
          let same : td.testdata_id ≡ x = ground (arith, b) in
          let none_found : find_td x tds ≡ none = rw same at d.0 in
          let not_fetched = rest ∙ ap (fetched orig_td x) none_found in
          rw b (
            ground (
              arith,
              b,
              not_fetched,
              same_key (λ i. needs_download (lookup i orig_td) td.timestamp) td.testdata_id x,
            ))
      | inr b ↦ rw b (ground (arith, b, rest))
    ]

pub store_lem :
    (m : TdMap) (ids : List ℕ) (pool : ℕ → Option ℤ) (x : ℕ)
    → store m ids pool x ≡ (if has_group x ids then version (lookup x m) else pool x)
unfolding store write has_group
store_lem m [] pool x = refl
store_lem m (id ∷ ids) pool x =
    store_lem m ids (write id (version (lookup id m)) pool) x
    ∙ ground (arith, same_key (λ i. version (lookup i m)) id x)

pub remove_td_lem :
    (ids : List ℕ) (pool : ℕ → Option ℤ) (x : ℕ)
    → remove_td ids pool x ≡ (if has_group x ids then none else pool x)
unfolding remove_td write has_group
remove_td_lem [] pool x = refl
remove_td_lem (id ∷ ids) pool x = remove_td_lem ids (write id none pool) x ∙ ground arith

pub has_group-to_delete :
    (m orig_td : TdMap) (x : ℕ)
    → has_group x (to_delete m orig_td)
      ≡ (not (is_missing (lookup x orig_td)) && is_missing (lookup x m))
unfolding to_delete has_group lookup
has_group-to_delete m [] x = refl
has_group-to_delete m ((id, r) ∷ rs) x =
    ground (arith, has_group-to_delete m rs x, same_key (λ i. is_missing (lookup i m)) id x)

-- What the link at a position becomes.
abbrev pub linked : TdMap → ℕ → Option ℕ → Option Testdata → Option ℕ
linked orig_td p old none = old
linked orig_td p old (some td) =
    if needs_position (lookup td.testdata_id orig_td) p then some td.testdata_id else old

relink_before :
    (orig_td : TdMap) (i p : ℕ) (tds : List Testdata) (links : ℕ → Option ℕ)
    → p < i
    → relink (compare_tds orig_td i tds).to_update_position links p ≡ links p
unfolding relink compare_tds compare_td write
relink_before orig_td i p [] links h = refl
relink_before orig_td i p (td ∷ tds) links h =
    let rest = λ (l : ℕ → Option ℕ). relink_before orig_td (suc i) p tds l (omega arith) in
    elim (Bool-cases (needs_position (lookup td.testdata_id orig_td) i)) [
      | inl b ↦ rw b (rest (write i (some td.testdata_id) links) ∙ ground arith)
      | inr b ↦ rw b (rest links)
    ]

pub relink_lem :
    (orig_td : TdMap) (i j p : ℕ) (tds : List Testdata) (links : ℕ → Option ℕ)
    → p ≡ i + j
    → relink (compare_tds orig_td i tds).to_update_position links p
      ≡ linked orig_td p (links p) (get_elem? tds j)
unfolding relink compare_tds compare_td write
relink_lem orig_td i j p [] links e = refl
relink_lem orig_td i zero p (td ∷ tds) links e =
    let same : i ≡ p = omega arith in
    rw same (elim (Bool-cases (needs_position (lookup td.testdata_id orig_td) p)) [
      | inl b ↦ rw b (
          relink_before orig_td (suc p) p tds (write p (some td.testdata_id) links) (omega arith)
          ∙ ground arith)
      | inr b ↦ rw b (relink_before orig_td (suc p) p tds links (omega arith))
    ])
relink_lem orig_td i (suc j) p (td ∷ tds) links e =
    let rest = λ (l : ℕ → Option ℕ). relink_lem orig_td (suc i) j p tds l (omega arith) in
    elim (Bool-cases (needs_position (lookup td.testdata_id orig_td) i)) [
      | inl b ↦ rw b (
          rest (write i (some td.testdata_id) links)
          ∙ ap (λ o. linked orig_td p o (get_elem? tds j)) (ground arith))
      | inr b ↦ rw b (rest links)
    ]
