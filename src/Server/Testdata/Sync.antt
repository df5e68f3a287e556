-- ===== src/Server/Testdata/Sync.antt =====
-- That the files of a problem are those of the testdata that the server has named, after
-- `DealOneSubmission` (src/server_io.cpp) has brought them up to date.
use tioj_judge.Base.{
  ℕ, zero, suc, ◌≤◌, ◌<◌, ◌≡◌, ◌∙◌, refl, sym, ap, inl, inr, not, ◌&&◌, List, [], ◌∷◌, Option, none,
  some, arith, ◌==◌, ==_iff, if◌then◌else◌, Bool-cases, length, get_elem?, lt→ltb, le→leb, lt→leb,
  and_false,
}
use tioj_judge.Handler.{eq_ℤ, lookup}
use tioj_judge.Handler.Execute.Verdicts.{eq_ℤ-eq}
use tioj_judge.Server.Testdata.{
  Testdata, row_map, row_count, needs_download, needs_position, compare_tds, is_missing, to_delete,
  Files, version, store, unlink, update_files,
}
use tioj_judge.Server.Testdata.Effects.{
  find_td, DistinctTds, find_td-get_elem?, lookup-new_meta, fetched, has_group-to_download,
  store_lem, remove_td_lem, has_group-to_delete, relink_lem,
}

-- What the database says of a testdata is so.
abbrev pub Kept : Files → ℕ → Option Testdata → Type 0
Kept files x none = Unit
Kept files x (some r) = (files.pool x ≡ some r.timestamp) × (files.links r.order ≡ some x)

-- The testdata to come: what the database says of those is so.
abbrev pub Current : List Testdata → List Testdata → Files → Type 0
Current rows tds files =
    (i : ℕ) (td : Testdata)
    → get_elem? tds i ≡ some td
    → Kept files td.testdata_id (lookup td.testdata_id (row_map rows))

get_elem?-lt :
    (tds : List Testdata) (i : ℕ) (td : Testdata) → get_elem? tds i ≡ some td → i < length tds
get_elem?-lt [] i td e = absurd cc
get_elem?-lt (t ∷ tds) zero td e = omega arith
get_elem?-lt (t ∷ tds) (suc i) td e = omega (arith, get_elem?-lt tds i td e)

get_elem?-le : (tds : List Testdata) (p : ℕ) → length tds ≤ p → get_elem? tds p ≡ none
get_elem?-le [] p h = refl
get_elem?-le (t ∷ tds) zero h = absurd (omega arith)
get_elem?-le (t ∷ tds) (suc p) h = get_elem?-le tds p (omega arith)

-- The version in the pool after a fetch, where one is needed.
fresh_version :
    (files : Files) (td : Testdata) (o : Option Testdata)
    → Kept files td.testdata_id o
    → (if needs_download o td.timestamp then some td.timestamp else files.pool td.testdata_id)
      ≡ some td.timestamp
fresh_version files td none k = refl
fresh_version files td (some r) k = elim (Bool-cases (eq_ℤ r.timestamp td.timestamp)) [
  | inl b ↦ rw b (k.0 ∙ ap some ((eq_ℤ-eq r.timestamp td.timestamp).0 b))
  | inr b ↦ rw b refl
]

fresh_link :
    (files : Files) (td : Testdata) (p : ℕ) (o : Option Testdata)
    → Kept files td.testdata_id o
    → (if needs_position o p then some td.testdata_id else files.links p) ≡ some td.testdata_id
fresh_link files td p none k = refl
fresh_link files td p (some r) k = elim (Bool-cases (r.order == p)) [
  | inl b ↦ rw b (ap files.links (sym ((==_iff r.order p).0 b)) ∙ k.1)
  | inr b ↦ rw b refl
]

update_pool :
    (rows tds : List Testdata) (files : Files) (x : ℕ)
    → DistinctTds tds
    → (update_files rows tds files).pool x ≡ (
        if not (is_missing (lookup x (row_map rows))) && is_missing (find_td x tds)
        then none
        else (if fetched (row_map rows) x (find_td x tds)
            then version (find_td x tds)
            else files.pool x))
unfolding update_files
update_pool rows tds files x d =
    let orig_td = row_map rows in
    let c = compare_tds orig_td 0 tds in
    remove_td_lem (to_delete c.new_meta orig_td) (store c.new_meta c.to_download files.pool) x
    ∙ rw
        (
          has_group-to_delete c.new_meta orig_td x,
          store_lem c.new_meta c.to_download files.pool x,
          has_group-to_download orig_td 0 x tds d,
          lookup-new_meta orig_td 0 x tds,
        )
        refl

-- For testdata with distinct ids, of which the database says what is so or nothing, DealOneSubmission
-- leaves in the pool the named version of each, at each position the link to the testdata with this index, no
-- file of a testdata of the database that is not named, and no link at the old positions from their number on.
pub update_files-Sync :
    (rows tds : List Testdata) (files : Files)
    → DistinctTds tds
    → Current rows tds files
    → ((i : ℕ) (td : Testdata)
        → get_elem? tds i ≡ some td
        → ((update_files rows tds files).pool td.testdata_id ≡ some td.timestamp)
          × ((update_files rows tds files).links i ≡ some td.testdata_id))
      × ((x : ℕ) (r : Testdata)
          → lookup x (row_map rows) ≡ some r
          → find_td x tds ≡ none
          → (update_files rows tds files).pool x ≡ none)
      × ((p : ℕ)
          → length tds ≤ p
          → p < row_count rows 0
          → (update_files rows tds files).links p ≡ none)
unfolding update_files unlink
update_files-Sync rows tds files d c = (
  λ i td e.
      let found = find_td-get_elem? tds i td d e in
      let lt = get_elem?-lt tds i td e in
      (
        update_pool rows tds files td.testdata_id d
            ∙ rw (found, and_false (not (is_missing (lookup td.testdata_id (row_map rows)))))
                (fresh_version files td (lookup td.testdata_id (row_map rows)) (c i td e)),
        rw
            (
              lt→leb (length tds) i lt,
              relink_lem (row_map rows) 0 i i tds files.links (omega arith),
              e,
            )
            (fresh_link files td i (lookup td.testdata_id (row_map rows)) (c i td e)),
      ),
  λ x r e f. update_pool rows tds files x d ∙ rw (e, f) refl,
  λ p h k. rw (le→leb (length tds) p h, lt→ltb p (row_count rows 0) k) refl,
)
