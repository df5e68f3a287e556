-- ===== src/Server/Testdata/Tests.antt =====
-- Two testdata change places, one of them is new, and a third is gone.
use tioj_judge.Base.{
  ℕ, zero, suc, subst, if◌then◌else◌, ◌≤◌, ◌<◌, ◌≡◌, refl, false, List, [], ◌∷◌, none, some,
  get_elem?, length, ◌==◌,
}
use tioj_judge.Base.Int.{pos}
use tioj_judge.Handler.{lookup}
use tioj_judge.Server.Testdata.{
  Testdata, row_map, row_count, compare_tds, compare_td, to_delete, Files, write, store, remove_td,
  relink, unlink, update_files,
}
use tioj_judge.Server.Testdata.Effects.{find_td, DistinctTds}
use tioj_judge.Server.Testdata.Sync.{Kept, Current, update_files-Sync}

abbrev td_of : ℕ → ℕ → ℕ → Testdata
td_of id order timestamp = record {
  testdata_id = id;
  problem_id = 3;
  order = order;
  timestamp = pos timestamp;
  input_compressed = false;
  output_compressed = false;
}

abbrev rows : List Testdata
rows = td_of 10 0 100 ∷ td_of 11 1 100 ∷ []

abbrev named : List Testdata
named = td_of 12 0 200 ∷ td_of 10 1 100 ∷ []

abbrev files : Files
files = record {
  pool = λ x. if x == 10 then some (pos 100) else (if x == 11 then some (pos 100) else none);
  links = λ p. if p == 0 then some 10 else (if p == 1 then some 11 else none);
}

named-DistinctTds : DistinctTds named
unfolding find_td
named-DistinctTds = (refl, (refl, tt))

named-Current : Current rows named files
unfolding row_map lookup
named-Current zero td e =
    let same : td_of 12 0 200 ≡ td = cc in
    subst (λ t. Kept files t.testdata_id (lookup t.testdata_id (row_map rows))) same tt
named-Current (suc zero) td e =
    let same : td_of 10 1 100 ≡ td = cc in
    subst (λ t. Kept files t.testdata_id (lookup t.testdata_id (row_map rows))) same (refl, refl)
named-Current (suc (suc i)) td e = absurd cc

update_files-Sync_example :
    ((i : ℕ) (td : Testdata)
      → get_elem? named i ≡ some td
      → ((update_files rows named files).pool td.testdata_id ≡ some td.timestamp)
        × ((update_files rows named files).links i ≡ some td.testdata_id))
    × ((x : ℕ) (r : Testdata)
        → lookup x (row_map rows) ≡ some r
        → find_td x named ≡ none
        → (update_files rows named files).pool x ≡ none)
    × ((p : ℕ)
        → length named ≤ p
        → p < row_count rows 0
        → (update_files rows named files).links p ≡ none)
update_files-Sync_example = update_files-Sync rows named files named-DistinctTds named-Current

-- The row of a testdata that is gone stays in the database; when the testdata comes back unchanged, it is
-- not fetched again, and its file is missing.
abbrev after_removal : Files
after_removal = update_files rows (td_of 10 0 100 ∷ []) files

missing_file : (update_files rows rows after_removal).pool 11 ≡ none
unfolding update_files row_map row_count lookup compare_tds compare_td to_delete write store
    remove_td relink unlink
missing_file = refl
