-- ===== src/Server/Testdata.antt =====
-- The testdata that the judge keeps of a problem (`DealOneSubmission` of src/server_io.cpp and src/database.h):
-- which are fetched, linked and removed when a submission arrives. The rows of the database have distinct
-- ids, their primary key. Fetches and changes of files succeed; where they fail the submission is refused.
pub mod Effects
pub mod Sync
mod Tests
use tioj_judge.Base.{
  ℕ, zero, suc, ◌+◌, ◌-◌, Bool, true, false, not, ◌&&◌, List, [], ◌∷◌, ◌++◌, Option, none, some,
  ltb, leb, ◌==◌, if◌then◌else◌, length,
}
use tioj_judge.Base.Partial.{◌>>=◌}
use tioj_judge.Base.Int.{ℤ}
use tioj_judge.Handler.{eq_ℤ, lookup}
use tioj_judge.Server.Frames.{value, TdFrame}

-- src/database.h
pub record Testdata : Type 0 where
  pub testdata_id : ℕ
  pub problem_id : ℕ
  pub order : ℕ
  pub timestamp : ℤ
  pub input_compressed : Bool
  pub output_compressed : Bool

-- A map by the ids of the testdata, as `lookup` reads it.
abbrev pub TdMap : Type 0
TdMap = List (ℕ × Testdata)

-- `orig_td[i.testdata_id] = i;` over the rows of a problem
unfoldable pub row_map : List Testdata → TdMap
row_map [] = []
row_map (r ∷ rs) = row_map rs ++ ((r.testdata_id, r) ∷ [])

-- `orig_td_count`
unfoldable pub row_count : List Testdata → ℕ → ℕ
row_count [] n = n
row_count (r ∷ rs) n = row_count rs (if leb n r.order then suc r.order else n)

abbrev pub needs_download : Option Testdata → ℤ → Bool
needs_download none timestamp = true
needs_download (some r) timestamp = not (eq_ℤ r.timestamp timestamp)

abbrev pub needs_position : Option Testdata → ℕ → Bool
needs_position none i = true
needs_position (some r) i = not (r.order == i)

-- `to_download`, `to_update_position` and `new_meta`, of which the first entry of an id counts.
pub record Changes : Type 0 where
  pub to_download : List ℕ
  pub to_update_position : List (ℕ × ℕ)
  pub new_meta : TdMap

abbrev pub no_changes : Changes
no_changes = record { to_download = []; to_update_position = []; new_meta = [] }

-- What one testdata adds, before those of the later ones.
unfoldable pub compare_td : TdMap → ℕ → Testdata → Changes → Changes
unfolding lookup
compare_td orig_td i td rest = record {
  to_download =
      if needs_download (lookup td.testdata_id orig_td) td.timestamp
      then td.testdata_id ∷ rest.to_download
      else rest.to_download;
  to_update_position =
      if needs_position (lookup td.testdata_id orig_td) i
      then (i, td.testdata_id) ∷ rest.to_update_position
      else rest.to_update_position;
  new_meta = (td.testdata_id, td) ∷ rest.new_meta;
}

unfoldable pub read_td : ℕ → ℕ → TdFrame → Option Testdata
read_td problem_id i f = do
  id ← f.id
  updated_at ← f.updated_at
  input ← value f.input_compressed false
  output ← value f.output_compressed false
  some (record {
    testdata_id = id;
    problem_id = problem_id;
    order = i;
    timestamp = updated_at;
    input_compressed = input;
    output_compressed = output;
  })

-- The frames as testdata, from position `i` on.
unfoldable pub read_tds : ℕ → ℕ → List TdFrame → Option (List Testdata)
unfolding read_td
read_tds problem_id i [] = some []
read_tds problem_id i (f ∷ fs) = do
  td ← read_td problem_id i f
  tds ← read_tds problem_id (suc i) fs
  some (td ∷ tds)

-- The loop that compares, on the testdata that were read.
unfoldable pub compare_tds : TdMap → ℕ → List Testdata → Changes
unfolding compare_td
compare_tds orig_td i [] = no_changes
compare_tds orig_td i (td ∷ tds) = compare_td orig_td i td (compare_tds orig_td (suc i) tds)

abbrev pub is_missing : Option Testdata → Bool
is_missing none = true
is_missing (some td) = false

-- `to_delete`
unfoldable pub to_delete : TdMap → TdMap → List ℕ
unfolding lookup
to_delete new_meta [] = []
to_delete new_meta ((id, r) ∷ rs) =
    if is_missing (lookup id new_meta) then id ∷ to_delete new_meta rs else to_delete new_meta rs

-- The files of the pool, by id and with the time of their version, and the links of the problem, by position.
pub record Files : Type 0 where
  pub pool : ℕ → Option ℤ
  pub links : ℕ → Option ℕ

unfoldable pub write : {A : Type 0} → ℕ → Option A → (ℕ → Option A) → ℕ → Option A
write k a m j = if k == j then a else m j

abbrev pub version : Option Testdata → Option ℤ
version none = none
version (some td) = some td.timestamp

-- The renames of the fetched files, which hold the version that the server has named.
unfoldable pub store : TdMap → List ℕ → (ℕ → Option ℤ) → ℕ → Option ℤ
unfolding write lookup
store new_meta [] pool = pool
store new_meta (id ∷ ids) pool = store new_meta ids (write id (version (lookup id new_meta)) pool)

unfoldable pub remove_td : List ℕ → (ℕ → Option ℤ) → ℕ → Option ℤ
unfolding write
remove_td [] pool = pool
remove_td (id ∷ ids) pool = remove_td ids (write id none pool)

unfoldable pub relink : List (ℕ × ℕ) → (ℕ → Option ℕ) → ℕ → Option ℕ
unfolding write
relink [] links = links
relink ((order, id) ∷ ps) links = relink ps (write order (some id) links)

-- `for (int i = td_count; i < orig_td_count; i++)`
unfoldable pub unlink : ℕ → ℕ → (ℕ → Option ℕ) → ℕ → Option ℕ
unlink td_count orig_td_count links p =
    if leb td_count p && ltb p orig_td_count then none else links p

-- The part of DealOneSubmission that brings the files up to date.
unfoldable pub update_files : List Testdata → List Testdata → Files → Files
unfolding row_map row_count compare_tds to_delete store remove_td relink unlink
update_files rows tds files =
    let orig_td = row_map rows in
    let c = compare_tds orig_td 0 tds in
    record {
      pool = remove_td (to_delete c.new_meta orig_td) (store c.new_meta c.to_download files.pool);
      links = unlink (length tds) (row_count rows 0) (relink c.to_update_position files.links);
    }
