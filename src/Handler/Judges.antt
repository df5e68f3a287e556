-- ===== src/Handler/Judges.antt =====
-- `ReadPolygonSpecjudgeResult`, `ReadKattisSpecjudgeResult` and `ReadSpecjudgeResult` of
-- src/tioj/submission.cpp.
pub mod Verdicts
use Prim.Native.String.{String}
use tioj_judge.Base.{
  ℕ, zero, suc, ◌+◌, Bool, true, false, not, ◌&&◌, ◌||◌, List, [], ◌∷◌, Option, none, some, ltb,
  leb, ◌==◌, if◌then◌else◌, take,
}
use tioj_judge.Base.Text.{str_eq}
use tioj_judge.Base.Int.{ℤ, pos, negsuc, ◌*ℤ◌, ◌-ℤ◌, ltb_ℤ}
use tioj_judge.Verdict.{Verdict, nul, ac, wa, jre, rank}
use tioj_judge.Submission.{
  Submission, TestdataResult, CjailResult, SpecjudgeType, normal, specjudge_old, specjudge_new,
  specjudge_polygon, specjudge_kattis, skip,
}
use tioj_judge.Handler.{eq_ℤ, LongDouble, normalize_score}
use tioj_judge.Handler.Execute.{cld_exited}
use tioj_judge.Handler.Summary.{full_score}
use tioj_judge.Handler.Specjudge.{
  Istream, JudgeDoc, max_message, set_ac_or_continue, parse_overrides, read_old, read_new, scored,
}

module _ (d : LongDouble) (i : Istream d) where
  open i use {S, word, real, real_left}

  -- The file and the score after `code == 7`: `points` and a score, or what is stored when it cannot be read.
  -- Without `points` there is no score.
  unfoldable pub read_points : S → Option S × Option d.F
  read_points s = elim (word s) [
    | none ↦ (none, none)
    | some (meta, s') ↦
        let points : Option S × Option d.F = elim (real s') [
          | none ↦ (none, some (real_left s'))
          | some (x, s'') ↦ (some s'', some x)
        ] in
        if str_eq meta "points" then points else (some s', none)
  ]

  abbrev points_score : Option d.F → ℤ
  points_score (some x) = normalize_score d x
  points_score none = pos 0

  abbrev pub overrides_if_good : ℕ → Option S → TestdataResult → Option TestdataResult
  overrides_if_good fuel (some s) td = parse_overrides d i false false fuel false s td
  overrides_if_good fuel none td = some td

  -- The file and the score that ReadPolygonSpecjudgeResult goes on with.
  unfoldable pub polygon_score : ℤ → S → TestdataResult → Option S × TestdataResult
  unfolding read_points normalize_score
  polygon_score code s td =
      if eq_ℤ code (pos 7)
      then (let (s', x) = read_points s in (s', record td { score = points_score x }))
      else if ltb_ℤ code (pos 50)
      then (some s, td)
      else (some s, record td { score = (code -ℤ pos 50) *ℤ pos 500000 })

  -- ReadPolygonSpecjudgeResult
  unfoldable pub read_polygon : ℕ → ℤ → S → Bool → TestdataResult → Option TestdataResult
  unfolding polygon_score set_ac_or_continue parse_overrides
  read_polygon fuel code s last_stage td =
      let (s', td') = polygon_score code s (set_ac_or_continue last_stage td) in
      let accepted : Option TestdataResult =
        overrides_if_good fuel s'
          (if ltb_ℤ td'.score full_score then record td' { verdict = wa } else td') in
      if ltb_ℤ code (pos 50) && (not (eq_ℤ code (pos 0)) && not (eq_ℤ code (pos 7)))
      then some (record td { verdict = wa })
      else accepted

  -- What a Kattis judge leaves in its directory.
  pub record KattisFiles : Type 0 where
    pub nextpass : Bool
    pub score_multiplier : Option S
    pub score : Option S
    pub teammessage : Option (List ℕ)
    pub judgemessage : Option S

  -- A file that opens, and holds a number.
  abbrev pub read_real : Option S → Option d.F
  read_real none = none
  read_real (some s) = elim (real s) [ none ↦ none | some (x, s') ↦ some x ]

  abbrev pub times_100 : Option d.F → Option d.F
  times_100 none = none
  times_100 (some x) = some (d.mul x (d.of_int (pos 100)))

  unfoldable pub kattis_accepts : KattisFiles → Bool → TestdataResult → TestdataResult
  unfolding set_ac_or_continue normalize_score
  kattis_accepts files last_stage td =
      let passed = set_ac_or_continue last_stage td in
      let td' =
        if not last_stage && not files.nextpass then record passed { verdict = ac } else passed in
      scored d i (read_real files.score)
        (scored d i (times_100 (read_real files.score_multiplier)) td')

  abbrev pub told_team : Option (List ℕ) → TestdataResult → TestdataResult
  told_team none td = td
  told_team (some text) td = record td { message_type = "text"; message = take max_message text }

  abbrev pub kattis_overrides : ℕ → Option S → TestdataResult → Option TestdataResult
  kattis_overrides fuel none td = some td
  kattis_overrides fuel (some s) td = parse_overrides d i true false fuel false s td

  -- ReadKattisSpecjudgeResult
  unfoldable pub read_kattis : ℕ → ℤ → KattisFiles → Bool → TestdataResult → Option TestdataResult
  unfolding kattis_accepts parse_overrides
  read_kattis fuel code files last_stage td = kattis_overrides fuel files.judgemessage (
      told_team files.teammessage (
        if eq_ℤ code (pos 42)
        then kattis_accepts files last_stage td
        else record td { verdict = wa }))

  -- The files that the judge of a testdata leaves. `output` is none if the output is not a regular
  -- file, and `doc` if it is no JSON.
  pub record JudgeFiles : Type 0 where
    pub output : Option S
    pub doc : Option (JudgeDoc d)
    pub kattis : KattisFiles

  abbrev pub failed_code : SpecjudgeType → ℤ → Bool
  failed_code specjudge_polygon code = eq_ℤ code (pos 3)
  failed_code specjudge_kattis code = not (eq_ℤ code (pos 42)) && not (eq_ℤ code (pos 43))
  failed_code kind code = not (eq_ℤ code (pos 0))

  abbrev pub read_doc : Option (JudgeDoc d) → TestdataResult → TestdataResult
  read_doc none td = td
  read_doc (some doc) td = read_new d i doc td

  -- The reader of each kind of judge.
  unfoldable pub read_kind :
      ℕ → SpecjudgeType → ℤ → S → JudgeFiles → Bool → TestdataResult → Option TestdataResult
  unfolding read_old read_new read_polygon read_kattis
  read_kind fuel specjudge_old code s files last_stage td = read_old d i fuel s last_stage td
  read_kind fuel specjudge_polygon code s files last_stage td =
      read_polygon fuel code s last_stage td
  read_kind fuel specjudge_kattis code s files last_stage td =
      read_kattis fuel code files.kattis last_stage td
  read_kind fuel _ code s files last_stage td = some (read_doc files.doc td)

  -- A judge that failed unexpectedly.
  abbrev pub judge_failed : Submission → TestdataResult → TestdataResult
  judge_failed sub td =
      if rank td.verdict == 0
      then record td { verdict = if sub.specjudge_re_as_wa then wa else jre }
      else td

  -- ReadSpecjudgeResult
  unfoldable pub read_specjudge :
      ℕ → Submission → CjailResult → Bool → JudgeFiles → TestdataResult → Option TestdataResult
  unfolding read_kind
  read_specjudge fuel sub info last_stage files td = elim files.output [
    | none ↦ some (judge_failed sub td)
    | some s ↦
        let read = read_kind fuel sub.specjudge_type info.si_status s files last_stage td in
        if not (eq_ℤ info.si_code cld_exited) || failed_code sub.specjudge_type info.si_status
        then some (judge_failed sub td)
        else read
  ]
