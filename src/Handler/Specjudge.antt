-- ===== src/Handler/Specjudge.antt =====
-- How the answer of a special judge is read: `SetACOrContinue`, `ParseSpecjudgeOverrides`,
-- `ReadOldSpecjudgeResult` and `ReadNewSpecjudgeResult` of src/tioj/submission.cpp.
pub mod Overrides
use Prim.Native.String.{String}
use tioj_judge.Base.{
  ℕ, zero, suc, ◌+◌, Bool, true, false, not, ◌&&◌, ◌||◌, List, [], ◌∷◌, Option, none, some, ltb,
  leb, ◌==◌, if◌then◌else◌, take,
}
use tioj_judge.Base.Text.{str_eq}
use tioj_judge.Base.Int.{ℤ, pos, negsuc, ◌*ℤ◌, ◌-ℤ◌, ltb_ℤ}
use tioj_judge.Verdict.{Verdict, nul, ac, wa, jre, rank, abr_to_verdict}
use tioj_judge.Submission.{
  Submission, TestdataResult, CjailResult, SpecjudgeType, normal, specjudge_old, specjudge_new,
  specjudge_polygon, specjudge_kattis, skip,
}
use tioj_judge.Handler.{eq_ℤ, LongDouble, normalize_score}
use tioj_judge.Handler.Execute.{cld_exited}
use tioj_judge.Handler.Summary.{full_score}

-- An open file, read with `>>`: a word, an `int`, a `long` or a `long double`. `none` is a failed
-- extraction, after which every other fails; `real_left` is the number that it then stores, 0 or the
-- largest on an overflow.
pub record Istream (d : LongDouble) : Type 1 where
  pub S : Type 0
  pub word : S → Option (String × S)
  pub int : S → Option (ℤ × S)
  pub long : S → Option (ℤ × S)
  pub real : S → Option (d.F × S)
  pub real_left : S → d.F

-- What `find`, the type tests and the conversions of the JSON library give on the judge's document.
pub record JudgeDoc (d : LongDouble) : Type 0 where
  pub verdict : Option String
  pub score : Option d.F
  pub time_us : Option ℤ
  pub vss_kib : Option ℤ
  pub rss_kib : Option ℤ
  pub message_type : Option String
  pub message : Option (List ℕ)

-- kMaxMessageLen
abbrev pub max_message : ℕ
max_message = 32768

-- SetACOrContinue
unfoldable pub set_ac_or_continue : Bool → TestdataResult → TestdataResult
set_ac_or_continue true td = record td { verdict = ac; score = full_score }
set_ac_or_continue false td = td

abbrev or_keep : Option ℤ → ℤ → ℤ
or_keep (some x) old = x
or_keep none old = old

module _ (d : LongDouble) (i : Istream d) where
  open i use {S, word, int, long, real}

  -- The body of the loop goes on, with `score_overriden`, or ends.
  pub data Next : Type 0 where
    goes_on : Bool → S → TestdataResult → Next
    ends : TestdataResult → Next

  abbrev pub got : {A : Type 0} → Option (A × S) → TestdataResult → (A → S → Next) → Next
  got (some (a, s)) td next = next a s
  got none td next = ends td

  -- What `SPECJUDGE_OVERRIDE_VERDICT` sets.
  unfoldable pub override_verdict : Bool → Bool → String → TestdataResult → TestdataResult
  unfolding abr_to_verdict
  override_verdict allow_score overriden name td =
      let v = abr_to_verdict name true in
      if allow_score && (not overriden && rank v == 1)
      then record td { verdict = v; score = full_score }
      else record td { verdict = v }

  unfoldable pub override : Bool → Bool → Bool → String → S → TestdataResult → Next
  unfolding override_verdict normalize_score
  override break_on_non_match allow_score overriden cmd s td =
      if allow_score && str_eq cmd "SPECJUDGE_OVERRIDE_SCORE"
      then got (real s) td (λ x s'. goes_on true s' (record td { score = normalize_score d x }))
      else if str_eq cmd "SPECJUDGE_OVERRIDE_VERDICT"
      then got (word s) td
          (λ name s'. goes_on overriden s' (override_verdict allow_score overriden name td))
      else if str_eq cmd "SPECJUDGE_OVERRIDE_TIME_US"
      then got (long s) td (λ x s'. goes_on overriden s' (record td { time = x }))
      else if str_eq cmd "SPECJUDGE_OVERRIDE_VSS_KIB"
      then got (long s) td (λ x s'. goes_on overriden s' (record td { vss = x }))
      else if str_eq cmd "SPECJUDGE_OVERRIDE_RSS_KIB"
      then got (long s) td (λ x s'. goes_on overriden s' (record td { rss = x }))
      else if break_on_non_match
      then ends td
      else goes_on overriden s td

  abbrev pub carry_on :
      Next → (Bool → S → TestdataResult → Option TestdataResult) → Option TestdataResult
  carry_on (goes_on overriden s td) next = next overriden s td
  carry_on (ends td) next = some td

  -- ParseSpecjudgeOverrides, on fuel.
  unfoldable pub parse_overrides :
      Bool → Bool → ℕ → Bool → S → TestdataResult → Option TestdataResult
  unfolding override
  parse_overrides break_on_non_match allow_score zero overriden s td = none
  parse_overrides break_on_non_match allow_score (suc fuel) overriden s td = elim (word s) [
    | none ↦ some td
    | some (cmd, s') ↦
        carry_on (override break_on_non_match allow_score overriden cmd s' td)
          (parse_overrides break_on_non_match allow_score fuel)
  ]

  -- ReadOldSpecjudgeResult
  unfoldable pub read_old : ℕ → S → Bool → TestdataResult → Option TestdataResult
  unfolding set_ac_or_continue parse_overrides
  read_old fuel s last_stage td = elim (int s) [
    | none ↦ some (record td { verdict = wa })
    | some (x, s') ↦
        let accepted : Option TestdataResult =
          parse_overrides true true fuel false s' (set_ac_or_continue last_stage td) in
        if eq_ℤ x (pos 0) then accepted else some (record td { verdict = wa })
  ]

  abbrev pub scored : Option d.F → TestdataResult → TestdataResult
  scored (some x) td = record td { score = normalize_score d x }
  scored none td = td

  abbrev pub judged : Option String → TestdataResult → TestdataResult
  judged none td = td
  judged (some name) td = override_verdict true false name td

  abbrev pub told : Option String → Option (List ℕ) → TestdataResult → TestdataResult
  told (some kind) (some text) td =
      if str_eq kind "text" || str_eq kind "html"
      then record td { message_type = kind; message = take max_message text }
      else record td { message_type = ""; message = [] }
  told _ _ td = record td { message_type = ""; message = [] }

  -- ReadNewSpecjudgeResult, on a document that was parsed.
  unfoldable pub read_new : JudgeDoc d → TestdataResult → TestdataResult
  unfolding normalize_score override_verdict
  read_new doc td =
      let td' = scored doc.score (judged doc.verdict td) in
      told doc.message_type doc.message (record td' {
        time = or_keep doc.time_us td'.time;
        vss = or_keep doc.vss_kib td'.vss;
        rss = or_keep doc.rss_kib td'.rss;
      })
