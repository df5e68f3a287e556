-- ===== src/Handler/Judges/Verdicts.antt =====
-- Every reader of a judge's answer ends, and none sets a verdict of the compilation
-- (src/tioj/submission.cpp).
use Prim.Native.String.{String}
use tioj_judge.Base.Text.{str_eq}
use tioj_judge.Base.{
  List, ℕ, ◌<◌, ◌≡◌, refl, Bool, true, false, ◌&&◌, ◌||◌, not, ◌==◌, Option, none, some, arith,
  Bool-cases, Option-cases, inl, inr, if◌then◌else◌,
}
use tioj_judge.Base.Int.{ℤ, pos, ltb_ℤ}
use tioj_judge.Verdict.{wa, ac, rank}
use tioj_judge.Submission.{
  Submission, TestdataResult, CjailResult, SpecjudgeType, normal, specjudge_old, specjudge_new,
  specjudge_polygon, specjudge_kattis, skip,
}
use tioj_judge.Handler.{LongDouble, eq_ℤ}
use tioj_judge.Handler.Specjudge.{
  Istream, JudgeDoc, set_ac_or_continue, read_old, read_new, override_verdict, scored, judged, told,
}
use tioj_judge.Handler.Specjudge.Overrides.{
  Fine, IstreamLaws, parse_overrides-Fine, override_verdict-Fine,
}
use tioj_judge.Handler.Execute.{cld_exited}
use tioj_judge.Handler.Summary.{full_score}
use tioj_judge.Handler.Judges.{
  JudgeFiles, KattisFiles, read_points, polygon_score, read_polygon, kattis_accepts, read_kattis,
  read_kind, read_specjudge, judge_failed, overrides_if_good, read_real, times_100, told_team,
  kattis_overrides, read_doc, failed_code,
}

set_ac_or_continue-Fine :
    (last : Bool) (td : TestdataResult) → Fine td → Fine (set_ac_or_continue last td)
unfolding set_ac_or_continue
set_ac_or_continue-Fine true td f = omega arith
set_ac_or_continue-Fine false td f = f

module _ (d : LongDouble) (i : Istream d) (laws : IstreamLaws d i) where
  open i use {S, word, int, long, real}
  open laws use {size}

  -- The reader gives a result.
  abbrev pub Ends : Option TestdataResult → Type 0
  Ends o = (td : TestdataResult) × (o ≡ some td) × Fine td

  Ends-if : (b : Bool) (o p : Option TestdataResult) → Ends o → Ends p → Ends (if b then o else p)
  Ends-if true o p e f = e
  Ends-if false o p e f = f

  read_old-Ends :
      (fuel : ℕ) (s : S) (last : Bool) (td : TestdataResult)
      → size s < fuel
      → Fine td
      → Ends (read_old d i fuel s last td)
  unfolding read_old
  read_old-Ends fuel s last td h f = elim (Option-cases (int s)) [
    | inl e ↦ (record td { verdict = wa }, rw (e, read_old) refl, omega arith)
    | inr ((x, s1), e) ↦
        rw (e, read_old)
          (Ends-if (eq_ℤ x (pos 0)) _ _
            (parse_overrides-Fine d i laws true true fuel false s1 (set_ac_or_continue last td)
              (omega (arith, laws.int_le s s1 x e)) (set_ac_or_continue-Fine last td f))
            (record td { verdict = wa }, refl, omega arith))
  ]

  scored-Fine : (x : Option d.F) (td : TestdataResult) → Fine td → Fine (scored d i x td)
  scored-Fine none td f = f
  scored-Fine (some x) td f = f

  read_new-Fine : (doc : JudgeDoc d) (td : TestdataResult) → Fine td → Fine (read_new d i doc td)
  unfolding read_new
  read_new-Fine doc td f = told_all doc.message_type doc.message _ (judged_all doc.verdict)
    where
      judged_all : (v : Option String) → Fine (scored d i doc.score (judged d i v td))
      judged_all none = scored-Fine doc.score td f
      judged_all (some name) =
          scored-Fine doc.score (override_verdict d i true false name td)
            (override_verdict-Fine d i laws true false name td)

      told_all :
          (k : Option String) (t : Option (List ℕ)) (u : TestdataResult)
          → Fine u
          → Fine (told d i k t u)
      told_all none t u g = g
      told_all (some k) none u g = g
      told_all (some k) (some t) u g = elim (Bool-cases (str_eq k "text" || str_eq k "html")) [
        | inl e ↦ rw e g
        | inr e ↦ rw e g
      ]

  -- The files of a judge have fewer characters than there is fuel.
  abbrev pub Short : ℕ → Option S → Type 0
  Short fuel (some s) = size s < fuel
  Short fuel none = Unit

  overrides_if_good-Ends :
      (fuel : ℕ) (s : Option S) (td : TestdataResult)
      → Short fuel s
      → Fine td
      → Ends (overrides_if_good d i fuel s td)
  overrides_if_good-Ends fuel none td h f = (td, refl, f)
  overrides_if_good-Ends fuel (some s) td h f =
      parse_overrides-Fine d i laws false false fuel false s td h f

  read_points-Short : (fuel : ℕ) (s : S) → size s < fuel → Short fuel (read_points d i s).0
  unfolding read_points
  read_points-Short fuel s h = elim (Option-cases (word s)) [
    | inl e ↦ rw (e, read_points) tt
    | inr ((meta, s1), e) ↦ elim (Bool-cases (str_eq meta "points")) [
      | inl b ↦ elim (Option-cases (real s1)) [
        | inl g ↦ rw (e, b, g, read_points) tt
        | inr ((x, s2), g) ↦
            rw (e, b, g, read_points)
              (omega (arith, laws.word_lt s s1 meta e, laws.real_le s1 s2 x g))
      ]
      | inr b ↦ rw (e, b, read_points) (omega (arith, laws.word_lt s s1 meta e))
    ]
  ]

  polygon_score-Fine :
      (fuel : ℕ) (code : ℤ) (s : S) (td : TestdataResult)
      → size s < fuel
      → Fine td
      → Short fuel (polygon_score d i code s td).0 × Fine (polygon_score d i code s td).1
  unfolding polygon_score
  polygon_score-Fine fuel code s td h f = elim (Bool-cases (eq_ℤ code (pos 7))) [
    | inl b ↦ rw b (read_points-Short fuel s h, f)
    | inr b ↦
        rw b (elim (Bool-cases (ltb_ℤ code (pos 50))) [ inl c ↦ rw c (h, f) | inr c ↦ rw c (h, f) ])
  ]

  wrong_if :
      (b : Bool) (td : TestdataResult)
      → Fine td
      → Fine (if b then record td { verdict = wa } else td)
  wrong_if true td f = omega arith
  wrong_if false td f = f

  read_polygon-Ends :
      (fuel : ℕ) (code : ℤ) (s : S) (last : Bool) (td : TestdataResult)
      → size s < fuel
      → Fine td
      → Ends (read_polygon d i fuel code s last td)
  unfolding read_polygon
  read_polygon-Ends fuel code s last td h f =
      let first = set_ac_or_continue last td in
      let (short, g) = polygon_score-Fine fuel code s first h (set_ac_or_continue-Fine last td f) in
      let (s1, td1) = polygon_score d i code s first in
      Ends-if (ltb_ℤ code (pos 50) && (not (eq_ℤ code (pos 0)) && not (eq_ℤ code (pos 7)))) _ _
        (record td { verdict = wa }, refl, omega arith)
        (overrides_if_good-Ends fuel s1
          (if ltb_ℤ td1.score full_score then record td1 { verdict = wa } else td1) short
          (wrong_if (ltb_ℤ td1.score full_score) td1 g))

  kattis_accepts-Fine :
      (files : KattisFiles d i) (last : Bool) (td : TestdataResult)
      → Fine td
      → Fine (kattis_accepts d i files last td)
  unfolding kattis_accepts
  kattis_accepts-Fine files last td f =
      let passed = set_ac_or_continue last td in
      let first : TestdataResult =
        if not last && not files.nextpass then record passed { verdict = ac } else passed in
      let fine : Fine first = elim (Bool-cases (not last && not files.nextpass)) [
        | inl b ↦ rw b (omega arith)
        | inr b ↦ rw b (set_ac_or_continue-Fine last td f)
      ] in
      scored-Fine (read_real d i files.score) _
        (scored-Fine (times_100 d i (read_real d i files.score_multiplier)) first fine)

  answer-Fine :
      (b : Bool) (files : KattisFiles d i) (last : Bool) (td : TestdataResult)
      → Fine td
      → Fine (if b then kattis_accepts d i files last td else record td { verdict = wa })
  answer-Fine true files last td f = kattis_accepts-Fine files last td f
  answer-Fine false files last td f = omega arith

  told_team-Fine : (t : Option (List ℕ)) (td : TestdataResult) → Fine td → Fine (told_team d i t td)
  told_team-Fine none td f = f
  told_team-Fine (some text) td f = f

  kattis_overrides-Ends :
      (fuel : ℕ) (s : Option S) (td : TestdataResult)
      → Short fuel s
      → Fine td
      → Ends (kattis_overrides d i fuel s td)
  kattis_overrides-Ends fuel none td h f = (td, refl, f)
  kattis_overrides-Ends fuel (some s) td h f =
      parse_overrides-Fine d i laws true false fuel false s td h f

  read_kattis-Ends :
      (fuel : ℕ) (code : ℤ) (files : KattisFiles d i) (last : Bool) (td : TestdataResult)
      → Short fuel files.judgemessage
      → Fine td
      → Ends (read_kattis d i fuel code files last td)
  unfolding read_kattis
  read_kattis-Ends fuel code files last td h f =
      kattis_overrides-Ends fuel files.judgemessage _ h
        (told_team-Fine files.teammessage _ (answer-Fine (eq_ℤ code (pos 42)) files last td f))

  read_doc-Ends :
      (doc : Option (JudgeDoc d)) (td : TestdataResult)
      → Fine td
      → Ends (some (read_doc d i doc td))
  read_doc-Ends none td f = (td, refl, f)
  read_doc-Ends (some doc) td f = (read_new d i doc td, refl, read_new-Fine doc td f)

  read_kind-Ends :
      (fuel : ℕ) (kind : SpecjudgeType) (code : ℤ) (s : S) (files : JudgeFiles d i) (last : Bool)
      (td : TestdataResult)
      → size s < fuel
      → Short fuel files.kattis.judgemessage
      → Fine td
      → Ends (read_kind d i fuel kind code s files last td)
  unfolding read_kind
  read_kind-Ends fuel specjudge_old code s files last td h k f = read_old-Ends fuel s last td h f
  read_kind-Ends fuel specjudge_polygon code s files last td h k f =
      read_polygon-Ends fuel code s last td h f
  read_kind-Ends fuel specjudge_kattis code s files last td h k f =
      read_kattis-Ends fuel code files.kattis last td k f
  read_kind-Ends fuel normal code s files last td h k f = read_doc-Ends files.doc td f
  read_kind-Ends fuel specjudge_new code s files last td h k f = read_doc-Ends files.doc td f
  read_kind-Ends fuel skip code s files last td h k f = read_doc-Ends files.doc td f

  judge_failed-Ends :
      (sub : Submission) (td : TestdataResult) → Fine td → Ends (some (judge_failed d i sub td))
  judge_failed-Ends sub td f = (
    judge_failed d i sub td,
    refl,
    (elim (Bool-cases (rank td.verdict == 0)) [
      | inl b ↦ rw b (elim (Bool-cases sub.specjudge_re_as_wa) [
        | inl c ↦ rw c (omega arith)
        | inr c ↦ rw c (omega arith)
      ])
      | inr b ↦ rw b f
    ]),
  )

  -- With fuel above the lengths of the judge's files, the answer of a judge of any kind is read to the
  -- end, whatever the files hold, and a verdict below CE stays below CE.
  pub read_specjudge-Ends :
      (fuel : ℕ) (sub : Submission) (info : CjailResult) (last : Bool) (files : JudgeFiles d i)
      (td : TestdataResult)
      → Short fuel files.output
      → Short fuel files.kattis.judgemessage
      → Fine td
      → Ends (read_specjudge d i fuel sub info last files td)
  unfolding read_specjudge
  read_specjudge-Ends fuel sub info last files td h k f = elim (Option-cases files.output) [
    | inl e ↦ rw (e, read_specjudge) (judge_failed-Ends sub td f)
    | inr (s, e) ↦
        rw (e, read_specjudge)
          (Ends-if
            (not (eq_ℤ info.si_code cld_exited)
              || failed_code d i sub.specjudge_type info.si_status)
            _ _ (judge_failed-Ends sub td f)
            (read_kind-Ends fuel sub.specjudge_type info.si_status s files last td (rw e at h) k f))
  ]
