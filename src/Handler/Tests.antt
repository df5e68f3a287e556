-- ===== src/Handler/Tests.antt =====
-- A run, its judge and its score. Files are lists of words and numbers, and a `long double` is an
-- integer.
use Prim.Native.String.{String}
use tioj_judge.Base.{
  ℕ, All, ◌↔◌, ◌||◌, ◌++◌, ◌/◌, ◌%◌, ◌<◌, ◌≤◌, ◌≡◌, ◌≢◌, ◌⊎◌, refl, true, false, List, [], ◌∷◌,
  Option, none, some, arith, length, get_elem?, get_or,
}
use tioj_judge.Base.Int.{ℤ, pos, negsuc, ◌≤ℤ◌, ltb_ℤ, ◌*ℤ◌}
use tioj_judge.Verdict.{Verdict, nul, ac, wa, rank, gcc_cpp_17, jre}
use tioj_judge.Order.{has_group}
use tioj_judge.Submission.{
  Submission, TestdataItem, CjailResult, TestdataResult, SubmissionResult, specjudge_old, skip,
  no_interlib, no_summary,
}
use tioj_judge.Handler.{LongDouble, Cancelled, lookup, is_cancelled, cancel_groups, normalize_score}
use tioj_judge.Paths.{Name}
use tioj_judge.Paths.Numbers.{value_from, IsDigit}
use tioj_judge.Handler.Meta.{score_to_string}
use tioj_judge.Handler.Meta.Scores.{score_to_string-value_from}
use tioj_judge.Handler.Score.{LongDoubleLaws, normalize_score-le}
use tioj_judge.Handler.Cancel.{in_some, is_cancelled-cancel_groups}
use tioj_judge.Handler.Execute.{execute_verdict, execute_result, finalize_execute, new_result}
use tioj_judge.Handler.Execute.Verdicts.{Clean, execute_verdict-nul}
use tioj_judge.Handler.Execute.Results.{
  result_at, finalize_execute_lem, add_stages, add_stages_lem, total_time, largest,
}
use tioj_judge.Handler.Summary.{Totals, sum_results, summary_verdict, inf_score}
use tioj_judge.Handler.Summary.Overall.{AtMost, Reached, summary_verdict_lem}
use tioj_judge.Handler.Summary.Groups.{sum_results_lem, least, counted_time, counted_memory}
use tioj_judge.Handler.Specjudge.{Istream, parse_overrides}
use tioj_judge.Handler.Specjudge.Overrides.{Fine, IstreamLaws, parse_overrides-Fine}
use tioj_judge.Handler.Judges.{JudgeFiles, read_specjudge}
use tioj_judge.Handler.Judges.Verdicts.{read_specjudge-Ends, Ends}
use tioj_judge.Handler.Scoring.{Scored, Setup, settled, finalize_scoring, setup_scoring}
use tioj_judge.Handler.Scoring.Outcome.{Settled, finalize_scoring-Settled, setup_scoring-skip}

abbrev whole : LongDouble
whole = record {
  F = ℤ;
  of_int = λ z. z;
  lt = ltb_ℤ;
  mul = λ a b. a *ℤ b;
  div = λ a b. a;
  lround = λ z. z;
}

scale_le : (x y : ℤ) → ltb_ℤ y x ≡ false → ltb_ℤ (y *ℤ pos 1000000) (x *ℤ pos 1000000) ≡ false
unfolding ◌*ℤ◌
scale_le x y h = ground arith

whole-Laws : LongDoubleLaws whole
unfolding ◌*ℤ◌
whole-Laws = record {
  IsNumber = λ z. z ≡ z;
  of_int_number = λ z h. refl;
  lt_irrefl = λ x. ground arith;
  of_int_lt = λ a b h k. refl;
  mul_le = λ x y p q h. (scale_le x y h, refl, refl);
  top_product = refl;
  bottom_product = refl;
  lround_of_int = λ z h. refl;
  lround_le = λ x y p q l h m. ground arith;
}

normalize_score-le_example :
    (normalize_score whole (pos 7000000) ≤ℤ pos 1000000000000)
    × (negsuc 999999999999 ≤ℤ normalize_score whole (pos 7000000))
unfolding whole-Laws
normalize_score-le_example = normalize_score-le whole whole-Laws (pos 7000000) refl

data Token : Type 0 where
  text : String → Token
  number : ℤ → Token

abbrev next_word : List Token → Option (String × List Token)
next_word (text w ∷ ts) = some (w, ts)
next_word _ = none

abbrev next_number : List Token → Option (ℤ × List Token)
next_number (number z ∷ ts) = some (z, ts)
next_number _ = none

abbrev tokens : Istream whole
tokens = record {
  S = List Token;
  word = next_word;
  int = next_number;
  long = next_number;
  real = next_number;
  real_left = λ s. pos 0;
}

word_shorter : (s s' : List Token) (w : String) → next_word s ≡ some (w, s') → length s' < length s
word_shorter [] s' w e = cc
word_shorter (text v ∷ ts) s' w e = let same : ts ≡ s' = cc in rw (← same) (omega arith)
word_shorter (number z ∷ ts) s' w e = cc

number_shorter : (s s' : List Token) (x : ℤ) → next_number s ≡ some (x, s') → length s' ≤ length s
number_shorter [] s' x e = cc
number_shorter (text v ∷ ts) s' x e = cc
number_shorter (number z ∷ ts) s' x e = let same : ts ≡ s' = cc in rw (← same) (omega arith)

tokens-Laws : IstreamLaws whole tokens
tokens-Laws = record {
  size = length;
  word_lt = word_shorter;
  int_le = number_shorter;
  long_le = number_shorter;
  real_le = number_shorter;
}

abbrev item : List ℕ → TestdataItem
item groups = record {
  vss = pos 65536;
  rss = pos 0;
  output = pos 1024;
  time = pos 1000000;
  ignore_verdict = false;
  td_groups = groups;
}

abbrev pub sub : Submission
sub = record {
  submission_internal_id = 7;
  submission_id = 70;
  contest_id = 0;
  priority = pos 5;
  submission_time = pos 0;
  submitter_id = 1;
  submitter_name = "a";
  submitter_nickname = "b";
  lang = gcc_cpp_17;
  problem_id = 3;
  specjudge_type = specjudge_old;
  interlib_type = no_interlib;
  summary_type = no_summary;
  specjudge_lang = gcc_cpp_17;
  summary_lang = gcc_cpp_17;
  problem_prog_lang = gcc_cpp_17;
  stages = 1;
  problem_prog_stages = [];
  judge_between_stages = false;
  judge_abnormally_terminated = false;
  specjudge_re_as_wa = false;
  sandbox_strict = false;
  process_limit = 1;
  testdata = item (0 ∷ []) ∷ item (0 ∷ 1 ∷ []) ∷ [];
  group_score = pos 40 ∷ pos 60 ∷ [];
  skip_group = true;
  report_intermediate_stage = false;
  remove_submission = true;
}

-- A run that exits, and one that is killed.
abbrev exited : CjailResult
exited = record {
  timekill = pos 0;
  oomkill = pos 0;
  si_code = pos 1;
  si_status = pos 0;
  user_us = pos 400000;
  sys_us = pos 5;
  maxrss = pos 4096;
  hiwater_vm = pos 10000;
}

execute_verdict-nul_example :
    (execute_verdict false (item []) exited new_result ≡ nul → Clean (item []) exited new_result)
    × (Clean (item []) exited new_result → execute_verdict false (item []) exited new_result ≡ nul)
execute_verdict-nul_example = execute_verdict-nul false (item []) exited new_result

finalize_execute_lem_example :
    (rs : List TestdataResult) × (finalize_execute sub 1 0 exited [] ≡ some rs)
    × (1 < length rs)
    × (0 ≤ length rs)
    × (get_elem? rs 1 ≡ some (execute_result false (item (0 ∷ 1 ∷ [])) 0 exited new_result))
    × ((i : ℕ) → i ≢ 1 → result_at rs i ≡ new_result)
finalize_execute_lem_example = finalize_execute_lem sub 1 0 exited [] (item (0 ∷ 1 ∷ [])) refl

add_stages_lem_example :
    ((add_stages 0 (exited ∷ exited ∷ []) new_result).time ≡ total_time (exited ∷ exited ∷ []))
    × ((add_stages 0 (exited ∷ exited ∷ []) new_result).vss
        ≡ largest (pos 10000) (λ s. s.hiwater_vm) (exited ∷ []))
    × ((add_stages 0 (exited ∷ exited ∷ []) new_result).rss
        ≡ largest (pos 4096) (λ s. s.maxrss) (exited ∷ []))
add_stages_lem_example = add_stages_lem exited (exited ∷ []) new_result

abbrev accepted : TestdataResult
accepted = record new_result { verdict = ac; score = pos 100000000 }

abbrev wrong : TestdataResult
wrong = record new_result { verdict = wa; score = pos 30000000 }

abbrev result : SubmissionResult
result = record {
  td_results = accepted ∷ wrong ∷ [];
  verdict = nul;
  total_memory = pos 0;
  total_time = pos 0;
  total_score = pos 0;
  ce_message = "";
  jce_message = "";
}

summary_verdict_lem_example :
    (w : Verdict) × (summary_verdict sub result ≡ some w)
    × (0 < rank nul → w ≡ nul)
    × (rank nul ≡ 0
        → (1 ≤ rank w)
          × AtMost (rank w) sub.testdata result.td_results
          × ((w ≡ ac) ⊎ Reached w sub.testdata result.td_results))
summary_verdict_lem_example = summary_verdict_lem sub result (omega arith)

abbrev zero_totals : Totals
zero_totals = record { memory = pos 0; time = pos 0; subtask_scores = inf_score ∷ inf_score ∷ [] }

sum_results_lem_example :
    (t : Totals) × (sum_results sub.testdata result.td_results zero_totals ≡ some t)
    × (length t.subtask_scores ≡ 2)
    × ((g : ℕ)
        → get_or t.subtask_scores g inf_score
          ≡ least g (get_or zero_totals.subtask_scores g inf_score) sub.testdata result.td_results)
    × (t.time ≡ counted_time sub.testdata result.td_results (pos 0))
    × (t.memory ≡ counted_memory sub.testdata result.td_results (pos 0))
sum_results_lem_example =
    sum_results_lem sub.testdata result.td_results zero_totals (omega arith)
      ((omega arith, tt), ((omega arith, (omega arith, tt)), tt))

abbrev nobody : Cancelled
nobody = record { cancelled_list = []; cancelled_group = [] }

is_cancelled-cancel_groups_example :
    ((id : ℕ) (gs : List ℕ)
      → 7 ≢ id
      → is_cancelled
          (record nobody { cancelled_group = cancel_groups 7 (0 ∷ []) nobody.cancelled_group })
          id
          gs
        ≡ is_cancelled nobody id gs)
    × ((gs : List ℕ)
        → (is_cancelled
              (record nobody { cancelled_group = cancel_groups 7 (0 ∷ []) nobody.cancelled_group })
              7
              gs
            ≡ true)
          ↔ ((has_group 7 nobody.cancelled_list ≡ true)
              ⊎ ((gs ≢ [])
                  × ((x : ℕ)
                      → has_group x gs ≡ true
                      → (has_group x (0 ∷ []) || in_some x (lookup 7 nobody.cancelled_group))
                        ≡ true))))
is_cancelled-cancel_groups_example = is_cancelled-cancel_groups nobody 7 (0 ∷ [])

-- The judge accepts and sets a score, then a verdict.
abbrev answer : List Token
answer =
    number (pos 0)
    ∷ text "SPECJUDGE_OVERRIDE_SCORE"
    ∷ number (pos 50)
    ∷ text "SPECJUDGE_OVERRIDE_VERDICT"
    ∷ text "WA"
    ∷ []

abbrev files : JudgeFiles whole tokens
files = record {
  output = some answer;
  doc = none;
  kattis = record {
    nextpass = false;
    score_multiplier = none;
    score = none;
    teammessage = none;
    judgemessage = none;
  };
}

parse_overrides-Fine_example :
    (td : TestdataResult) × (parse_overrides whole tokens true true 6 false answer new_result
      ≡ some td)
    × Fine td
unfolding tokens-Laws
parse_overrides-Fine_example =
    parse_overrides-Fine whole tokens tokens-Laws true true 6 false answer new_result (omega arith)
      (omega arith)

read_specjudge-Ends_example :
    Ends whole tokens tokens-Laws (read_specjudge whole tokens 6 sub exited true files new_result)
unfolding tokens-Laws
read_specjudge-Ends_example =
    read_specjudge-Ends whole tokens tokens-Laws 6 sub exited true files new_result (omega arith) tt
      (omega arith)

finalize_scoring-Settled_example :
    (s : Scored) × (finalize_scoring whole tokens 6 sub
        (0 ∷ [])
        0
        (some (exited, files))
        nobody
        new_result
      ≡ some s)
    × Settled sub (0 ∷ []) true nobody s
unfolding tokens-Laws
finalize_scoring-Settled_example =
    finalize_scoring-Settled whole tokens tokens-Laws 6 sub (0 ∷ []) 0 (some (exited, files)) nobody
      new_result (omega arith, tt) (omega arith)

abbrev skip_sub : Submission
skip_sub = record sub { specjudge_type = skip }

abbrev skipped_scoring : Setup whole tokens
skipped_scoring = setup_scoring whole tokens 6 skip_sub nul (0 ∷ []) 0 files nobody new_result

setup_scoring-skip_example :
    (s : Scored) × (skipped_scoring ≡ settled (some s))
    × (s.result.verdict ≡ jre)
    × (s.result.score ≡ pos 0)
unfolding is_cancelled
setup_scoring-skip_example =
    setup_scoring-skip whole tokens 6 skip_sub nul (0 ∷ []) 0 files nobody new_result refl refl refl
      refl refl

score_to_string-value_from_example :
    (a : Name) × (b : Name) × (score_to_string (pos 12000345) ≡ some (a ++ (46 ∷ b)))
    × All IsDigit a
    × (value_from 0 a ≡ 12000345 / 1000000)
    × All IsDigit b
    × (length b ≡ 6)
    × (value_from 0 b ≡ 12000345 % 1000000)
score_to_string-value_from_example = score_to_string-value_from 12000345
