-- ===== src/Scorer/Words.antt =====
-- The comparisons by words of tools/default-scoring.cpp: `WordCompare`, and `main` with its arguments and
-- the choice of the comparison. `long double` and `std::stold` are parameters; main's files opened.
use Prim.Native.String.{String}
use tioj_judge.Base.{
  ℕ, zero, suc, Bool, true, false, not, ◌&&◌, ◌||◌, List, [], ◌∷◌, Option, none, some, ◌==◌,
  if◌then◌else◌, length,
}
use tioj_judge.Base.Partial.{◌>>=◌}
use tioj_judge.Base.Text.{str_eq}
use tioj_judge.Scorer.{Bytes, bytes_eq, is_nil, lines, same_bool, line_compare, strict_compare}

-- kWhites of `WordCompare`: space, line feed, carriage return, the tabs and form feed.
abbrev pub is_space : ℕ → Bool
is_space c = c == 32 || (c == 10 || (c == 13 || (c == 9 || (c == 11 || c == 12))))

-- What is left from the first character of a word on, and from the end of that word on.
unfoldable pub skip_spaces : Bytes → Bytes
skip_spaces [] = []
skip_spaces (c ∷ cs) = if is_space c then skip_spaces cs else c ∷ cs

unfoldable pub first_word : Bytes → Bytes
first_word [] = []
first_word (c ∷ cs) = if is_space c then [] else c ∷ first_word cs

unfoldable pub after_word : Bytes → Bytes
after_word [] = []
after_word (c ∷ cs) = if is_space c then c ∷ cs else after_word cs

-- The inner loop of `WordCompare`, on fuel; `f` is `func`.
unfoldable pub compare_words : (Bytes → Bytes → Bool) → ℕ → Bytes → Bytes → Option Bool
unfolding skip_spaces first_word after_word
compare_words f zero s t = none
compare_words f (suc fuel) s t =
    let s' = skip_spaces s in
    let t' = skip_spaces t in
    let rest = compare_words f fuel (after_word s') (after_word t') in
    if not (same_bool (is_nil s') (is_nil t'))
    then some false
    else if is_nil s'
    then some true
    else if not (f (first_word s') (first_word t'))
    then some false
    else rest

-- The loop over the lines that only one file has left.
unfoldable pub no_words : List Bytes → Bool
unfolding skip_spaces
no_words [] = true
no_words (l ∷ ls) = is_nil (skip_spaces l) && no_words ls

-- The outer loops of `WordCompare`; each round of the inner loop takes a character of the answer's line.
unfoldable pub compare_word_lines : (Bytes → Bytes → Bool) → List Bytes → List Bytes → Option Bool
unfolding compare_words no_words
compare_word_lines f [] [] = some true
compare_word_lines f [] (t ∷ ts) = some (no_words (t ∷ ts))
compare_word_lines f (s ∷ ss) [] = some (no_words (s ∷ ss))
compare_word_lines f (s ∷ ss) (t ∷ ts) = do
  same ← compare_words f (suc (length s)) s t
  rest ← compare_word_lines f ss ts
  some (same && rest)

-- WordCompare
unfoldable pub word_compare : (Bytes → Bytes → Bool) → Bytes → Bytes → Option Bool
unfolding compare_word_lines lines
word_compare f ans usr = compare_word_lines f (lines ans) (lines usr)

-- `long double`, and what main does with it.
pub record Reals : Type 1 where
  pub F : Type 0
  pub stold : Bytes → Option F
  pub to_double : F → F
  pub one : F
  pub fabs : F → F
  pub sub : F → F → F
  pub mul : F → F → F
  pub max : F → F → F
  pub le : F → F → Bool

-- A character of ".eExXnN".
abbrev pub is_real_char : ℕ → Bool
is_real_char c =
    c == 46 || (c == 101 || (c == 69 || (c == 120 || (c == 88 || (c == 110 || c == 78)))))

unfoldable pub looks_real : Bytes → Bool
looks_real [] = false
looks_real (c ∷ cs) = is_real_char c || looks_real cs

module _ (r : Reals) where
  open r use {F, stold, to_double, one, fabs, sub, mul, max, le}

  pub record Args : Type 0 where
    pub verbose : Bool
    pub type : String
    pub subtype : String
    pub threshold : F

  -- The threshold that follows the kind of comparison of numbers.
  abbrev pub with_threshold : Option F → Args → Args
  with_threshold none a = a
  with_threshold (some x) a = record a { threshold = to_double x }

  abbrev pub is_given : Option F → Bool
  is_given none = false
  is_given (some x) = true

  -- The loop over the arguments; `bytes` are those of an argument.
  unfoldable pub parse_args : (String → Bytes) → List String → Args → Args
  parse_args bytes [] a = a
  parse_args bytes (str ∷ []) a =
      if str_eq str "verbose" then record a { verbose = true } else record a { type = str }
  parse_args bytes (str ∷ kind ∷ []) a =
      let plain = parse_args bytes (kind ∷ []) in
      if str_eq str "verbose"
      then plain (record a { verbose = true })
      else if str_eq str "float-diff"
      then record a { type = str; subtype = kind }
      else plain (record a { type = str })
  parse_args bytes (str ∷ kind ∷ number ∷ args) a =
      let plain = parse_args bytes (kind ∷ number ∷ args) in
      let after_kind = parse_args bytes (number ∷ args) in
      let after_number = parse_args bytes args in
      let set = record a { type = str; subtype = kind } in
      if str_eq str "verbose"
      then plain (record a { verbose = true })
      else if str_eq str "float-diff"
      then (if is_given (stold (bytes number))
          then after_number (with_threshold (stold (bytes number)) set)
          else after_kind set)
      else plain (record a { type = str })

  abbrev pub default_args : F → Args
  default_args threshold = record {
    verbose = false;
    type = "line";
    subtype = "absolute-relative";
    threshold = threshold;
  }

  -- `check`: words that are no numbers, or an answer that is an integer, must be the same.
  abbrev pub check_parsed : (F → F → Bool) → Bytes → Bytes → Option F → Option F → Bool
  check_parsed f ans usr (some a) (some u) = if looks_real ans then f a u else bytes_eq ans usr
  check_parsed f ans usr _ _ = bytes_eq ans usr

  abbrev pub check : (F → F → Bool) → Bytes → Bytes → Bool
  check f ans usr = check_parsed f ans usr (stold ans) (stold usr)

  unfoldable pub float_compare : String → F → Bytes → Bytes → Option Bool
  unfolding word_compare looks_real bytes_eq
  float_compare subtype threshold ans usr =
      if str_eq subtype "absolute"
      then word_compare (check (λ a u. le (fabs (sub a u)) threshold)) ans usr
      else if str_eq subtype "relative"
      then word_compare (check (λ a u. le (fabs (sub a u)) (mul threshold (fabs a)))) ans usr
      else if str_eq subtype "absolute-relative"
      then word_compare (check (λ a u. le (fabs (sub a u)) (mul threshold (max one (fabs a))))) ans
          usr
      else some false

  -- The choice of main, with buffers of `size` bytes and fuel for StrictCompare.
  unfoldable pub choose_compare : (size fuel : ℕ) → Args → Bytes → Bytes → Option Bool
  unfolding strict_compare line_compare word_compare float_compare bytes_eq
  choose_compare size fuel a ans usr =
      if str_eq a.type "strict"
      then strict_compare size fuel ans usr
      else if str_eq a.type "line"
      then some (line_compare true true ans usr)
      else if str_eq a.type "white-diff"
      then word_compare bytes_eq ans usr
      else if str_eq a.type "float-diff"
      then float_compare a.subtype a.threshold ans usr
      else some false
