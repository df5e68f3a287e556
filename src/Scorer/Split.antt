-- ===== src/Scorer/Split.antt =====
-- `WordCompare` of tools/default-scoring.cpp against a description by the words of each line.
use tioj_judge.Base.{
  ℕ, zero, suc, ◌≤◌, ◌<◌, ◌≡◌, ◌⊎◌, ◌∙◌, refl, sym, ap, inl, inr, Bool, true, false, not, ◌&&◌,
  List, [], ◌∷◌, Option, some, arith, if◌then◌else◌, Bool-cases, length, map,
}
use tioj_judge.Scorer.{Bytes, lines, add_to_first}
use tioj_judge.Scorer.Words.{
  is_space, skip_spaces, first_word, after_word, compare_words, no_words, compare_word_lines,
  word_compare,
}

abbrev starts_space : Bytes → Bool
starts_space [] = true
starts_space (c ∷ cs) = is_space c

-- The words of a line.
unfoldable pub words : Bytes → List Bytes
words [] = []
words (c ∷ cs) =
    if is_space c
    then words cs
    else (if starts_space cs then (c ∷ []) ∷ words cs else add_to_first c (words cs))

-- The same number of words, each accepted.
unfoldable pub all_words : (Bytes → Bytes → Bool) → List Bytes → List Bytes → Bool
all_words f [] [] = true
all_words f (a ∷ vs) (b ∷ ws) = f a b && all_words f vs ws
all_words f _ _ = false

abbrev pub no_word : List Bytes → Bool
no_word [] = true
no_word (w ∷ ws) = false

unfoldable pub empty_lines : List (List Bytes) → Bool
empty_lines [] = true
empty_lines (l ∷ ls) = no_word l && empty_lines ls

-- The lines of both files in turn, and no words in those that one file has left.
unfoldable pub all_lines : (Bytes → Bytes → Bool) → List (List Bytes) → List (List Bytes) → Bool
unfolding all_words empty_lines
all_lines f [] ts = empty_lines ts
all_lines f ss [] = empty_lines ss
all_lines f (s ∷ ss) (t ∷ ts) = all_words f s t && all_lines f ss ts

words-skip_spaces : (s : Bytes) → words (skip_spaces s) ≡ words s
unfolding words skip_spaces
words-skip_spaces [] = refl
words-skip_spaces (c ∷ cs) = elim (Bool-cases (is_space c)) [
  | inl b ↦ rw (b) (words-skip_spaces cs)
  | inr b ↦ rw (b) (rw b refl)
]

words_step :
    (c : ℕ) (cs : Bytes)
    → is_space c ≡ false
    → words (c ∷ cs) ≡ first_word (c ∷ cs) ∷ words (after_word (c ∷ cs))
unfolding words first_word after_word
words_step c [] b = rw b refl
words_step c (d ∷ ds) b = elim (Bool-cases (is_space d)) [
  | inl e ↦ rw (b, e) (rw e refl)
  | inr e ↦ rw (b, e) (ap (add_to_first c) (rw e at (words_step d ds e)))
]

-- What skipping leaves starts with a word, if it is not empty.
skip_spaces-cases :
    (s : Bytes)
    → (skip_spaces s ≡ [])
      ⊎ ((c : ℕ) × (cs : Bytes) × (skip_spaces s ≡ c ∷ cs)
          × (is_space c ≡ false)
          × (length cs < length s))
unfolding skip_spaces
skip_spaces-cases [] = inl refl
skip_spaces-cases (c ∷ cs) = elim (Bool-cases (is_space c)) [
  | inl b ↦ elim (skip_spaces-cases cs) [
    | inl e ↦ inl (rw b e)
    | inr (d, ds, e, n, l) ↦ inr (d, ds, rw b e, n, omega (arith, l))
  ]
  | inr b ↦ inr (c, cs, rw b refl, b, omega arith)
]

length-after_word : (s : Bytes) → length (after_word s) ≤ length s
unfolding after_word
length-after_word [] = omega arith
length-after_word (c ∷ cs) = ground (arith, length-after_word cs)

after_word_step :
    (c : ℕ) (cs : Bytes) → is_space c ≡ false → length (after_word (c ∷ cs)) ≤ length cs
unfolding after_word
after_word_step c cs b = rw b (length-after_word cs)

words_none : (s : Bytes) → skip_spaces s ≡ [] → words s ≡ []
unfolding words
words_none s e = sym (words-skip_spaces s) ∙ ap words e

words_some :
    (s : Bytes) (c : ℕ) (cs : Bytes)
    → skip_spaces s ≡ c ∷ cs
    → is_space c ≡ false
    → words s ≡ first_word (c ∷ cs) ∷ words (after_word (c ∷ cs))
words_some s c cs e n = sym (words-skip_spaces s) ∙ ap words e ∙ words_step c cs n

-- One word on each side.
both_words :
    (f : Bytes → Bytes → Bool) (v w : Bytes) (vs ws : List Bytes) (o : Option Bool)
    → o ≡ some (all_words f vs ws)
    → (if not (f v w) then some false else o) ≡ some (f v w && all_words f vs ws)
both_words f v w vs ws o e = elim (Bool-cases (f v w)) [ inl b ↦ rw b e | inr b ↦ rw b refl ]

compare_words-all_words :
    (f : Bytes → Bytes → Bool) (fuel : ℕ) (s t : Bytes)
    → length s < fuel
    → compare_words f fuel s t ≡ some (all_words f (words s) (words t))
unfolding compare_words all_words
compare_words-all_words f zero s t h = absurd (omega arith)
compare_words-all_words f (suc fuel) s t h = elim (skip_spaces-cases s) [
  | inl e ↦ elim (skip_spaces-cases t) [
    | inl e' ↦ rw (e, e', words_none s e, words_none t e') refl
    | inr (d, ds, e', n', l') ↦ rw (e, e', words_none s e, words_some t d ds e' n') refl
  ]
  | inr (c, cs, e, n, l) ↦ elim (skip_spaces-cases t) [
    | inl e' ↦ rw (e, e', words_some s c cs e n, words_none t e') refl
    | inr (d, ds, e', n', l') ↦
        let shorter = after_word_step c cs n in
        rw (e, e', words_some s c cs e n, words_some t d ds e' n')
          (both_words f (first_word (c ∷ cs)) (first_word (d ∷ ds)) (words (after_word (c ∷ cs)))
            (words (after_word (d ∷ ds))) _
            (compare_words-all_words f fuel (after_word (c ∷ cs)) (after_word (d ∷ ds))
              (omega arith)))
  ]
]

no_words-empty_lines : (ls : List Bytes) → no_words ls ≡ empty_lines (map words ls)
unfolding no_words empty_lines
no_words-empty_lines [] = refl
no_words-empty_lines (l ∷ ls) =
    let rest = no_words-empty_lines ls in
    elim (skip_spaces-cases l) [
      | inl e ↦ rw (e, words_none l e) rest
      | inr (c, cs, e, n, h) ↦ rw (e, words_some l c cs e n) refl
    ]

compare_word_lines-all_lines :
    (f : Bytes → Bytes → Bool) (ss ts : List Bytes)
    → compare_word_lines f ss ts ≡ some (all_lines f (map words ss) (map words ts))
unfolding compare_word_lines all_lines empty_lines no_words
compare_word_lines-all_lines f [] [] = refl
compare_word_lines-all_lines f [] (t ∷ ts) = ap some (no_words-empty_lines (t ∷ ts))
compare_word_lines-all_lines f (s ∷ ss) [] = ap some (no_words-empty_lines (s ∷ ss))
compare_word_lines-all_lines f (s ∷ ss) (t ∷ ts) =
    rw
      (
        compare_words-all_words f (suc (length s)) s t (omega arith),
        compare_word_lines-all_lines f ss ts,
      )
      refl

-- WordCompare ends, for any test of words, and accepts exactly the files whose lines, in turn, have the
-- same number of words and pass the test word by word, and of whose lines those that only one file has left
-- have no words.
pub word_compare-all_lines :
    (f : Bytes → Bytes → Bool) (ans usr : Bytes)
    → word_compare f ans usr ≡ some (all_lines f (map words (lines ans)) (map words (lines usr)))
unfolding word_compare
word_compare-all_lines f ans usr = compare_word_lines-all_lines f (lines ans) (lines usr)
