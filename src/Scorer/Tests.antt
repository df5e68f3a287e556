-- ===== src/Scorer/Tests.antt =====
-- Two answers that differ in white space only, and one that does not.
use tioj_judge.Base.{◌≡◌, true, [], ◌∷◌, some, map, arith}
use tioj_judge.Scorer.{Bytes, bytes_eq, strip, lines, line_compare, strict_compare}
use tioj_judge.Scorer.Compare.{trim_end, line_compare-trim_end}
use tioj_judge.Scorer.Words.{word_compare}
use tioj_judge.Scorer.Split.{words, all_lines, word_compare-all_lines}
use tioj_judge.Scorer.Strict.{strict_compare-bytes_eq}

-- "4 \n\n" and "4"
abbrev spaced : Bytes
spaced = 52 ∷ 32 ∷ 10 ∷ 10 ∷ []

abbrev plain : Bytes
plain = 52 ∷ []

line_compare-trim_end_example :
    (line_compare true true spaced plain ≡ true
      → trim_end (map strip (lines spaced)) ≡ trim_end (map strip (lines plain)))
    × (trim_end (map strip (lines spaced)) ≡ trim_end (map strip (lines plain))
        → line_compare true true spaced plain ≡ true)
line_compare-trim_end_example = line_compare-trim_end spaced plain

strict_compare-bytes_eq_example : strict_compare 2 5 spaced spaced ≡ some (bytes_eq spaced spaced)
strict_compare-bytes_eq_example =
    strict_compare-bytes_eq 2 5 spaced spaced (omega arith) (omega arith)

word_compare-all_lines_example :
    word_compare bytes_eq spaced plain
    ≡ some (all_lines bytes_eq (map words (lines spaced)) (map words (lines plain)))
word_compare-all_lines_example = word_compare-all_lines bytes_eq spaced plain
