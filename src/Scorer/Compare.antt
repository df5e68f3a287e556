-- ===== src/Scorer/Compare.antt =====
-- `LineCompare` of tools/default-scoring.cpp against the description that it is meant to meet.
use tioj_judge.Base.{
  ◌≡◌, ◌↔◌, refl, ◌∙◌, sym, Bool, true, false, ◌&&◌, List, [], ◌∷◌, if◌then◌else◌, arith, ==_iff,
  map,
}
use tioj_judge.Scorer.{
  Bytes, bytes_eq, is_nil, strip, is_blank, lines, all_blank, compare_lines, line_compare,
}

pub bytes_eq-eq : (a b : Bytes) → (bytes_eq a b ≡ true) ↔ (a ≡ b)
unfolding bytes_eq
bytes_eq-eq [] [] = (λ h. refl, λ h. refl)
bytes_eq-eq [] (b ∷ ys) = (λ h. cc, λ h. cc)
bytes_eq-eq (a ∷ xs) [] = (λ h. cc, λ h. cc)
bytes_eq-eq (a ∷ xs) (b ∷ ys) = ground (arith, ==_iff a b, bytes_eq-eq xs ys)

-- A line is blank exactly when nothing is left of it.
is_blank-strip : (l : Bytes) → is_blank l ≡ is_nil (strip l)
unfolding is_blank strip
is_blank-strip [] = refl
is_blank-strip (c ∷ cs) = ground (arith, is_blank-strip cs)

abbrev pub no_line : List Bytes → Bool
no_line [] = true
no_line (l ∷ ls) = false

-- The lines without the blank ones at the end.
unfoldable pub trim_end : List Bytes → List Bytes
trim_end [] = []
trim_end (l ∷ ls) = let rest = trim_end ls in if no_line rest && is_nil l then [] else l ∷ rest

all_blank-trim_end : (ls : List Bytes) → all_blank ls ≡ no_line (trim_end (map strip ls))
unfolding all_blank trim_end
all_blank-trim_end [] = refl
all_blank-trim_end (l ∷ ls) = ground (arith, is_blank-strip l, all_blank-trim_end ls)

no_line-eq : (ls : List Bytes) → (no_line ls ≡ true) ↔ (ls ≡ [])
no_line-eq [] = (λ h. refl, λ h. refl)
no_line-eq (l ∷ ls) = (λ h. cc, λ h. cc)

-- One more line on each side.
trim_cons :
    (s t : Bytes) (ss ts : List Bytes)
    → (trim_end (s ∷ ss) ≡ trim_end (t ∷ ts)) ↔ ((s ≡ t) × (trim_end ss ≡ trim_end ts))
unfolding trim_end
trim_cons s t ss ts = ground arith

none_left : (ls : List Bytes) → (all_blank ls ≡ true) ↔ (trim_end (map strip ls) ≡ trim_end [])
unfolding trim_end
none_left ls =
    let (to, from) = no_line-eq (trim_end (map strip ls)) in
    (λ e. to (sym (all_blank-trim_end ls) ∙ e), λ e. all_blank-trim_end ls ∙ from e)

compare_lines-trim_end :
    (ss ts : List Bytes)
    → (compare_lines true true ss ts ≡ true) ↔ (trim_end (map strip ss) ≡ trim_end (map strip ts))
unfolding compare_lines all_blank
compare_lines-trim_end [] [] = (λ h. refl, λ h. refl)
compare_lines-trim_end [] (t ∷ ts) =
    let (to, from) = none_left (t ∷ ts) in (λ e. sym (to e), λ e. from (sym e))
compare_lines-trim_end (s ∷ ss) [] = none_left (s ∷ ss)
compare_lines-trim_end (s ∷ ss) (t ∷ ts) = ground (
  arith,
  bytes_eq-eq (strip s) (strip t),
  compare_lines-trim_end ss ts,
  trim_cons (strip s) (strip t) (map strip ss) (map strip ts),
)

-- `LineCompare` accepts exactly the files whose lines, without white space at their ends and without
-- the empty lines at the end of the file, are the same.
pub line_compare-trim_end :
    (ans usr : Bytes)
    → (line_compare true true ans usr ≡ true
        → trim_end (map strip (lines ans)) ≡ trim_end (map strip (lines usr)))
      × (trim_end (map strip (lines ans)) ≡ trim_end (map strip (lines usr))
          → line_compare true true ans usr ≡ true)
unfolding line_compare
line_compare-trim_end ans usr = compare_lines-trim_end (lines ans) (lines usr)
