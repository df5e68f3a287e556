-- ===== src/Scorer.antt =====
-- The default judge, tools/default-scoring.cpp: `LineCompare` and `StrictCompare` on files that opened.
-- The messages of the verbose mode are left out.
pub mod Compare
pub mod Strict
pub mod Words
pub mod Split
mod Tests
use tioj_judge.Base.{
  ℕ, zero, suc, ◌+◌, Bool, true, false, not, ◌&&◌, ◌||◌, List, [], ◌∷◌, Option, none, some, ltb,
  ◌==◌, if◌then◌else◌, length, take, drop,
}

abbrev pub Bytes : Type 0
Bytes = List ℕ

-- Equality of strings, and of the bytes of two buffers.
unfoldable pub bytes_eq : Bytes → Bytes → Bool
bytes_eq [] [] = true
bytes_eq (a ∷ xs) (b ∷ ys) = a == b && bytes_eq xs ys
bytes_eq _ _ = false

abbrev pub is_nil : Bytes → Bool
is_nil [] = true
is_nil (c ∷ cs) = false

-- kWhites of `LineCompare`: space, line feed, carriage return, tab.
abbrev pub is_white : ℕ → Bool
is_white c = c == 32 || (c == 10 || (c == 13 || c == 9))

-- s.erase(s.find_last_not_of(kWhites) + 1)
unfoldable pub strip : Bytes → Bytes
strip [] = []
strip (c ∷ cs) = let rest = strip cs in if is_nil rest && is_white c then [] else c ∷ rest

-- s.find_last_not_of(kWhites) == npos
unfoldable pub is_blank : Bytes → Bool
is_blank [] = true
is_blank (c ∷ cs) = is_white c && is_blank cs

abbrev pub add_to_first : ℕ → List Bytes → List Bytes
add_to_first c [] = (c ∷ []) ∷ []
add_to_first c (l ∷ ls) = (c ∷ l) ∷ ls

-- What the calls of `getline` give up to the end of the file: one more line than there are line feeds.
-- `eof` holds when no line is left.
unfoldable pub lines : Bytes → List Bytes
lines [] = [] ∷ []
lines (c ∷ cs) = if c == 10 then [] ∷ lines cs else add_to_first c (lines cs)

-- The loop over the lines that only one file has left.
unfoldable pub all_blank : List Bytes → Bool
unfolding is_blank
all_blank [] = true
all_blank (l ∷ ls) = is_blank l && all_blank ls

abbrev pub seen : Bool → Bytes → Bytes
seen strip_tail s = if strip_tail then strip s else s

-- The two loops of `LineCompare`, on the lines that are left.
unfoldable pub compare_lines : Bool → Bool → List Bytes → List Bytes → Bool
unfolding bytes_eq strip all_blank
compare_lines strip_tail ignore_tail [] [] = true
compare_lines strip_tail ignore_tail (s ∷ ss) (t ∷ ts) =
    bytes_eq (seen strip_tail s) (seen strip_tail t) && compare_lines strip_tail ignore_tail ss ts
compare_lines strip_tail ignore_tail [] (t ∷ ts) = ignore_tail && all_blank (t ∷ ts)
compare_lines strip_tail ignore_tail (s ∷ ss) [] = ignore_tail && all_blank (s ∷ ss)

-- LineCompare
unfoldable pub line_compare : Bool → Bool → Bytes → Bytes → Bool
unfolding compare_lines lines
line_compare strip_tail ignore_tail ans usr =
    compare_lines strip_tail ignore_tail (lines ans) (lines usr)

abbrev pub same_bool : Bool → Bool → Bool
same_bool true b = b
same_bool false b = not b

-- StrictCompare, for buffers of `size` bytes (kBufSize) and on fuel: a read of fewer bytes than the
-- buffer holds sets `eof`.
unfoldable pub strict_compare : ℕ → ℕ → Bytes → Bytes → Option Bool
unfolding bytes_eq
strict_compare size zero ans usr = none
strict_compare size (suc fuel) ans usr =
    let rest = strict_compare size fuel (drop size ans) (drop size usr) in
    if not (same_bool (ltb (length ans) size) (ltb (length usr) size))
      || not (length (take size ans) == length (take size usr))
    then some false
    else if not (bytes_eq (take size ans) (take size usr))
    then some false
    else if ltb (length ans) size
    then some true
    else rest
