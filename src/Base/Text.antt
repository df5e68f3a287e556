-- ===== src/Base/Text.antt =====
-- Comparison of texts, and a search in a table of names.
use Prim.Native.String.{String, [], ◌∷◌}
use Prim.Native.Char.{code}
use text.Mathlib.Text
use text.Mathlib.TextEquality.{eq_iff}
use tioj_judge.Base.{ℕ, ◌≡◌, ◌↔◌, Bool, true, List}
use mathlib.Core.List.{[] as nil, ◌∷◌ as cons}

abbrev pub str_eq : String → String → Bool
str_eq s t = Text.◌==◌ s t

pub str_eq_iff : (s t : String) → (str_eq s t ≡ true) ↔ (s ≡ t)
str_eq_iff s t = eq_iff s t

-- The characters of a literal, which are its bytes.
unfoldable pub chars : String → List ℕ
chars [] = nil
chars (c ∷ s) = cons (code c) (chars s)
