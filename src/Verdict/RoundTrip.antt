-- ===== src/Verdict/RoundTrip.antt =====
-- The names of verdicts and compilers read back: `AbrToVerdict` and `GetCompiler` of
-- src/tioj/utils.cpp.
use Prim.Native.String.{String}
use tioj_judge.Base.{
  ◌<◌, ◌≡◌, refl, ◌≢◌, ◌⊎◌, inl, inr, Bool, true, false, List, [], ◌∷◌, Option, some, arith,
  Option-cases, All, if◌then◌else◌,
}
use tioj_judge.Base.Text.{str_eq, str_eq_iff}
use tioj_judge.Verdict.{
  Verdict, nul, jce, rank, verdict_to_abr, find_abr, verdict_range, or_else, abr_to_verdict,
  Compiler, gcc_cpp_98, compiler_name, get_compiler,
}

-- Every verdict is read back from its own abbreviation; a special judge, which may not name the
-- verdicts of the compilation, reads back exactly those below CE and NUL for the others.
pub abr_to_verdict-to_abr :
    (v : Verdict)
    → (abr_to_verdict (verdict_to_abr v) false ≡ v)
      × (rank v < 10 → abr_to_verdict (verdict_to_abr v) true ≡ v)
      × (9 < rank v → abr_to_verdict (verdict_to_abr v) true ≡ nul)
unfolding abr_to_verdict verdict_to_abr
abr_to_verdict-to_abr nul = ground arith
abr_to_verdict-to_abr _ = ground arith

-- Every compiler is read back from its name.
get_compiler-name : (c : Compiler) → get_compiler (compiler_name c) ≡ c
unfolding get_compiler compiler_name
get_compiler-name gcc_cpp_98 = refl
get_compiler-name _ = refl

-- A verdict found in the table is named by the text.
find_abr-names :
    (s : String) (vs : List Verdict) (v : Verdict) → find_abr s vs ≡ some v → s ≡ verdict_to_abr v
unfolding find_abr
find_abr-names s [] v h = cc
find_abr-names s (w ∷ ws) v h =
    ground (arith, str_eq_iff s (verdict_to_abr w), find_abr-names s ws v)

find_abr-lt :
    (s : String) (vs : List Verdict) (v : Verdict)
    → All (λ w. rank w < 10) vs
    → find_abr s vs ≡ some v
    → rank v < 10
unfolding find_abr
find_abr-lt s [] v a h = cc
find_abr-lt s (w ∷ ws) v a h = ground (arith, find_abr-lt s ws v)

-- A special judge never sets a verdict of the compilation, whatever text it writes.
pub abr_to_verdict-lt : (s : String) → rank (abr_to_verdict s true) < 10
unfolding abr_to_verdict
abr_to_verdict-lt s = elim (Option-cases (find_abr s (verdict_range 1 10))) [
  | inl e ↦ rw e (omega arith)
  | inr (v, e) ↦ rw e (find_abr-lt s (verdict_range 1 10) v (omega arith) e)
]

-- The same with the results of the two searches named.
found_names :
    (s : String) (b : Bool) (v : Verdict) (o p : Option Verdict)
    → (o ≡ some v → s ≡ verdict_to_abr v)
    → (p ≡ some v → s ≡ verdict_to_abr v)
    → or_else o (if b then nul else (if str_eq s "ER" then jce else or_else p nul)) ≡ v
    → v ≢ nul
    → (s ≡ verdict_to_abr v) ⊎ ((s ≡ "ER") × (v ≡ jce) × (b ≡ false))
found_names s b v o p ho hp h k = ground (arith, str_eq_iff s "ER")

-- A verdict other than NUL is only read from its own abbreviation, or JCE from the old name "ER"
-- where the verdicts of the compilation are allowed.
pub abr_to_verdict-names :
    (s : String) (runtime_only : Bool) (v : Verdict)
    → abr_to_verdict s runtime_only ≡ v
    → v ≢ nul
    → (s ≡ verdict_to_abr v) ⊎ ((s ≡ "ER") × (v ≡ jce) × (runtime_only ≡ false))
unfolding abr_to_verdict
abr_to_verdict-names s b v h k =
    found_names s b v (find_abr s (verdict_range 1 10)) (find_abr s (verdict_range 10 14))
      (find_abr-names s (verdict_range 1 10) v) (find_abr-names s (verdict_range 10 14) v) h k
