-- ===== src/Verdict.antt =====
-- The enumerations of include/tioj/submission.h and their names, src/tioj/utils.cpp.
pub mod RoundTrip
mod Tests
use Prim.Native.String.{String}
use tioj_judge.Base.{
  ℕ, ◌-◌, Bool, true, false, List, [], ◌∷◌, Option, none, some, ltb, if◌then◌else◌, take, drop,
}
use tioj_judge.Base.Text.{str_eq}

-- `enum class Verdict`, in the order of ENUM_VERDICT_.
pub data Verdict : Type 0 where
  nul ac wa tle mle ole re sig jre ee ce cle jce je : Verdict

-- `(int)verdict`
abbrev pub rank : Verdict → ℕ
rank nul = 0
rank ac = 1
rank wa = 2
rank tle = 3
rank mle = 4
rank ole = 5
rank re = 6
rank sig = 7
rank jre = 8
rank ee = 9
rank ce = 10
rank cle = 11
rank jce = 12
rank je = 13

pub Verdict-discrete : Discrete Verdict
Verdict-discrete = hlevel

-- `std::max` on verdicts: the first argument is kept when neither is larger.
abbrev pub verdict_max : Verdict → Verdict → Verdict
verdict_max a b = if ltb (rank a) (rank b) then b else a

-- kVerdictAbrTable
unfoldable pub verdict_to_abr : Verdict → String
verdict_to_abr nul = ""
verdict_to_abr ac = "AC"
verdict_to_abr wa = "WA"
verdict_to_abr tle = "TLE"
verdict_to_abr mle = "MLE"
verdict_to_abr ole = "OLE"
verdict_to_abr re = "RE"
verdict_to_abr sig = "SIG"
verdict_to_abr jre = "JRE"
verdict_to_abr ee = "EE"
verdict_to_abr ce = "CE"
verdict_to_abr cle = "CLE"
verdict_to_abr jce = "JCE"
verdict_to_abr je = "JE"

-- The enumerators from index 0 on.
abbrev pub verdicts : List Verdict
verdicts = nul ∷ ac ∷ wa ∷ tle ∷ mle ∷ ole ∷ re ∷ sig ∷ jre ∷ ee ∷ ce ∷ cle ∷ jce ∷ je ∷ []

-- A loop `for (i = lo; i < hi; i++) if (str == kVerdictAbrTable[i]) return (Verdict)i;`
unfoldable pub find_abr : String → List Verdict → Option Verdict
unfolding verdict_to_abr
find_abr str [] = none
find_abr str (v ∷ vs) = if str_eq str (verdict_to_abr v) then some v else find_abr str vs

abbrev pub verdict_range : ℕ → ℕ → List Verdict
verdict_range lo hi = take (hi - lo) (drop lo verdicts)

abbrev pub or_else : Option Verdict → Verdict → Verdict
or_else (some v) w = v
or_else none w = w

unfoldable pub abr_to_verdict : String → Bool → Verdict
unfolding find_abr
abr_to_verdict str runtime_only = or_else (find_abr str (verdict_range 1 10)) (
    if runtime_only
    then nul
    else (if str_eq str "ER" then jce else or_else (find_abr str (verdict_range 10 14)) nul))

-- `enum class Compiler`, in the order of ENUM_COMPILER_.
pub data Compiler : Type 0 where
  gcc_cpp_98 gcc_cpp_11 gcc_cpp_14 gcc_cpp_17 gcc_cpp_20 : Compiler
  gcc_c_90 gcc_c_99 gcc_c_11 gcc_c_17 : Compiler
  rustc_rust_2021 haskell python2 python3 custom : Compiler

abbrev pub is_haskell : Compiler → Bool
is_haskell haskell = true
is_haskell _ = false

-- kCompilerNameTable
unfoldable pub compiler_name : Compiler → String
compiler_name gcc_cpp_98 = "c++98"
compiler_name gcc_cpp_11 = "c++11"
compiler_name gcc_cpp_14 = "c++14"
compiler_name gcc_cpp_17 = "c++17"
compiler_name gcc_cpp_20 = "c++20"
compiler_name gcc_c_90 = "c90"
compiler_name gcc_c_99 = "c99"
compiler_name gcc_c_11 = "c11"
compiler_name gcc_c_17 = "c17"
compiler_name rustc_rust_2021 = "rust 2021"
compiler_name haskell = "haskell"
compiler_name python2 = "python2"
compiler_name python3 = "python3"
compiler_name custom = "custom"

abbrev pub compilers : List Compiler
compilers =
    gcc_cpp_98 ∷ gcc_cpp_11 ∷ gcc_cpp_14 ∷ gcc_cpp_17 ∷ gcc_cpp_20 ∷ gcc_c_90 ∷ gcc_c_99 ∷ gcc_c_11
    ∷ gcc_c_17 ∷ rustc_rust_2021 ∷ haskell ∷ python2 ∷ python3 ∷ custom ∷ []

-- The loop of `GetCompiler`, over the table from some index on.
unfoldable pub find_compiler : String → List Compiler → Compiler
unfolding compiler_name
find_compiler str [] = gcc_cpp_14
find_compiler str (c ∷ cs) = if str_eq str (compiler_name c) then c else find_compiler str cs

unfoldable pub get_compiler : String → Compiler
unfolding find_compiler
get_compiler str = find_compiler str compilers
