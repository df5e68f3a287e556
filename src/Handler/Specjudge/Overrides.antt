-- ===== src/Handler/Specjudge/Overrides.antt =====
-- The loop of `ParseSpecjudgeOverrides` (src/tioj/submission.cpp) ends, and sets no verdict of the
-- compilation.
use Prim.Native.String.{String}
use tioj_judge.Base.{
  ℕ, zero, suc, ◌<◌, ◌≤◌, ◌≡◌, refl, Bool, true, false, ◌&&◌, not, Option, none, some, arith,
  Bool-cases, Option-cases, inl, inr, if◌then◌else◌, ◌==◌,
}
use tioj_judge.Base.Int.{ℤ}
use tioj_judge.Base.Text.{str_eq}
use tioj_judge.Verdict.{rank, abr_to_verdict}
use tioj_judge.Verdict.RoundTrip.{abr_to_verdict-lt}
use tioj_judge.Submission.{TestdataResult}
use tioj_judge.Handler.{LongDouble, normalize_score}
use tioj_judge.Handler.Specjudge.{
  Istream, Next, goes_on, ends, got, carry_on, override_verdict, override, parse_overrides,
}

-- A verdict of an execution, or none.
abbrev pub Fine : TestdataResult → Type 0
Fine td = rank td.verdict < 10

-- An extraction leaves no more than there was, and a word takes at least a character.
pub record IstreamLaws (d : LongDouble) (i : Istream d) : Type 0 where
  pub size : i.S → ℕ
  pub word_lt : (s s' : i.S) (w : String) → i.word s ≡ some (w, s') → size s' < size s
  pub int_le : (s s' : i.S) (x : ℤ) → i.int s ≡ some (x, s') → size s' ≤ size s
  pub long_le : (s s' : i.S) (x : ℤ) → i.long s ≡ some (x, s') → size s' ≤ size s
  pub real_le : (s s' : i.S) (x : d.F) → i.real s ≡ some (x, s') → size s' ≤ size s

module _ (d : LongDouble) (i : Istream d) (laws : IstreamLaws d i) where
  open i use {S, word, int, long, real}
  open laws use {size}

  abbrev GoodNext : ℕ → Next d i → Type 0
  GoodNext n (goes_on o s td) = (size s ≤ n) × Fine td
  GoodNext n (ends td) = Fine td

  good_if :
      (n : ℕ) (b : Bool) (x y : Next d i)
      → GoodNext n x
      → GoodNext n y
      → GoodNext n (if b then x else y)
  good_if n true x y g h = g
  good_if n false x y g h = h

  good_got :
      {A : Type 0} (n : ℕ) (o : Option (A × S)) (td : TestdataResult) (next : A → S → Next d i)
      → Fine td
      → ((a : A) (s : S) → o ≡ some (a, s) → GoodNext n (next a s))
      → GoodNext n (got d i o td next)
  good_got n none td next f g = f
  good_got n (some (a, s)) td next f g = g a s refl

  pub override_verdict-Fine :
      (allow o : Bool) (name : String) (td : TestdataResult)
      → Fine (override_verdict d i allow o name td)
  unfolding override_verdict
  override_verdict-Fine allow o name td =
      elim (Bool-cases (allow && (not o && rank (abr_to_verdict name true) == 1))) [
        | inl e ↦ rw e (abr_to_verdict-lt name)
        | inr e ↦ rw e (abr_to_verdict-lt name)
      ]

  -- The three overrides that read a number into a field.
  good_long :
      (o : Bool) (s : S) (td : TestdataResult) (field : ℤ → TestdataResult)
      → Fine td
      → ((x : ℤ) → Fine (field x))
      → GoodNext (size s) (got d i (long s) td (λ x s'. goes_on o s' (field x)))
  good_long o s td field f g =
      good_got (size s) (long s) td (λ x s'. goes_on o s' (field x)) f
        (λ x s' e. (laws.long_le s s' x e, g x))

  good_real :
      (s : S) (td : TestdataResult)
      → Fine td
      → GoodNext (size s) (
          got d i (real s) td (λ x s'. goes_on true s' (record td { score = normalize_score d x })))
  good_real s td f =
      good_got (size s) (real s) td
        (λ x s'. goes_on true s' (record td { score = normalize_score d x })) f
        (λ x s' e. (laws.real_le s s' x e, f))

  good_word :
      (allow o : Bool) (s : S) (td : TestdataResult)
      → Fine td
      → GoodNext
          (size s)
          (got d i (word s) td (λ name s'. goes_on o s' (override_verdict d i allow o name td)))
  good_word allow o s td f =
      good_got (size s) (word s) td (λ name s'. goes_on o s' (override_verdict d i allow o name td))
        f
        (λ name s' e.
          (omega (arith, laws.word_lt s s' name e), override_verdict-Fine allow o name td))

  good_end :
      (b o : Bool) (s : S) (td : TestdataResult)
      → Fine td
      → GoodNext (size s) (if b then ends td else goes_on o s td)
  good_end true o s td f = f
  good_end false o s td f = (omega arith, f)

  override-GoodNext :
      (break_on allow o : Bool) (cmd : String) (s : S) (td : TestdataResult)
      → Fine td
      → GoodNext (size s) (override d i break_on allow o cmd s td)
  unfolding override
  override-GoodNext break_on allow o cmd s td f =
      good_if (size s) (allow && str_eq cmd "SPECJUDGE_OVERRIDE_SCORE") _ _ (good_real s td f) (
        good_if (size s) (str_eq cmd "SPECJUDGE_OVERRIDE_VERDICT") _ _ (good_word allow o s td f) (
          good_if (size s) (str_eq cmd "SPECJUDGE_OVERRIDE_TIME_US") _ _
            (good_long o s td (λ x. record td { time = x }) f (λ x. f))
            (good_if (size s) (str_eq cmd "SPECJUDGE_OVERRIDE_VSS_KIB") _ _
              (good_long o s td (λ x. record td { vss = x }) f (λ x. f))
              (good_if (size s) (str_eq cmd "SPECJUDGE_OVERRIDE_RSS_KIB") _ _
                (good_long o s td (λ x. record td { rss = x }) f (λ x. f))
                (good_end break_on o s td f)))))

  -- A loop body that leaves fewer characters lets the rest of the loop follow.
  carry_on-Fine :
      (n : ℕ) (next : Next d i) (rest : Bool → S → TestdataResult → Option TestdataResult)
      → GoodNext n next
      → ((o : Bool) (s : S) (td : TestdataResult)
          → size s ≤ n
          → Fine td
          → (td' : TestdataResult) × (rest o s td ≡ some td') × Fine td')
      → (td' : TestdataResult) × (carry_on d i next rest ≡ some td') × Fine td'
  carry_on-Fine n (goes_on o s td) rest (l, f) h = h o s td l f
  carry_on-Fine n (ends td) rest f h = (td, refl, f)

  -- Fuel above the number of characters left is enough for the loop of the overrides, whatever the
  -- file holds, and a verdict below CE stays below CE.
  pub parse_overrides-Fine :
      (break_on allow : Bool) (fuel : ℕ) (o : Bool) (s : S) (td : TestdataResult)
      → size s < fuel
      → Fine td
      → (td' : TestdataResult) × (parse_overrides d i break_on allow fuel o s td ≡ some td')
        × Fine td'
  unfolding parse_overrides
  parse_overrides-Fine break_on allow zero o s td h f = absurd (omega arith)
  parse_overrides-Fine break_on allow (suc fuel) o s td h f = elim (Option-cases (word s)) [
    | inl e ↦ (td, rw (e, parse_overrides) refl, f)
    | inr ((cmd, s1), e) ↦
        rw (e, parse_overrides)
          (carry_on-Fine (size s1) (override d i break_on allow o cmd s1 td)
            (parse_overrides d i break_on allow fuel)
            (override-GoodNext break_on allow o cmd s1 td f)
            (λ o2 s2 td2 l g.
              parse_overrides-Fine break_on allow fuel o2 s2 td2
                (omega (arith, laws.word_lt s s1 cmd e)) g))
  ]
