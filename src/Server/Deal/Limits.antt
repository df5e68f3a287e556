-- ===== src/Server/Deal/Limits.antt =====
-- The limits of the testdata that `DealOneSubmission` of src/server_io.cpp reads.
use tioj_judge.Base.{
  zero, suc, ◌≡◌, refl, ap, true, false, ◌&&◌, List, [], ◌∷◌, arith, Holds-if, length, All,
}
use tioj_judge.Base.Partial.{Post, Post-bind, Post-some}
use tioj_judge.Base.Int.{ℤ, pos, negsuc, ◌≤ℤ◌, ltb_ℤ}
use tioj_judge.Verdict.{is_haskell, Compiler}
use tioj_judge.Submission.{TestdataItem}
use tioj_judge.Handler.{is_zero, max_ℤ, min_ℤ}
use tioj_judge.Server.Frames.{TdFrame}
use tioj_judge.Server.Deal.{haskell_limits, td_limits, all_limits}

-- The limits are not negative; Haskell has no limit of virtual memory.
pub record Limits (lang : Compiler) (lim : TestdataItem) : Type 0 where
  pub vss_le : pos 0 ≤ℤ lim.vss
  pub rss_le : pos 0 ≤ℤ lim.rss
  pub output_le : pos 0 ≤ℤ lim.output
  pub no_vss : is_haskell lang ≡ true → lim.vss ≡ pos 0

abbrev pub Fresh : Compiler → TestdataItem → Type 0
Fresh lang lim = Limits lang lim × (lim.td_groups ≡ [])

zero_of : (x : ℤ) → pos 0 ≤ℤ x → ltb_ℤ (pos 0) x ≡ false → x ≡ pos 0
zero_of (pos zero) h b = refl
zero_of (pos (suc n)) h b = absurd (ground (arith, b))
zero_of (negsuc n) h b = absurd (omega arith)

max_ℤ_zero : (x : ℤ) → pos 0 ≤ℤ max_ℤ x (pos 0)
max_ℤ_zero (pos n) = ground arith
max_ℤ_zero (negsuc n) = ground arith

min_ℤ_zero : (x y : ℤ) → pos 0 ≤ℤ x → pos 0 ≤ℤ y → pos 0 ≤ℤ min_ℤ x y
min_ℤ_zero x y h k = Holds-if (λ z. pos 0 ≤ℤ z) (ltb_ℤ y x) y x (λ b. k) (λ b. h)

haskell_limits-Limits :
    (lang : Compiler) (lim : TestdataItem)
    → pos 0 ≤ℤ lim.vss
    → pos 0 ≤ℤ lim.rss
    → pos 0 ≤ℤ lim.output
    → lim.td_groups ≡ []
    → Fresh lang (haskell_limits lang lim)
unfolding haskell_limits
haskell_limits-Limits lang lim v r o g =
    Holds-if (Fresh lang) (is_haskell lang && ltb_ℤ (pos 0) lim.vss) _ _
      (λ b. (
        record {
          vss_le = omega arith;
          rss_le =
              Holds-if (λ z. pos 0 ≤ℤ z) (is_zero lim.rss) _ _ (λ z. v)
                (λ z. min_ℤ_zero lim.vss lim.rss v r);
          output_le = o;
          no_vss = λ h. refl;
        },
        g,
      ))
      (λ b. (
        record {
          vss_le = v;
          rss_le = r;
          output_le = o;
          no_vss = λ h. zero_of lim.vss v (rw h at b);
        },
        g,
      ))

td_limits-Limits : (lang : Compiler) (f : TdFrame) → Post (Fresh lang) (td_limits lang f)
unfolding td_limits
td_limits-Limits lang f = Post-bind (Fresh lang) f.time _ (λ time e.
    Post-bind (Fresh lang) f.vss _ (λ vss e. Post-bind (Fresh lang) f.rss _ (λ rss e.
      Post-bind (Fresh lang) f.output _ (λ output e.
        Post-bind (Fresh lang) f.verdict_ignore _ (λ ignore e.
          haskell_limits-Limits lang _ (max_ℤ_zero vss) (max_ℤ_zero rss) (max_ℤ_zero output)
            refl)))))

pub all_limits-Limits :
    (lang : Compiler) (fs : List TdFrame)
    → Post (λ lims. (length lims ≡ length fs) × All (Fresh lang) lims) (all_limits lang fs)
unfolding all_limits
all_limits-Limits lang [] = (refl, tt)
all_limits-Limits lang (f ∷ fs) =
    let Good : List TestdataItem → Type 0 =
      λ lims. (length lims ≡ length (f ∷ fs)) × All (Fresh lang) lims in
    Post-bind Good (td_limits lang f) _ (λ lim e. Post-bind Good (all_limits lang fs) _ (λ lims e'.
      let (n, each) = Post-some _ (all_limits lang fs) lims (all_limits-Limits lang fs) e' in
      (
        ap suc n,
        (Post-some (Fresh lang) (td_limits lang f) lim (td_limits-Limits lang f) e, each),
      )))
