-- ===== src/Command/Limits.antt =====
-- The limits of `RunExecute` (src/tioj/tasks.cpp): none is missing, and a task that needs more than it may
-- is let go on just beyond its limit, so that the verdict can tell.
use tioj_judge.Base.{
  ℕ, ◌≡◌, ◌⊎◌, inl, inr, refl, Bool, true, false, not, ◌||◌, List, Option, none, some, arith,
  Holds-if, get_elem?, if◌then◌else◌,
}
use tioj_judge.Base.Partial.{Post, Post-some}
use tioj_judge.Base.Int.{ℤ, pos, ltb_ℤ, ◌≤ℤ◌, ◌+ℤ◌, ◌-ℤ◌, +ℤ_parts, -ℤ_parts}
use tioj_judge.Verdict.{Compiler}
use tioj_judge.Submission.{Submission, TestdataItem, TestdataResult}
use tioj_judge.Sandbox.{SandboxOptions}
use tioj_judge.Command.{Settings}
use tioj_judge.Command.Execute.{
  cpu_limit, rss_limit, vss_limit, fsize_limit, long_max, vss_margin, rss_margin, execute_options,
  strict_options, file_options, mode_options, time_used, stage_lang, run_execute,
}

cpu_limit-ge : (s : Settings) (time : ℤ) → pos 1 ≤ℤ cpu_limit s time
unfolding cpu_limit
cpu_limit-ge s time =
    Holds-if (λ x. pos 1 ≤ℤ x) (ltb_ℤ (pos 0) (s.divide (time +ℤ pos 50000))) _ _
      (λ b. ground (arith, b)) (λ b. omega arith)

fsize_limit-range :
    (s : Settings) (output : ℤ)
    → pos 1 ≤ℤ s.k_max_output
    → (pos 1 ≤ℤ fsize_limit s output) × (fsize_limit s output ≤ℤ s.k_max_output)
unfolding fsize_limit
fsize_limit-range s output h =
    Holds-if (λ x. (pos 1 ≤ℤ x) × (x ≤ℤ s.k_max_output))
      (not (ltb_ℤ (pos 0) output) || ltb_ℤ s.k_max_output output) _ _ (λ b. (h, omega arith))
      (λ b. ground (arith, b))

rss_limit-range :
    (s : Settings) (rss : ℤ)
    → pos 1 ≤ℤ s.k_max_rss
    → (pos 1 ≤ℤ rss_limit s rss)
      × (rss_limit s rss ≤ℤ s.k_max_rss)
      × (pos 1 ≤ℤ rss → rss +ℤ pos 1 ≤ℤ s.k_max_rss → rss +ℤ pos 1 ≤ℤ rss_limit s rss)
unfolding rss_limit
rss_limit-range s rss h =
    Holds-if
      (λ x.
        (pos 1 ≤ℤ x)
        × (x ≤ℤ s.k_max_rss)
        × (pos 1 ≤ℤ rss → rss +ℤ pos 1 ≤ℤ s.k_max_rss → rss +ℤ pos 1 ≤ℤ x))
      (not (ltb_ℤ (pos 0) rss)
        || (not (ltb_ℤ rss s.k_max_rss) || not (ltb_ℤ rss_margin (s.k_max_rss -ℤ rss))))
      _ _ (λ b. (h, omega arith, λ k l. l))
      (λ b. (
        ground (arith, b, +ℤ_parts rss rss_margin),
        ground (arith, b, -ℤ_parts s.k_max_rss rss, +ℤ_parts rss rss_margin),
        λ k l. omega (arith, +ℤ_parts rss rss_margin, +ℤ_parts rss (pos 1)),
      ))

vss_limit-range :
    (vss : ℤ)
    → (vss ≤ℤ pos 0 → vss_limit vss ≡ pos 0)
      × (pos 1 ≤ℤ vss → (vss_limit vss ≡ long_max) ⊎ (vss_limit vss ≡ vss +ℤ vss_margin))
      × (vss_limit vss ≤ℤ long_max)
unfolding vss_limit
vss_limit-range vss =
    let Good : ℤ → Type 0 = λ x.
      (vss ≤ℤ pos 0 → x ≡ pos 0)
      × (pos 1 ≤ℤ vss → (x ≡ long_max) ⊎ (x ≡ vss +ℤ vss_margin))
      × (x ≤ℤ long_max) in
    Holds-if Good (not (ltb_ℤ (pos 0) vss)) _ _
      (λ b. (λ h. refl, λ h. absurd (ground (arith, b, h)), omega arith))
      (λ b.
        Holds-if Good (ltb_ℤ (long_max -ℤ vss_margin) vss) _ _
          (λ c. (λ h. absurd (ground (arith, b, h)), λ h. inl refl, omega arith))
          (λ c. (
            λ h. absurd (ground (arith, b, h)),
            λ h. inr refl,
            ground (arith, c, +ℤ_parts vss vss_margin, -ℤ_parts long_max vss_margin),
          )))

-- What RunExecute promises of the limits; in the mode that is not strict the output counts as memory.
pub record Bounded (s : Settings) (sub : Submission) (lim : TestdataItem) (uid : ℤ)
    (o : SandboxOptions) : Type 0 where
  pub users : (o.uid ≡ uid) × (o.gid ≡ uid)
  pub cpu_time_ge : pos 1 ≤ℤ o.cpu_time
  pub fsize_range : (pos 1 ≤ℤ o.fsize) × (o.fsize ≤ℤ s.k_max_output)
  pub rss_range :
      (pos 1 ≤ℤ o.rss) × (o.rss ≤ℤ s.k_max_rss +ℤ (if sub.sandbox_strict then pos 0 else o.fsize))
  pub rss_above : pos 1 ≤ℤ lim.rss → lim.rss +ℤ pos 1 ≤ℤ s.k_max_rss → lim.rss +ℤ pos 1 ≤ℤ o.rss
  pub vss_none : lim.vss ≤ℤ pos 0 → o.vss ≡ pos 0
  pub vss_above : pos 1 ≤ℤ lim.vss → (o.vss ≡ long_max) ⊎ (o.vss ≡ lim.vss +ℤ vss_margin)
  pub vss_le : o.vss ≤ℤ long_max

-- The limits before the mode is chosen.
module _ (s : Settings) (sub : Submission) (lim : TestdataItem) (uid cpuid : ℤ) where
  mode_options-Bounded :
      (lang : Compiler) (subtask stage : ℕ) (used : ℤ) (pipes : Option (ℤ × ℤ)) (strict : Bool)
      → strict ≡ sub.sandbox_strict
      → pos 1 ≤ℤ s.k_max_rss
      → pos 1 ≤ℤ s.k_max_output
      → Post (Bounded s sub lim uid) (
          mode_options s strict lang pipes
            (execute_options s sub lim lang subtask stage used uid cpuid))
  unfolding mode_options strict_options file_options execute_options
  mode_options-Bounded lang subtask stage used none true e h k = tt
  mode_options-Bounded lang subtask stage used (some ends) true e h k =
      let (low, high, above) = rss_limit-range s lim.rss h in
      let (unset, over, top) = vss_limit-range lim.vss in
      record {
        users = (refl, refl);
        cpu_time_ge = cpu_limit-ge s _;
        fsize_range = fsize_limit-range s lim.output k;
        rss_range = rw (← e) (low, omega (arith, high, +ℤ_parts s.k_max_rss (pos 0)));
        rss_above = above;
        vss_none = unset;
        vss_above = over;
        vss_le = top;
      }
  mode_options-Bounded lang subtask stage used pipes false e h k =
      let (low, high, above) = rss_limit-range s lim.rss h in
      let (unset, over, top) = vss_limit-range lim.vss in
      let (least, most) = fsize_limit-range s lim.output k in
      let rss = rss_limit s lim.rss in
      let fsize = fsize_limit s lim.output in
      record {
        users = (refl, refl);
        cpu_time_ge = cpu_limit-ge s _;
        fsize_range = (least, most);
        rss_range = (
          omega (arith, low, least, +ℤ_parts rss fsize),
          rw (← e) (omega (arith, high, +ℤ_parts rss fsize, +ℤ_parts s.k_max_rss fsize)),
        );
        rss_above =
            λ p q. omega (arith, above p q, least, +ℤ_parts rss fsize, +ℤ_parts lim.rss (pos 1));
        vss_none = unset;
        vss_above = over;
        vss_le = top;
      }

mode_options-some :
    (s : Settings) (strict : Bool) (lang : Compiler) (ends : ℤ × ℤ) (opt : SandboxOptions)
    → (o : SandboxOptions) × (mode_options s strict lang (some ends) opt ≡ some o)
unfolding mode_options
mode_options-some s true lang ends opt = (_, refl)
mode_options-some s false lang ends opt = (_, refl)

-- For a testdata whose earlier stages have a result, if the pipes can be made, and with a kMaxRSS and a
-- kMaxOutput of at least 1, whatever the clock's multiplier makes of the times, RunExecute sets up options
-- with the user that it is given, a limit of processor time (0 would be none), a limit of the output up to
-- kMaxOutput, a limit of memory up to kMaxRSS, plus the output where that counts, and above the testdata's
-- limit where that is below kMaxRSS, and a limit of virtual memory exactly if the testdata has one, above
-- it or the largest `long`.
pub run_execute-Bounded :
    (s : Settings) (sub : Submission) (td_results : List TestdataResult) (subtask stage : ℕ)
    (uid cpuid : ℤ) (ends : ℤ × ℤ) (lim : TestdataItem) (used : ℤ)
    → get_elem? sub.testdata subtask ≡ some lim
    → time_used stage (get_elem? td_results subtask) ≡ some used
    → pos 1 ≤ℤ s.k_max_rss
    → pos 1 ≤ℤ s.k_max_output
    → (o : SandboxOptions) × (run_execute s sub td_results subtask stage uid cpuid (some ends)
        ≡ some o)
      × Bounded s sub lim uid o
unfolding run_execute
run_execute-Bounded s sub td_results subtask stage uid cpuid ends lim used e f h k =
    let lang = stage_lang sub stage in
    let opt = execute_options s sub lim lang subtask stage used uid cpuid in
    let (o, same) = mode_options-some s sub.sandbox_strict lang ends opt in
    let bounded =
      mode_options-Bounded s sub lim uid cpuid lang subtask stage used (some ends)
        sub.sandbox_strict refl h k in
    (
      o,
      rw (e, f) same,
      Post-some (Bounded s sub lim uid) (mode_options s sub.sandbox_strict lang (some ends) opt) o
          bounded same,
    )
