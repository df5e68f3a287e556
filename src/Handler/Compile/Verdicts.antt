-- ===== src/Handler/Compile/Verdicts.antt =====
-- The verdict of `FinalizeCompile` (src/tioj/submission.cpp).
use tioj_judge.Base.{
  ◌≤◌, ◌≡◌, ◌≢◌, ◌⊎◌, ◌∙◌, refl, sym, ap, subst, ==_iff, inl, inr, Bool, true, false, not, ◌||◌,
  arith, Bool-cases, ltb,
}
use tioj_judge.Base.Int.{ℤ, pos, negsuc}
use tioj_judge.Verdict.{Verdict, je, cle, ce, jce, rank, verdict_max}
use tioj_judge.Graph.{CompileSubtask, userprog, specjudge, summary_prog, probprog}
use tioj_judge.Submission.{CjailResult}
use tioj_judge.Handler.{eq_ℤ, is_zero}
use tioj_judge.Handler.Compile.{killed, failed_verdict, finalize_compile}

failed_verdict-ge :
    (subtask : CompileSubtask) (r : CjailResult) → 10 ≤ rank (failed_verdict subtask r)
unfolding failed_verdict
failed_verdict-ge userprog r = elim (Bool-cases (killed r)) [
  | inl b ↦ rw b (omega arith)
  | inr b ↦ rw b (omega arith)
]
failed_verdict-ge specjudge r = omega arith
failed_verdict-ge summary_prog r = omega arith
failed_verdict-ge probprog r = omega arith

max_ge : (v w : Verdict) → (rank v ≤ rank (verdict_max v w)) × (rank w ≤ rank (verdict_max v w))
max_ge v w = elim (Bool-cases (ltb (rank v) (rank w))) [
  | inl b ↦ rw b (ground (arith, b), omega arith)
  | inr b ↦ rw b (omega arith, ground (arith, b))
]

je_ge : (v : Verdict) → rank v ≤ rank je
je_ge v = ground arith

max_cases : (v w : Verdict) → (verdict_max v w ≡ v) ⊎ (verdict_max v w ≡ w)
max_cases v w = elim (Bool-cases (ltb (rank v) (rank w))) [
  | inl b ↦ inr (rw b refl)
  | inr b ↦ inl (rw b refl)
]

-- Why a compilation gives a verdict: JE for an error of the sandbox, CLE and CE for the user's program,
-- killed or not, and JCE for a program of the problem.
abbrev pub Reason : CompileSubtask → CjailResult → Verdict → Type 0
Reason subtask r w =
    ((w ≡ je) × (r.timekill ≡ negsuc 0))
    ⊎ ((w ≡ cle) × (subtask ≡ userprog) × (killed r ≡ true))
    ⊎ ((w ≡ ce) × (subtask ≡ userprog) × (killed r ≡ false))
    ⊎ ((w ≡ jce) × (subtask ≢ userprog))

failed_verdict-Reason :
    (subtask : CompileSubtask) (r : CjailResult) → Reason subtask r (failed_verdict subtask r)
unfolding failed_verdict
failed_verdict-Reason userprog r = elim (Bool-cases (killed r)) [
  | inl b ↦ inr (inl (rw b refl, refl, b))
  | inr b ↦ inr (inr (inl (rw b refl, refl, b)))
]
failed_verdict-Reason specjudge r = inr (inr (inr (refl, λ e. cc)))
failed_verdict-Reason summary_prog r = inr (inr (inr (refl, λ e. cc)))
failed_verdict-Reason probprog r = inr (inr (inr (refl, λ e. cc)))

sandbox_error : (z : ℤ) → eq_ℤ z (negsuc 0) ≡ true → z ≡ negsuc 0
sandbox_error (pos n) e = cc
sandbox_error (negsuc n) e = ap negsuc (ground (arith, e, ==_iff n 0))

error_killed : (r : CjailResult) → r.timekill ≡ negsuc 0 → killed r ≡ true
error_killed r e = rw e refl

-- A compilation never makes the verdict of the submission better. It leaves the verdict as it is if it
-- exits with status 0 and leaves a program, without a time or memory kill, and makes it CE or worse
-- otherwise. The verdict after it is the one before, JE after an error of the sandbox, CLE or CE for the
-- user's program, killed or not, or JCE for a program of the problem.
pub finalize_compile-ge :
    (subtask : CompileSubtask) (r : CjailResult) (output : Bool) (v : Verdict)
    → (rank v ≤ rank (finalize_compile subtask r output v))
      × (killed r ≡ false
          → is_zero r.si_status ≡ true
          → output ≡ true
          → finalize_compile subtask r output v ≡ v)
      × ((killed r ≡ true) ⊎ (is_zero r.si_status ≡ false) ⊎ (output ≡ false)
          → 10 ≤ rank (finalize_compile subtask r output v))
      × ((finalize_compile subtask r output v ≡ v)
          ⊎ Reason subtask r (finalize_compile subtask r output v))
unfolding finalize_compile
finalize_compile-ge subtask r output v = elim (Bool-cases (eq_ℤ r.timekill (negsuc 0))) [
  | inl b ↦
      let error = sandbox_error r.timekill b in
      let k = error_killed r error in
      rw b (
        je_ge v,
        λ k'. absurd (let clash : true ≡ false = sym k ∙ k' in cc),
        λ c. omega arith,
        inr (inl (refl, error)),
      )
  | inr b ↦ rw b (elim (Bool-cases (killed r || (not (is_zero r.si_status) || not output))) [
    | inl c ↦
        let (old, new) = max_ge v (failed_verdict subtask r) in
        rw c (
          old,
          λ k z o. absurd (ground (arith, c, k, z, o)),
          λ f. omega (arith, new, failed_verdict-ge subtask r),
          elim (max_cases v (failed_verdict subtask r)) [
            | inl e ↦ inl e
            | inr e ↦ inr (subst (Reason subtask r) (sym e) (failed_verdict-Reason subtask r))
          ],
        )
    | inr c ↦ rw c (omega arith, λ k z o. refl, λ f. absurd (ground (arith, c, f)), inl refl)
  ])
]
