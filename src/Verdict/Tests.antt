-- ===== src/Verdict/Tests.antt =====
-- The names of single verdicts and compilers.
use Prim.Native.String.{String}
use tioj_judge.Base.{◌≡◌, refl, ◌<◌, ◌⊎◌, true, false}
use tioj_judge.Verdict.{wa, jce, nul, rank, verdict_to_abr, abr_to_verdict}
use tioj_judge.Verdict.RoundTrip.{abr_to_verdict-to_abr, abr_to_verdict-names}

abr_to_verdict-to_abr_example :
    (abr_to_verdict (verdict_to_abr wa) false ≡ wa)
    × (rank wa < 10 → abr_to_verdict (verdict_to_abr wa) true ≡ wa)
    × (9 < rank wa → abr_to_verdict (verdict_to_abr wa) true ≡ nul)
abr_to_verdict-to_abr_example = abr_to_verdict-to_abr wa

abbrev old_name : String
old_name = "ER"

abr_to_verdict-names_example :
    (old_name ≡ verdict_to_abr jce) ⊎ ((old_name ≡ "ER") × (jce ≡ jce) × (false ≡ false))
unfolding abr_to_verdict
abr_to_verdict-names_example = abr_to_verdict-names old_name false jce refl (λ e. cc)
