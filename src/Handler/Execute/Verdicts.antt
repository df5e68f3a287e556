-- ===== src/Handler/Execute/Verdicts.antt =====
-- The verdict of `FinalizeExecute` (src/tioj/submission.cpp), and what the function changes.
use tioj_judge.Base.{
  zero, suc, ◌<◌, ◌≡◌, ◌≢◌, ◌⊎◌, ◌↔◌, Bool, true, false, not, ◌&&◌, ◌||◌, arith, if◌then◌else◌,
}
use tioj_judge.Base.Int.{ℤ, pos, negsuc, ltb_ℤ, ◌≤ℤ◌}
use tioj_judge.Verdict.{nul, ac, wa, tle, mle, ole, re, sig, jre, ee, rank}
use tioj_judge.Submission.{TestdataItem, CjailResult, TestdataResult}
use tioj_judge.Handler.{eq_ℤ, is_zero}
use tioj_judge.Handler.Execute.{
  cld_killed, cld_dumped, sigpipe, sigxfsz, is_killed, over_memory, exceeds, execute_verdict,
}

pub eq_ℤ-eq : (a b : ℤ) → (eq_ℤ a b ≡ true) ↔ (a ≡ b)
eq_ℤ-eq (pos a) (pos b) = ground arith
eq_ℤ-eq (negsuc a) (negsuc b) = ground arith
eq_ℤ-eq (pos a) (negsuc b) = (λ h. cc, λ h. cc)
eq_ℤ-eq (negsuc a) (pos b) = (λ h. cc, λ h. cc)

-- A value within a limit, where a limit of 0 is none.
abbrev pub Within : ℤ → ℤ → Type 0
Within limit x = (limit ≡ pos 0) ⊎ (x ≤ℤ limit)

-- A run with nothing to complain of.
pub record Clean (lim : TestdataItem) (r : CjailResult) (td : TestdataResult) : Type 0 where
  pub in_time : r.timekill ≡ pos 0
  pub no_oom : r.oomkill ≤ℤ pos 0
  pub not_killed : r.si_code ≢ cld_killed
  pub not_dumped : r.si_code ≢ cld_dumped
  pub vss : Within lim.vss td.vss
  pub rss : Within lim.rss td.rss
  pub status : r.si_status ≡ pos 0
  pub time : td.time ≤ℤ lim.time

-- The tests of the chain, one by one.
abbrev Quiet : TestdataItem → CjailResult → TestdataResult → Type 0
Quiet lim r td =
    (eq_ℤ r.timekill (negsuc 0) ≡ false)
    × (ltb_ℤ (pos 0) r.oomkill ≡ false)
    × (is_zero r.timekill ≡ true)
    × (is_killed r ≡ false)
    × (over_memory lim td ≡ false)
    × (is_zero r.si_status ≡ true)
    × (ltb_ℤ lim.time td.time ≡ false)

chain-nul :
    (a b c d e f g h : Bool)
    → ((if a
          then ee
          else if b
          then mle
          else if not c
          then tle
          else if d
          then (if h then ole else if e then mle else sig)
          else if e
          then mle
          else if not f
          then re
          else if g
          then tle
          else nul)
        ≡ nul)
      ↔ ((a ≡ false)
          × (b ≡ false)
          × (c ≡ true)
          × (d ≡ false)
          × (e ≡ false)
          × (f ≡ true)
          × (g ≡ false))
chain-nul a b c d e f g h = ground arith

exceeds-Within : (limit x : ℤ) → (exceeds limit x ≡ false) ↔ Within limit x
exceeds-Within (pos zero) x = ground arith
exceeds-Within (pos (suc n)) x = ground arith
exceeds-Within (negsuc n) x = ground arith

is_zero-eq : (x : ℤ) → (is_zero x ≡ true) ↔ (x ≡ pos 0)
is_zero-eq (pos zero) = ground arith
is_zero-eq (pos (suc n)) = ground arith
is_zero-eq (negsuc n) = ground arith

is_killed-eq :
    (r : CjailResult)
    → (is_killed r ≡ false) ↔ ((r.si_code ≢ cld_killed) × (r.si_code ≢ cld_dumped))
is_killed-eq r = ground (arith, eq_ℤ-eq r.si_code cld_killed, eq_ℤ-eq r.si_code cld_dumped)

not_minus_one : (x : ℤ) → x ≡ pos 0 → eq_ℤ x (negsuc 0) ≡ false
not_minus_one x e = ground arith

Quiet-Clean :
    (lim : TestdataItem) (r : CjailResult) (td : TestdataResult) → Quiet lim r td → Clean lim r td
Quiet-Clean lim r td (a, b, c, d, e, f, g) = record {
  in_time = (is_zero-eq r.timekill).0 c;
  no_oom = ground arith;
  not_killed = ((is_killed-eq r).0 d).0;
  not_dumped = ((is_killed-eq r).0 d).1;
  vss = (exceeds-Within lim.vss td.vss).0 (ground arith);
  rss = (exceeds-Within lim.rss td.rss).0 (ground arith);
  status = (is_zero-eq r.si_status).0 f;
  time = ground arith;
}

Clean-Quiet :
    (lim : TestdataItem) (r : CjailResult) (td : TestdataResult) → Clean lim r td → Quiet lim r td
Clean-Quiet lim r td c = (
  not_minus_one r.timekill c.in_time,
  ground (arith, c.no_oom),
  (is_zero-eq r.timekill).1 c.in_time,
  (is_killed-eq r).1 (c.not_killed, c.not_dumped),
  ground (arith, (exceeds-Within lim.vss td.vss).1 c.vss, (exceeds-Within lim.rss td.rss).1 c.rss),
  (is_zero-eq r.si_status).1 c.status,
  ground (arith, c.time),
)

-- The verdict stays open, so that the answer is judged, exactly for a run that ended by itself with
-- status 0, without an error of the sandbox, within its limits of memory and time.
pub execute_verdict-nul :
    (strict : Bool) (lim : TestdataItem) (r : CjailResult) (td : TestdataResult)
    → (execute_verdict strict lim r td ≡ nul → Clean lim r td)
      × (Clean lim r td → execute_verdict strict lim r td ≡ nul)
unfolding execute_verdict
execute_verdict-nul strict lim r td =
    let chain =
      chain-nul (eq_ℤ r.timekill (negsuc 0)) (ltb_ℤ (pos 0) r.oomkill) (is_zero r.timekill)
        (is_killed r) (over_memory lim td) (is_zero r.si_status) (ltb_ℤ lim.time td.time)
        (eq_ℤ r.si_status sigxfsz || (strict && eq_ℤ r.si_status sigpipe)) in
    (λ h. Quiet-Clean lim r td (chain.0 h), λ c. chain.1 (Clean-Quiet lim r td c))

-- What the chain can answer.
execute_verdict-range :
    (strict : Bool) (lim : TestdataItem) (r : CjailResult) (td : TestdataResult)
    → (rank (execute_verdict strict lim r td) < 10)
      × (execute_verdict strict lim r td ≢ ac)
      × (execute_verdict strict lim r td ≢ wa)
      × (execute_verdict strict lim r td ≢ jre)
unfolding execute_verdict
execute_verdict-range strict lim r td = ground arith
