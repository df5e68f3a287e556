-- ===== src/Handler/Registry/Live.antt =====
-- The submissions being judged (src/tioj/submission.cpp), under pushes and ends in any order.
use tioj_judge.Base.{
  ℕ, suc, ◌≡◌, ◌≢◌, ◌≤◌, false, [], ◌∷◌, Option, none, some, arith, ◌==◌, ==_iff, Bool-cases,
  Option-cases, inl, inr, ◌⊎◌, sym, ◌∙◌, ap, true, refl,
}
use tioj_judge.Order.{has_group}
use tioj_judge.Submission.{Submission, SubmissionResult}
use tioj_judge.Handler.{SubmissionAndResult, lookup}
use tioj_judge.Handler.Registry.Entries.{
  lookup-erase_other, lookup-erase_some, has_group-erase_other, track_self, track_other,
  track_wanted, track_list,
}
use tioj_judge.Handler.Registry.{add_entry, track, listed_entry, Registry, enqueue, end_submission}

-- A submission that is being judged and was not cancelled.
pub record IsLive (id : ℕ) (s : SubmissionAndResult) (r : Registry) : Type 0 where
  pub listed : lookup id r.submission_list ≡ some s
  pub wanted : has_group id r.cancelled.cancelled_list ≡ false

-- The map leads to every live submission, and the ids are those that were drawn.
record Tracked (n : ℕ) (r : Registry) : Type 0 where
  latest :
      (id : ℕ) (s : SubmissionAndResult)
      → IsLive id s r
      → lookup s.sub.submission_id r.submission_id_map ≡ some id
  drawn : (id : ℕ) (s : SubmissionAndResult) → lookup id r.submission_list ≡ some s → id ≤ n

-- No other live submission has the id of this one as its submission id.
abbrev Unmixed : ℕ → Registry → Type 0
Unmixed id r =
    (other : ℕ) (s : SubmissionAndResult) → IsLive other s r → other ≢ id → s.sub.submission_id ≢ id

abbrev pub no_submissions : Registry
no_submissions = record {
  submission_list = [];
  submission_id_map = [];
  cancelled = record { cancelled_list = []; cancelled_group = [] };
}

-- GetUniqueSubmissionInternalId, with or without a push of that id, and the end of a submission.
pub data RegistryStep : ℕ → Registry → ℕ → Registry → Type 0 where
  dropped : (n : ℕ) (r : Registry) → RegistryStep n r (suc n) r
  pushed :
      (n : ℕ) (sub : Submission) (r : Registry)
      → sub.submission_internal_id ≡ suc n
      → RegistryStep n r (suc n) (enqueue sub r)
  ended :
      (n id : ℕ) (res : SubmissionResult) (r : Registry)
      → Unmixed id r
      → RegistryStep n r n (end_submission id res r).registry

pub data RegistryReach : ℕ → Registry → Type 0 where
  start : RegistryReach 0 no_submissions
  step : (m n : ℕ) (r s : Registry) → RegistryReach m r → RegistryStep m r n s → RegistryReach n s

end_submission-IsLive :
    (id other : ℕ) (s : SubmissionAndResult) (res : SubmissionResult) (r : Registry)
    → IsLive other s (end_submission id res r).registry
    → (id ≢ other) × IsLive other s r
unfolding end_submission
end_submission-IsLive id other s res r l =
    let (d, e) = lookup-erase_some id other s r.submission_list l.listed in
    (
      d,
      record {
        listed = e;
        wanted = sym (has_group-erase_other id other r.cancelled.cancelled_list d) ∙ l.wanted;
      },
    )

end_submission-Tracked :
    (n id : ℕ) (res : SubmissionResult) (r : Registry)
    → Unmixed id r
    → Tracked n r
    → Tracked n (end_submission id res r).registry
unfolding end_submission
end_submission-Tracked n id res r u t = record {
  latest = λ other s l.
      let (d, live) = end_submission-IsLive id other s res r l in
      lookup-erase_other id s.sub.submission_id r.submission_id_map
        (λ e. u other s live (λ e'. d (sym e')) (sym e))
      ∙ t.latest other s live;
  drawn = λ other s e. t.drawn other s (lookup-erase_some id other s r.submission_list e).1;
}

-- What is in the list is the new submission or was there before.
enqueue-listed :
    (sub : Submission) (other : ℕ) (s : SubmissionAndResult) (r : Registry)
    → lookup sub.submission_internal_id r.submission_list ≡ none
    → lookup other (enqueue sub r).submission_list ≡ some s
    → ((sub.submission_internal_id ≡ other) × (s.sub.submission_id ≡ sub.submission_id))
      ⊎ (lookup other r.submission_list ≡ some s)
unfolding enqueue lookup
enqueue-listed sub other s r f l =
    let id = sub.submission_internal_id in
    let o = lookup sub.submission_id r.submission_id_map in
    let e : lookup other (add_entry sub r).submission_list ≡ some s =
      sym (ap (lookup other) (track_list sub.submission_id id o (add_entry sub r))) ∙ l in
    let e' : lookup other ((id, listed_entry sub) ∷ r.submission_list) ≡ some s = rw f at e in
    elim (Bool-cases (id == other)) [
      | inl b ↦
          let here : some (listed_entry sub) ≡ some s = rw b at e' in
          let same : listed_entry sub ≡ s = cc in
          inl (
            ground (arith, b, ==_iff id other),
            sym (ap (λ (x : SubmissionAndResult). x.sub.submission_id) same),
          )
      | inr b ↦ inr (rw b at e')
    ]

enqueue-IsLive :
    (sub : Submission) (other : ℕ) (s : SubmissionAndResult) (r : Registry)
    → lookup sub.submission_internal_id r.submission_list ≡ none
    → IsLive other s (enqueue sub r)
    → ((sub.submission_internal_id ≡ other) × (s.sub.submission_id ≡ sub.submission_id))
      ⊎ (IsLive other s r × (lookup sub.submission_id r.submission_id_map ≢ some other))
unfolding enqueue
enqueue-IsLive sub other s r f l =
    let o = lookup sub.submission_id r.submission_id_map in
    let (w, n) =
      track_wanted sub.submission_id sub.submission_internal_id other o (add_entry sub r)
        l.wanted in
    elim (enqueue-listed sub other s r f l.listed) [
      | inl e ↦ inl e
      | inr e ↦ inr (record { listed = e; wanted = w }, n)
    ]

new_id :
    (n : ℕ) (sub : Submission) (r : Registry)
    → sub.submission_internal_id ≡ suc n
    → Tracked n r
    → lookup sub.submission_internal_id r.submission_list ≡ none
new_id n sub r i t = elim (Option-cases (lookup sub.submission_internal_id r.submission_list)) [
  | inl e ↦ e
  | inr (s, e) ↦
      let small = t.drawn sub.submission_internal_id s e in absurd (omega (arith, small, i))
]

enqueue-Tracked :
    (n : ℕ) (sub : Submission) (r : Registry)
    → sub.submission_internal_id ≡ suc n
    → Tracked n r
    → Tracked (suc n) (enqueue sub r)
unfolding enqueue
enqueue-Tracked n sub r i t =
    let id = sub.submission_internal_id in
    let key = sub.submission_id in
    let o = lookup key r.submission_id_map in
    let map : ℕ → Option ℕ = λ x. lookup x (enqueue sub r).submission_id_map in
    record {
      latest = λ other s l. elim (enqueue-IsLive sub other s r (new_id n sub r i t) l) [
        | inl (e, e') ↦ ap map e' ∙ track_self key id o (add_entry sub r) ∙ ap some e
        | inr (live, d) ↦
            track_other key id s.sub.submission_id o (add_entry sub r)
              (λ q. d (ap (λ x. lookup x r.submission_id_map) q ∙ t.latest other s live))
            ∙ t.latest other s live
      ];
      drawn = λ other s e. elim (enqueue-listed sub other s r (new_id n sub r i t) e) [
        | inl (e', k) ↦ omega (arith, i, e')
        | inr e' ↦ let small = t.drawn other s e' in omega (arith, small)
      ];
    }

RegistryStep-Tracked : (m n : ℕ) (r s : Registry) → RegistryStep m r n s → Tracked m r → Tracked n s
RegistryStep-Tracked m n r s (dropped _ _) t = record {
  latest = t.latest;
  drawn = λ id x e. let small = t.drawn id x e in omega (arith, small);
}
RegistryStep-Tracked m n r s (pushed _ sub _ i) t = enqueue-Tracked m sub r i t
RegistryStep-Tracked m n r s (ended _ id res _ u) t = end_submission-Tracked m id res r u t

-- The step does not end the submission `a`.
abbrev pub Spares : (a m n : ℕ) (r s : Registry) → RegistryStep m r n s → Type 0
Spares a _ _ _ _ (ended n id res r u) = id ≢ a
Spares a _ _ _ _ _ = Unit

-- Steps until the submission `a` ends.
pub data Later (a n : ℕ) (r : Registry) : ℕ → Registry → Type 0 where
  here : Later a n r n r
  and_then :
      (m k : ℕ) (s u : Registry) (t : RegistryStep m s k u)
      → Later a n r m s
      → Spares a m k s u t
      → Later a n r k u

track-cancelled :
    (sub_id id x : ℕ) (o : Option ℕ) (r : Registry)
    → has_group x r.cancelled.cancelled_list ≡ true
    → has_group x (track sub_id id o r).cancelled.cancelled_list ≡ true
unfolding has_group
track-cancelled sub_id id x none r h = h
track-cancelled sub_id id x (some old) r h = ground (arith, h)

stays_cancelled :
    (a n : ℕ) (r : Registry) (m : ℕ) (s : Registry)
    → has_group a r.cancelled.cancelled_list ≡ true
    → Later a n r m s
    → has_group a s.cancelled.cancelled_list ≡ true
unfolding enqueue end_submission
stays_cancelled a n r m s h here = h
stays_cancelled a n r m s h (and_then k _ q _ (dropped _ _) l f) = stays_cancelled a n r k q h l
stays_cancelled a n r m s h (and_then k _ q _ (pushed _ sub _ i) l f) =
    track-cancelled sub.submission_id sub.submission_internal_id a
      (lookup sub.submission_id q.submission_id_map) (add_entry sub q)
      (stays_cancelled a n r k q h l)
stays_cancelled a n r m s h (and_then k _ q _ (ended _ id res _ u) l f) =
    has_group-erase_other id a q.cancelled.cancelled_list f ∙ stays_cancelled a n r k q h l

-- However pushes and ends of submissions interleave, with internal ids from the counter, as long as none
-- ends whose internal id is the submission id of another live one: two live submissions have different
-- submission ids; and after a push of a submission while another of its submission id is live, whatever
-- further pushes and ends come before that other one ends, its end calls no ReportOverallResult.
pub reachable-one_each :
    (n : ℕ) (r : Registry)
    → RegistryReach n r
    → ((a b : ℕ) (s t : SubmissionAndResult)
        → IsLive a s r
        → IsLive b t r
        → s.sub.submission_id ≡ t.sub.submission_id
        → a ≡ b)
      × ((a : ℕ) (s : SubmissionAndResult) (sub : Submission) (res : SubmissionResult) (m : ℕ)
            (u : Registry)
          → IsLive a s r
          → s.sub.submission_id ≡ sub.submission_id
          → Later a (suc n) (enqueue sub r) m u
          → (end_submission a res u).overall ≡ none)
unfolding enqueue end_submission has_group lookup
reachable-one_each n r h =
    let t = tracked n r h in
    (
      λ a b x y la lb e.
          let same : some a ≡ some b =
            sym (t.latest a x la) ∙ ap (λ k. lookup k r.submission_id_map) e ∙ t.latest b y lb in
          cc,
      λ a s sub res m u l e later.
          let found = ap (λ k. lookup k r.submission_id_map) (sym e) ∙ t.latest a s l in
          let gone =
            stays_cancelled a (suc n) (enqueue sub r) m u (rw found (ground (arith, ==_iff a a)))
              later in
          rw gone refl,
    )
  where
    tracked : (n : ℕ) (r : Registry) → RegistryReach n r → Tracked n r
    tracked n r start = record {
      latest = λ id s l. let e : none ≡ some s = l.listed in cc;
      drawn = λ id s e. cc;
    }
    tracked n r (step m _ q _ h st) = RegistryStep-Tracked m n q r st (tracked m q h)
