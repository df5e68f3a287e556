-- ===== src/Server/Stamps.antt =====
-- The set of waiting times of src/server_io.cpp, `unsent_timestamps`, read as a map from keys to times.
use tioj_judge.Base.{
  ℕ, and_false, ◌≡◌, refl, ap, ◌∙◌, inl, inr, true, [], ◌∷◌, Option, none, some, arith, ◌==◌,
  ==_iff, if◌then◌else◌, Bool-cases,
}
use tioj_judge.Base.Int.{ℤ}
use tioj_judge.Handler.{eq_ℤ}
use tioj_judge.Handler.Execute.Verdicts.{eq_ℤ-eq}
use tioj_judge.Server.Requests.{Stamps, stands_before, insert_stamp, erase_stamp}

-- The time at which a key waits.
unfoldable pub time_of : ℤ → Stamps → Option ℕ
time_of j [] = none
time_of j ((t, k) ∷ us) = if eq_ℤ k j then some t else time_of j us

-- No key waits twice.
abbrev pub Distinct : Stamps → Type 0
Distinct [] = Unit
Distinct ((t, k) ∷ us) = (time_of k us ≡ none) × Distinct us

pub eq_ℤ-refl : (k : ℤ) → eq_ℤ k k ≡ true
eq_ℤ-refl k = (eq_ℤ-eq k k).1 refl

eq_ℤ_trans : (i j k : ℤ) → eq_ℤ i j ≡ true → eq_ℤ j k ≡ true → eq_ℤ i k ≡ true
eq_ℤ_trans i j k p q = rw ((eq_ℤ-eq i j).0 p, (eq_ℤ-eq j k).0 q) (eq_ℤ-refl k)

pub eq_ℤ_sym : (j k : ℤ) → eq_ℤ j k ≡ true → eq_ℤ k j ≡ true
eq_ℤ_sym j k p = rw ((eq_ℤ-eq j k).0 p) (eq_ℤ-refl k)

time_of_eq : (j k : ℤ) (us : Stamps) → eq_ℤ j k ≡ true → time_of j us ≡ time_of k us
time_of_eq j k us p = ap (λ i. time_of i us) ((eq_ℤ-eq j k).0 p)

pub time_of-insert :
    (j k : ℤ) (t : ℕ) (us : Stamps)
    → time_of k us ≡ none
    → time_of j (insert_stamp (t, k) us) ≡ (if eq_ℤ k j then some t else time_of j us)
unfolding time_of insert_stamp
time_of-insert j k t [] h = refl
time_of-insert j k t ((s, i) ∷ us) h =
    ground (
      arith,
      time_of-insert j k t us,
      eq_ℤ_trans i j k,
      eq_ℤ_sym k j,
      eq_ℤ_sym i k,
      eq_ℤ_trans k j i,
    )

pub insert-Distinct :
    (k : ℤ) (t : ℕ) (us : Stamps)
    → time_of k us ≡ none
    → Distinct us
    → Distinct (insert_stamp (t, k) us)
unfolding time_of insert_stamp
insert-Distinct k t [] h d = (refl, tt)
insert-Distinct k t ((s, i) ∷ us) h d = elim (Bool-cases (eq_ℤ i k)) [
  | inl b ↦ absurd (let e : some s ≡ none = rw b at h in cc)
  | inr b ↦
      let fresh : time_of k us ≡ none = rw b at h in
      let rest = insert-Distinct k t us fresh d.1 in
      let first : time_of i (insert_stamp (t, k) us) ≡ none =
        time_of-insert i k t us fresh ∙ ground (arith, eq_ℤ_sym k i, d.0, b) in
      elim (Bool-cases (stands_before (s, i) (t, k))) [
        | inl l ↦ rw l (first, rest)
        | inr l ↦ rw l (rw b (rw (and_false (s == t)) (h, d)))
      ]
]

pub time_of-erase :
    (j k : ℤ) (t : ℕ) (us : Stamps)
    → Distinct us
    → time_of k us ≡ some t
    → time_of j (erase_stamp (t, k) us) ≡ (if eq_ℤ k j then none else time_of j us)
unfolding time_of erase_stamp
time_of-erase j k t [] d h = cc
time_of-erase j k t ((s, i) ∷ us) d h = ground (
  arith,
  time_of-erase j k t us d.1,
  eq_ℤ_trans i j k,
  eq_ℤ_trans i k j,
  eq_ℤ_sym k j,
  eq_ℤ_sym i k,
  eq_ℤ_trans k i j,
  time_of_eq i k us,
  time_of_eq i j us,
  time_of_eq k j us,
  d.0,
)

pub erase-Distinct :
    (k : ℤ) (t : ℕ) (us : Stamps)
    → Distinct us
    → time_of k us ≡ some t
    → Distinct (erase_stamp (t, k) us)
unfolding time_of erase_stamp
erase-Distinct k t [] d h = tt
erase-Distinct k t ((s, i) ∷ us) d h = elim (Bool-cases (eq_ℤ i k)) [
  | inl b ↦
      let e : some s ≡ some t = rw b at h in
      let same : (s == t) ≡ true = (==_iff s t).1 cc in rw same (rw b d.1)
  | inr b ↦
      let found : time_of k us ≡ some t = rw b at h in
      let rest = erase-Distinct k t us d.1 found in
      let first : time_of i (erase_stamp (t, k) us) ≡ none =
        time_of-erase i k t us d.1 found ∙ ground (arith, eq_ℤ_sym k i, d.0, b) in
      rw b (rw (and_false (s == t)) (first, rest))
]

pub erase-absent : (k : ℤ) (t : ℕ) (us : Stamps) → time_of k us ≡ none → erase_stamp (t, k) us ≡ us
unfolding time_of erase_stamp
erase-absent k t [] h = refl
erase-absent k t ((s, i) ∷ us) h = elim (Bool-cases (eq_ℤ i k)) [
  | inl b ↦ absurd (let e : some s ≡ none = rw b at h in cc)
  | inr b ↦ rw (b, and_false (s == t)) (ap (λ l. (s, i) ∷ l) (erase-absent k t us (rw b at h)))
]
