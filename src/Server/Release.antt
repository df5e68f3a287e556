-- ===== src/Server/Release.antt =====
-- What `CheckUniqueRequests` of src/server_io.cpp releases, against a filter over all waiting keys.
use mathlib.Core.List.{append-nil, append_assoc}
use tioj_judge.Base.{
  ℕ, ◌⊎◌, ◌≡◌, ◌∙◌, refl, sym, ap, inl, inr, Bool, true, false, List, [], ◌∷◌, ◌++◌, if◌then◌else◌,
  Option, none, some, arith, Bool-cases,
}
use tioj_judge.Base.Int.{ℤ}
use tioj_judge.Handler.{eq_ℤ}
use tioj_judge.Server.Requests.{
  Stamps, Map, Request, Requests, drop_key, too_early, release_unique, check_loop, check_unique,
}
use tioj_judge.Server.Stamps.{time_of, Distinct, eq_ℤ-refl, eq_ℤ_sym}
use tioj_judge.Server.Rising.{Below, Rising}
use tioj_judge.Server.Coherent.{Coherent, Agree, Agree-waits, release_unique-Coherent, at_key}

-- The requests that have waited long enough, the earliest first.
abbrev pub add_request : Option Request → List Request → List Request
add_request none rs = rs
add_request (some req) rs = req ∷ rs

unfoldable pub due : ℕ → Stamps → Map Request → List Request
due ts [] waiting = []
due ts ((t, k) ∷ us) waiting =
    if too_early ts t then due ts us waiting else add_request (waiting k) (due ts us waiting)

-- What is left to wait.
abbrev pub keeps : ℕ → Option ℕ → Bool
keeps ts none = false
keeps ts (some t) = too_early ts t

abbrev pub only_if : {A : Type 0} → Bool → Option A → Option A
only_if b o = if b then o else none

none_due :
    (ts t : ℕ) (us : Stamps) (waiting : Map Request)
    → too_early ts t ≡ true
    → Below t us
    → due ts us waiting ≡ []
unfolding due
none_due ts t [] waiting h b = refl
none_due ts t ((s, k) ∷ us) waiting h b = ground (arith, none_due ts t us waiting h b.1, b.0)

-- Requests that are erased under another key are as due as before.
due-drop_key :
    (ts : ℕ) (k : ℤ) (us : Stamps) (waiting : Map Request)
    → time_of k us ≡ none
    → due ts us (drop_key k waiting) ≡ due ts us waiting
unfolding due drop_key time_of
due-drop_key ts k [] waiting h = refl
due-drop_key ts k ((s, i) ∷ us) waiting h = elim (Bool-cases (eq_ℤ i k)) [
  | inl b ↦ absurd (let e : some s ≡ none = rw b at h in cc)
  | inr b ↦
      let other : eq_ℤ k i ≡ false = ground (arith, eq_ℤ_sym k i, b) in
      rw (other, due-drop_key ts k us waiting (rw b at h)) refl
]

-- Whatever waits from `t` on stays.
keeps-Below :
    (ts t : ℕ) (j : ℤ) (us : Stamps)
    → too_early ts t ≡ true
    → Below t us
    → (time_of j us ≡ none) ⊎ (keeps ts (time_of j us) ≡ true)
unfolding time_of
keeps-Below ts t j [] h b = inl refl
keeps-Below ts t j ((s, k) ∷ us) h b = elim (Bool-cases (eq_ℤ k j)) [
  | inl e ↦ rw e (inr (ground (arith, h, b.0)))
  | inr e ↦ rw e (keeps-Below ts t j us h b.1)
]

Agree-only :
    (ts : ℕ) (t : Option ℕ) (q : Option Request) (m : Option ℕ)
    → Agree t q m
    → (t ≡ none) ⊎ (keeps ts t ≡ true)
    → (t ≡ only_if (keeps ts t) t) × (q ≡ only_if (keeps ts t) q)
Agree-only ts none none m a k = (refl, refl)
Agree-only ts none (some q) m a k = elim a [ ]
Agree-only ts (some t) q m a (inl e) = absurd cc
Agree-only ts (some t) q m a (inr e) = rw e (refl, refl)

one_more :
    (q' q : List Request) (req : Request) (xs ys : List Request)
    → q' ≡ (q ++ (req ∷ [])) ++ xs
    → xs ≡ ys
    → q' ≡ q ++ (req ∷ ys)
one_more q' q req xs ys e f = e ∙ append_assoc q (req ∷ []) xs ∙ ap (λ l. q ++ (req ∷ l)) f

stays :
    (ts : ℕ) (us : Stamps) (r : Requests)
    → r.unsent_timestamps ≡ us
    → Coherent r
    → due ts us r.unique_requests ≡ []
    → ((j : ℤ) → (time_of j us ≡ none) ⊎ (keeps ts (time_of j us) ≡ true))
    → (r.request_queue ≡ r.request_queue ++ due ts us r.unique_requests)
      × ((j : ℤ)
          → (time_of j r.unsent_timestamps ≡ only_if (keeps ts (time_of j us)) (time_of j us))
            × (r.unique_requests j ≡ only_if (keeps ts (time_of j us)) (r.unique_requests j)))
stays ts us r e c d k = (
  rw d (sym (append-nil r.request_queue)),
  λ j. let (p, q) = Agree-only ts _ _ _ (rw e at (c.agree j)) (k j) in (ap (time_of j) e ∙ p, q),
)

check_loop-due :
    (ts : ℕ) (us : Stamps) (r : Requests)
    → r.unsent_timestamps ≡ us
    → Coherent r
    → (r' : Requests) × (check_loop ts us r ≡ some r')
      × Coherent r'
      × (r'.request_queue ≡ r.request_queue ++ due ts us r.unique_requests)
      × ((j : ℤ)
          → (time_of j r'.unsent_timestamps ≡ only_if (keeps ts (time_of j us)) (time_of j us))
            × (r'.unique_requests j ≡ only_if (keeps ts (time_of j us)) (r.unique_requests j)))
unfolding check_loop release_unique time_of due
check_loop-due ts [] r e c =
    let (q, each) = stays ts [] r e c refl (λ j. inl refl) in (r, refl, c, q, each)
check_loop-due ts ((t, k) ∷ rest) r e c = elim (Bool-cases (too_early ts t)) [
  | inl b ↦
      let s : Rising ((t, k) ∷ rest) = rw e at c.rising in
      let low : Below t ((t, k) ∷ rest) = (omega arith, s.0) in
      let (q, each) =
        stays ts ((t, k) ∷ rest) r e c (none_due ts t ((t, k) ∷ rest) r.unique_requests b low)
          (λ j. keeps-Below ts t j ((t, k) ∷ rest) b low) in
      (r, rw b refl, c, q, each)
  | inr b ↦
      let first : time_of k r.unsent_timestamps ≡ some t =
        ap (time_of k) e ∙ rw (eq_ℤ-refl k) refl in
      let (req, w) = Agree-waits _ t _ _ first (c.agree k) in
      let d' : Distinct ((t, k) ∷ rest) = rw e at c.distinct in
      let (r', same, d, q, each) =
        check_loop-due ts rest _ refl (release_unique-Coherent t k rest req r e c) in
      (
        r',
        rw (b, w) same,
        d,
        rw (b, w)
            (one_more _ r.request_queue req _ _ q (due-drop_key ts k rest r.unique_requests d'.0)),
        λ j. elim (Bool-cases (eq_ℤ k j)) [
          | inl h ↦ rw (h, b) (rw (h, at_key k j (λ i. time_of i rest) none h d'.0) at (each j))
          | inr h ↦ rw h (rw h at (each j))
        ],
      )
]

-- In a coherent state CheckUniqueRequests reads past no end and keeps the state coherent; it appends to
-- the queue exactly the requests whose key has waited long enough, the earliest first, and leaves the
-- other keys with their times and requests.
pub check_unique-due :
    (ts : ℕ) (r : Requests)
    → Coherent r
    → (r' : Requests) × (check_unique ts r ≡ some r')
      × Coherent r'
      × (r'.request_queue ≡ r.request_queue ++ due ts r.unsent_timestamps r.unique_requests)
      × ((j : ℤ)
          → (time_of j r'.unsent_timestamps
              ≡ only_if (keeps ts (time_of j r.unsent_timestamps)) (time_of j r.unsent_timestamps))
            × (r'.unique_requests j
                ≡ only_if (keeps ts (time_of j r.unsent_timestamps)) (r.unique_requests j)))
unfolding check_unique
check_unique-due ts r c = check_loop-due ts r.unsent_timestamps r refl c
