-- ===== src/Server/Coherent.antt =====
-- The state that `request_queue_mtx` guards in src/server_io.cpp: the keys that wait for a time and the
-- requests that wait under a key are the same.
use tioj_judge.Base.{
  ℕ, ◌≡◌, ◌⊎◌, refl, ap, subst, inl, inr, Bool, true, false, List, [], ◌∷◌, ◌++◌, if◌then◌else◌,
  Option, none, some, Bool-cases,
}
use tioj_judge.Base.Int.{ℤ}
use tioj_judge.Handler.{eq_ℤ}
use tioj_judge.Handler.Execute.Verdicts.{eq_ℤ-eq}
use tioj_judge.Server.Requests.{
  Stamps, Map, Request, Requests, put, drop_key, merge, push_unique, pop_waiting, push_request,
  note_sent, send_from, back_up,
}
use tioj_judge.Server.Rising.{Rising, insert-Rising, erase-Rising}
use tioj_judge.Server.Stamps.{
  time_of, Distinct, time_of-insert, insert-Distinct, time_of-erase, erase-Distinct, erase-absent,
}

-- A key waits for a time exactly when a request waits under it; the time is the one that is on record
-- for the key, if there still is one.
abbrev pub Agree : Option ℕ → Option Request → Option ℕ → Type 0
Agree none none t = Unit
Agree (some s) (some q) none = Unit
Agree (some s) (some q) (some t) = s ≡ t
Agree _ _ _ = ⊥

pub record Coherent (r : Requests) : Type 0 where
  pub distinct : Distinct r.unsent_timestamps
  pub rising : Rising r.unsent_timestamps
  pub agree :
      (j : ℤ)
      → Agree (time_of j r.unsent_timestamps) (r.unique_requests j) (r.unique_timestamp_map j)

-- No request waits under the key of the unique request `req`, which stands in the queue.
abbrev pub Free : Request → Requests → Type 0
Free req r = req.is_unique ≡ true → r.unique_requests req.key ≡ none

Agree-again :
    (t : Option ℕ) (q q' : Request) (m : Option ℕ) → Agree t (some q) m → Agree t (some q') m
Agree-again none q q' m a = elim a [ ]
Agree-again (some s) q q' none a = tt
Agree-again (some s) q q' (some t) a = a

Agree-none : (t : Option ℕ) (m : Option ℕ) → Agree t none m → t ≡ none
Agree-none none m a = refl
Agree-none (some s) m a = elim a [ ]

Agree-forget : (t : Option ℕ) (q : Option Request) (m : Option ℕ) → Agree t q m → Agree t q none
Agree-forget none none m a = tt
Agree-forget none (some q) m a = elim a [ ]
Agree-forget (some s) none m a = elim a [ ]
Agree-forget (some s) (some q) m a = tt

Agree-idle : (t m m' : Option ℕ) → Agree t none m → Agree t none m'
Agree-idle none m m' a = tt
Agree-idle (some s) m m' a = elim a [ ]

-- The entry of a key whose time is on record.
Agree-some :
    (t : Option ℕ) (q : Option Request) (s : ℕ) → Agree t q (some s) → (t ≡ none) ⊎ (t ≡ some s)
Agree-some none q s a = inl refl
Agree-some (some u) none s a = elim a [ ]
Agree-some (some u) (some q) s a = inr (ap some a)

pub Agree-waits :
    (t : Option ℕ) (s : ℕ) (q : Option Request) (m : Option ℕ)
    → t ≡ some s
    → Agree t q m
    → (req : Request) × (q ≡ some req)
Agree-waits none s q m e a = absurd cc
Agree-waits (some u) s none m e a = elim a [ ]
Agree-waits (some u) s (some q) m e a = (q, refl)

pub at_key : {A : Type 0} (k j : ℤ) (m : Map A) (o : Option A) → eq_ℤ k j ≡ true → m k ≡ o → m j ≡ o
at_key k j m o b e = rw (← (eq_ℤ-eq k j).0 b) e

push_unique-Coherent :
    (req : Request) (r : Requests) (o : Option Request) (t : Option ℕ)
    → r.unique_requests req.key ≡ o
    → r.unique_timestamp_map req.key ≡ t
    → Coherent r
    → Coherent (push_unique o t req r)
unfolding push_unique put
push_unique-Coherent req r (some old) t e f c = record {
  distinct = c.distinct;
  rising = c.rising;
  agree = λ j. elim (Bool-cases (eq_ℤ req.key j)) [
    | inl b ↦
        let w = at_key req.key j r.unique_requests (some old) b e in
        rw b (Agree-again _ old (merge old.body req) _ (rw w at (c.agree j)))
    | inr b ↦ rw b (c.agree j)
  ];
}
push_unique-Coherent req r none (some t) e f c =
    let k = req.key in
    let idle = Agree-none _ _ (rw e at (c.agree k)) in
    record {
      distinct = insert-Distinct k t r.unsent_timestamps idle c.distinct;
      rising = insert-Rising t k r.unsent_timestamps c.rising;
      agree = λ j.
          rw (time_of-insert j k t r.unsent_timestamps idle) (elim (Bool-cases (eq_ℤ k j)) [
            | inl b ↦ rw (b, at_key k j r.unique_timestamp_map (some t) b f) refl
            | inr b ↦ rw b (c.agree j)
          ]);
    }
push_unique-Coherent req r none none e f c =
    let k = req.key in
    let idle = Agree-none _ _ (rw e at (c.agree k)) in
    record {
      distinct = insert-Distinct k 0 r.unsent_timestamps idle c.distinct;
      rising = insert-Rising 0 k r.unsent_timestamps c.rising;
      agree = λ j.
          rw (time_of-insert j k 0 r.unsent_timestamps idle)
            (elim (Bool-cases (eq_ℤ k j)) [ inl b ↦ rw b refl | inr b ↦ rw b (c.agree j) ]);
    }

pop_waiting-Coherent :
    (k : ℤ) (r : Requests) (t : Option ℕ)
    → r.unique_timestamp_map k ≡ t
    → Coherent r
    → Coherent (pop_waiting t k r)
unfolding pop_waiting drop_key
pop_waiting-Coherent k r none f c = c
pop_waiting-Coherent k r (some t) f c =
    let u = r.unsent_timestamps in
    elim (Agree-some _ _ t (rw f at (c.agree k))) [
      | inl idle ↦ record {
        distinct = rw (erase-absent k t u idle) c.distinct;
        rising = erase-Rising (t, k) u c.rising;
        agree = λ j. rw (erase-absent k t u idle) (elim (Bool-cases (eq_ℤ k j)) [
          | inl b ↦ rw (b, at_key k j (λ i. time_of i u) none b idle) tt
          | inr b ↦ rw b (c.agree j)
        ]);
      }
      | inr found ↦ record {
        distinct = erase-Distinct k t u c.distinct found;
        rising = erase-Rising (t, k) u c.rising;
        agree = λ j.
            rw (time_of-erase j k t u c.distinct found)
              (elim (Bool-cases (eq_ℤ k j)) [ inl b ↦ rw b tt | inr b ↦ rw b (c.agree j) ]);
      }
    ]

Coherent-if : (b : Bool) (x y : Requests) → Coherent x → Coherent y → Coherent (if b then x else y)
Coherent-if true x y c d = c
Coherent-if false x y c d = d

pub push_request-Coherent :
    (req : Request) (r : Requests) → Coherent r → Coherent (push_request req r)
unfolding push_request
push_request-Coherent req r c =
    let d = pop_waiting-Coherent req.key r _ refl c in
    Coherent-if req.is_unique _ _ (push_unique-Coherent req r _ _ refl refl c) (
      Coherent-if req.force_pop _ _
        (record { distinct = d.distinct; rising = d.rising; agree = d.agree })
        (Coherent-if req.is_subscribe _ _
          (record { distinct = c.distinct; rising = c.rising; agree = c.agree })
          (record { distinct = c.distinct; rising = c.rising; agree = c.agree })))

pub release_unique-Coherent :
    (t : ℕ) (k : ℤ) (rest : Stamps) (req : Request) (r : Requests)
    → r.unsent_timestamps ≡ (t, k) ∷ rest
    → Coherent r
    → Coherent (record r {
      unsent_timestamps = rest;
      unique_requests = drop_key k r.unique_requests;
      request_queue = r.request_queue ++ (req ∷ []);
    })
unfolding drop_key time_of
release_unique-Coherent t k rest req r e c =
    let d : Distinct ((t, k) ∷ rest) = rw e at c.distinct in
    let s : Rising ((t, k) ∷ rest) = rw e at c.rising in
    record {
      distinct = d.1;
      rising = s.1;
      agree = λ j. elim (Bool-cases (eq_ℤ k j)) [
        | inl b ↦ rw (b, at_key k j (λ i. time_of i rest) none b d.0) tt
        | inr b ↦ rw b (rw (e, b) at (c.agree j))
      ];
    }

Agree-note :
    (ts : ℕ) (req : Request) (r : Requests) (j : ℤ)
    → Free req r
    → Coherent r
    → Agree
        (time_of j r.unsent_timestamps)
        (r.unique_requests j)
        (note_sent ts req r.unique_timestamp_map j)
unfolding note_sent put drop_key
Agree-note ts req r j f c = elim (Bool-cases req.is_unique) [
  | inl u ↦ rw u (elim (Bool-cases (eq_ℤ req.key j)) [
    | inl b ↦
        let w = at_key req.key j r.unique_requests none b (f u) in
        rw b (rw w (Agree-idle _ (r.unique_timestamp_map j) _ (rw w at (c.agree j))))
    | inr b ↦ rw b (c.agree j)
  ])
  | inr u ↦ rw u (elim (Bool-cases req.force_pop) [
    | inl p ↦ rw p (elim (Bool-cases (eq_ℤ req.key j)) [
      | inl b ↦ rw b (Agree-forget _ _ _ (c.agree j))
      | inr b ↦ rw b (c.agree j)
    ])
    | inr p ↦ rw p (c.agree j)
  ])
]

pub send_from-Coherent :
    (ts : ℕ) (queue : List Request) (r : Requests) (req : Request) (r' : Requests)
    → send_from ts queue r ≡ some (req, r')
    → Free req r
    → Coherent r
    → Coherent r'
unfolding send_from
send_from-Coherent ts [] r req r' e f c = absurd cc
send_from-Coherent ts (front ∷ queue) r req r' e f c =
    let same : front ≡ req = cc in
    let after : record r {
      unique_timestamp_map = note_sent ts front r.unique_timestamp_map;
      request_queue = queue;
      sending = some front;
    }
        ≡ r' =
      cc in
    subst Coherent after (record {
      distinct = c.distinct;
      rising = c.rising;
      agree = λ j. Agree-note ts front r j (rw same f) c;
    })

pub back_up-Coherent : (o : Option Request) (r : Requests) → Coherent r → Coherent (back_up o r)
unfolding back_up
back_up-Coherent none r c = c
back_up-Coherent (some req) r c = record {
  distinct = c.distinct;
  rising = c.rising;
  agree = c.agree;
}
