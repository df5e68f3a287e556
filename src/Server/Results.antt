-- ===== src/Server/Results.antt =====
-- The results of testdata on their way to the server (src/server_io.cpp): those that wait, those that
-- stand in the queue, and those that were sent and may have to be sent again.
use tioj_judge.Base.{
  ℕ, suc, Bool, ◌+◌, ◌≡◌, ◌∙◌, refl, inl, inr, true, false, ◌&&◌, List, [], ◌∷◌, ◌++◌,
  if◌then◌else◌, Option, none, some, arith, Bool-cases,
}
use tioj_judge.Base.Int.{ℤ}
use tioj_judge.Handler.{eq_ℤ}
use tioj_judge.Handler.Execute.Verdicts.{eq_ℤ-eq}
use tioj_judge.Server.Requests.{
  TdJson, Body, td_result, no_body, final_result, status, queued, Request, Requests, put, results,
  merge, merge_body, push_unique,
}
use tioj_judge.Server.Coherent.{at_key}

-- How many of the results pass a test.
unfoldable pub tally : (TdJson → Bool) → List TdJson → ℕ
tally p [] = 0
tally p (td ∷ tds) = if p td then suc (tally p tds) else tally p tds

tally-append :
    (p : TdJson → Bool) (xs ys : List TdJson) → tally p (xs ++ ys) ≡ tally p xs + tally p ys
unfolding tally
tally-append p [] ys = omega arith
tally-append p (x ∷ xs) ys = ground (arith, tally-append p xs ys)

-- How many results that pass the test a request brings for the submission `k`.
unfoldable pub brings : (TdJson → Bool) → ℤ → Request → ℕ
brings p k req = if req.is_unique && eq_ℤ req.key k then tally p (results req.body) else 0

unfoldable pub in_queue : (TdJson → Bool) → ℤ → List Request → ℕ
in_queue p k [] = 0
in_queue p k (req ∷ rs) = brings p k req + in_queue p k rs

abbrev pub waiting : (TdJson → Bool) → ℤ → Option Request → ℕ
waiting p k none = 0
waiting p k (some req) = brings p k req

unfoldable pub held : (TdJson → Bool) → ℤ → Requests → ℕ
held p k r =
    waiting p k (r.unique_requests k)
    + in_queue p k r.request_queue
    + waiting p k r.sending
    + in_queue p k r.backup_queue

-- A request waits under its own key, and is unique.
abbrev pub Keyed : Requests → Type 0
Keyed r =
    (j : ℤ) (req : Request)
    → r.unique_requests j ≡ some req
    → (req.is_unique ≡ true) × (eq_ℤ req.key j ≡ true)

-- What is pushed under the key `k` are results, and no end of the submission.
abbrev pub HasResults : Body → Type 0
HasResults (td_result id rs) = Unit
HasResults _ = ⊥

pub record Ordinary (k : ℤ) (req : Request) : Type 0 where
  pub of_results : req.is_unique ≡ true → eq_ℤ req.key k ≡ true → HasResults req.body
  pub no_end : req.is_unique ≡ false → req.force_pop ≡ true → eq_ℤ req.key k ≡ false

pub in_queue-append :
    (p : TdJson → Bool) (k : ℤ) (xs ys : List Request)
    → in_queue p k (xs ++ ys) ≡ in_queue p k xs + in_queue p k ys
unfolding in_queue
in_queue-append p k [] ys = omega arith
in_queue-append p k (x ∷ xs) ys = omega (arith, in_queue-append p k xs ys)

merge_lem :
    (p : TdJson → Bool) (old : Request) (body : Body)
    → HasResults body
    → tally p (results (merge_body old.body body))
      ≡ tally p (results body) + tally p (results old.body)
merge_lem p old (td_result id rs) h = tally-append p rs (results old.body)
merge_lem p old no_body h = elim h [ ]
merge_lem p old (final_result id f) h = elim h [ ]
merge_lem p old (status id f) h = elim h [ ]
merge_lem p old (queued id) h = elim h [ ]

-- The request that waits after a push of `req`.
new : Option Request → Request → Request
new none req = req
new (some old) req = merge old.body req

push_unique_lem :
    (req : Request) (r : Requests) (o : Option Request) (t : Option ℕ)
    → ((j : ℤ)
        → (push_unique o t req r).unique_requests j
          ≡ (if eq_ℤ req.key j then some (new o req) else r.unique_requests j))
      × ((push_unique o t req r).request_queue ≡ r.request_queue)
      × ((push_unique o t req r).backup_queue ≡ r.backup_queue)
      × ((push_unique o t req r).sending ≡ r.sending)
unfolding push_unique put new
push_unique_lem req r (some old) t = (λ j. refl, refl, refl, refl)
push_unique_lem req r none (some t) = (λ j. refl, refl, refl, refl)
push_unique_lem req r none none = (λ j. refl, refl, refl, refl)

new_keeps :
    (o : Option Request) (req : Request)
    → ((new o req).is_unique ≡ req.is_unique) × ((new o req).key ≡ req.key)
unfolding new
new_keeps none req = (refl, refl)
new_keeps (some old) req = (refl, refl)

pub push_unique-Keyed :
    (req : Request) (r : Requests) (o : Option Request) (t : Option ℕ)
    → req.is_unique ≡ true
    → Keyed r
    → Keyed (push_unique o t req r)
push_unique-Keyed req r o t u h j q e = elim (Bool-cases (eq_ℤ req.key j)) [
  | inl b ↦
      let f : some (new o req) ≡ some q = rw ((push_unique_lem req r o t).0 j, b) at e in
      let same : new o req ≡ q = cc in
      let kept = new_keeps o req in rw (← same) (kept.0 ∙ u, rw (kept.1) b)
  | inr b ↦ h j q (rw ((push_unique_lem req r o t).0 j, b) at e)
]

brings_self :
    (p : TdJson → Bool) (k : ℤ) (req : Request)
    → req.is_unique ≡ true
    → eq_ℤ req.key k ≡ true
    → brings p k req ≡ tally p (results req.body)
unfolding brings
brings_self p k req u b = ground (arith, u, b)

pub brings_other :
    (p : TdJson → Bool) (k : ℤ) (req : Request) → eq_ℤ req.key k ≡ false → brings p k req ≡ 0
unfolding brings
brings_other p k req b = ground (arith, b)

pub brings_plain :
    (p : TdJson → Bool) (k : ℤ) (req : Request) → req.is_unique ≡ false → brings p k req ≡ 0
unfolding brings
brings_plain p k req u = rw u refl

brings-new :
    (p : TdJson → Bool) (k : ℤ) (req : Request) (r : Requests) (o : Option Request)
    → r.unique_requests req.key ≡ o
    → req.is_unique ≡ true
    → eq_ℤ req.key k ≡ true
    → HasResults req.body
    → Keyed r
    → brings p k (new o req) ≡ brings p k req + waiting p k o
unfolding new
brings-new p k req r none e u b h y = omega arith
brings-new p k req r (some old) e u b h y =
    let (v, c) = y req.key old e in
    let same : req.key ≡ k = (eq_ℤ-eq req.key k).0 b in
    let c' : eq_ℤ old.key k ≡ true = rw same at c in
    omega (
      arith,
      brings_self p k (merge old.body req) u b,
      brings_self p k req u b,
      brings_self p k old v c',
      merge_lem p old req.body h,
    )

pub push_unique-held :
    (p : TdJson → Bool) (k : ℤ) (req : Request) (r : Requests) (o : Option Request) (t : Option ℕ)
    → r.unique_requests req.key ≡ o
    → req.is_unique ≡ true
    → Ordinary k req
    → Keyed r
    → held p k (push_unique o t req r) ≡ held p k r + brings p k req
unfolding held
push_unique-held p k req r o t e u ord y =
    let (each, q, b, s) = push_unique_lem req r o t in
    rw (each k, q, b, s)
      (elim (Bool-cases (eq_ℤ req.key k)) [
        | inl h ↦
            rw (h, at_key req.key k r.unique_requests o h e)
              (omega (arith, brings-new p k req r o e u h (ord.of_results u h) y))
        | inr h ↦ rw h (omega (arith, brings_other p k req h))
      ])
