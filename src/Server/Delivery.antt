-- ===== src/Server/Delivery.antt =====
-- That the requests of src/server_io.cpp lose no result of a testdata.
use tioj_judge.Base.{
  ℕ, ◌+◌, ◌≡◌, ◌∙◌, refl, ap, subst, inl, inr, false, Bool, List, [], ◌∷◌, ◌++◌, Option, none, some,
  arith, Bool-cases, Option-cases, Holds-if,
}
use tioj_judge.Base.Int.{ℤ}
use tioj_judge.Handler.{eq_ℤ}
use tioj_judge.Handler.Execute.Verdicts.{eq_ℤ-eq}
use tioj_judge.Server.Requests.{
  Stamps, Request, Requests, drop_key, push_back, pop_waiting, push_request, too_early,
  release_unique, check_loop, check_unique, note_sent, send_from, back_up, resend_backup, TdJson,
}
use tioj_judge.Server.Run.{RequestStep, pushed, checked, taken, sent, received, reconnected}
use tioj_judge.Server.Coherent.{at_key}
use tioj_judge.Server.Results.{
  brings, in_queue, held, Keyed, Ordinary, in_queue-append, brings_other, brings_plain,
  push_unique-Keyed, push_unique-held,
}

drop_key-Keyed :
    (k : ℤ) (r s : Requests)
    → ((j : ℤ) → s.unique_requests j ≡ drop_key k r.unique_requests j)
    → Keyed r
    → Keyed s
unfolding drop_key
drop_key-Keyed k r s each y j q e = elim (Bool-cases (eq_ℤ k j)) [
  | inl b ↦ absurd (let f : none ≡ some q = rw (each j, b) at e in cc)
  | inr b ↦ y j q (rw (each j, b) at e)
]

pop_waiting-Keyed : (t : Option ℕ) (k : ℤ) (r : Requests) → Keyed r → Keyed (pop_waiting t k r)
unfolding pop_waiting
pop_waiting-Keyed none k r y = y
pop_waiting-Keyed (some t) k r y = drop_key-Keyed k r (pop_waiting (some t) k r) (λ j. refl) y

push_request-Keyed : (req : Request) (r : Requests) → Keyed r → Keyed (push_request req r)
unfolding push_request
push_request-Keyed req r y =
    Holds-if Keyed req.is_unique _ _ (λ u. push_unique-Keyed req r _ _ u y)
      (λ u.
        Holds-if Keyed req.force_pop _ _ (λ f. pop_waiting-Keyed _ req.key r y)
          (λ f. Holds-if Keyed req.is_subscribe _ _ (λ s. y) (λ s. y)))

pop_waiting-held :
    (t : Option ℕ) (p : TdJson → Bool) (k j : ℤ) (r : Requests)
    → eq_ℤ j k ≡ false
    → held p k (pop_waiting t j r) ≡ held p k r
unfolding pop_waiting held drop_key
pop_waiting-held none p k j r h = refl
pop_waiting-held (some t) p k j r h = rw h refl

push_back-held :
    (p : TdJson → Bool) (k : ℤ) (req : Request) (r : Requests)
    → held p k (push_back req r) ≡ held p k r + brings p k req
unfolding held in_queue
push_back-held p k req r = rw (in_queue-append p k r.request_queue (req ∷ [])) (omega arith)

push_front-held :
    (p : TdJson → Bool) (k : ℤ) (req : Request) (r : Requests)
    → req.is_unique ≡ false
    → held p k (record r { request_queue = req ∷ r.request_queue }) ≡ held p k r + brings p k req
unfolding held in_queue
push_front-held p k req r u = omega (arith, brings_plain p k req u)

push_request-held :
    (p : TdJson → Bool) (k : ℤ) (req : Request) (r : Requests)
    → Ordinary k req
    → Keyed r
    → held p k (push_request req r) ≡ held p k r + brings p k req
unfolding push_request
push_request-held p k req r o y =
    let More : Requests → Type 0 = λ s. held p k s ≡ held p k r + brings p k req in
    Holds-if More req.is_unique _ _ (λ u. push_unique-held p k req r _ _ refl u o y)
      (λ u.
        Holds-if More req.force_pop _ _
          (λ f.
            push_back-held p k req (pop_waiting (r.unique_timestamp_map req.key) req.key r)
            ∙ ap (λ n. n + brings p k req) (pop_waiting-held _ p k req.key r (o.no_end u f)))
          (λ f.
            Holds-if More req.is_subscribe _ _ (λ s. push_front-held p k req r u)
              (λ s. push_back-held p k req r)))

-- A request that `CheckUniqueRequests` moves from the waiting ones to the queue.
abbrev moved : ℤ → Stamps → Request → Requests → Requests
moved key rest req r = record r {
  unsent_timestamps = rest;
  unique_requests = drop_key key r.unique_requests;
  request_queue = r.request_queue ++ (req ∷ []);
}

moved-held :
    (p : TdJson → Bool) (k key : ℤ) (rest : Stamps) (req : Request) (r : Requests)
    → r.unique_requests key ≡ some req
    → Keyed r
    → held p k (moved key rest req r) ≡ held p k r
unfolding held drop_key in_queue
moved-held p k key rest req r w y =
    let (u, c) = y key req w in
    let same : req.key ≡ key = (eq_ℤ-eq req.key key).0 c in
    rw (in_queue-append p k r.request_queue (req ∷ [])) (elim (Bool-cases (eq_ℤ key k)) [
      | inl b ↦ rw (b, at_key key k r.unique_requests (some req) b w) (omega arith)
      | inr b ↦ rw b (omega (arith, brings_other p k req (rw same b)))
    ])

abbrev passed : ℕ → Request → List Request → Requests → Requests
passed ts front queue r = record r {
  unique_timestamp_map = note_sent ts front r.unique_timestamp_map;
  request_queue = queue;
  sending = some front;
}

passed-held :
    (p : TdJson → Bool) (k : ℤ) (ts : ℕ) (front : Request) (queue : List Request) (r : Requests)
    → r.request_queue ≡ front ∷ queue
    → r.sending ≡ none
    → held p k (passed ts front queue r) ≡ held p k r
unfolding held in_queue
passed-held p k ts front queue r q i = rw (q, i) (omega arith)

back_up-held :
    (p : TdJson → Bool) (k : ℤ) (o : Option Request) (r : Requests)
    → r.sending ≡ o
    → held p k (back_up o r) ≡ held p k r
unfolding held in_queue back_up
back_up-held p k none r i = refl
back_up-held p k (some req) r i =
    rw (i, in_queue-append p k r.backup_queue (req ∷ [])) (omega arith)

back_up-Keyed : (o : Option Request) (r : Requests) → Keyed r → Keyed (back_up o r)
unfolding back_up
back_up-Keyed none r y = y
back_up-Keyed (some req) r y = y

release_unique-held :
    (p : TdJson → Bool) (k key : ℤ) (rest : Stamps) (o : Option Request) (r s : Requests)
    → r.unique_requests key ≡ o
    → release_unique key rest o r ≡ some s
    → Keyed r
    → (held p k s ≡ held p k r) × Keyed s
unfolding release_unique
release_unique-held p k key rest none r s w e y = absurd cc
release_unique-held p k key rest (some req) r s w e y =
    let same : moved key rest req r ≡ s = cc in
    subst (λ z. (held p k z ≡ held p k r) × Keyed z) same
      (moved-held p k key rest req r w y, drop_key-Keyed key r (moved key rest req r) (λ j. refl) y)

check_loop-held :
    (p : TdJson → Bool) (k : ℤ) (ts : ℕ) (us : Stamps) (r s : Requests)
    → check_loop ts us r ≡ some s
    → Keyed r
    → (held p k s ≡ held p k r) × Keyed s
unfolding check_loop
check_loop-held p k ts [] r s e y =
    let same : r ≡ s = cc in subst (λ z. (held p k z ≡ held p k r) × Keyed z) same (refl, y)
check_loop-held p k ts ((t, key) ∷ us) r s e y = elim (Bool-cases (too_early ts t)) [
  | inl b ↦
      let f : some r ≡ some s = rw b at e in
      let same : r ≡ s = cc in subst (λ z. (held p k z ≡ held p k r) × Keyed z) same (refl, y)
  | inr b ↦ elim (Option-cases (release_unique key us (r.unique_requests key) r)) [
    | inl n ↦ absurd (let f : none ≡ some s = rw (b, n) at e in cc)
    | inr (r', n) ↦
        let (h, y') = release_unique-held p k key us _ r r' refl n y in
        let (h', y'') = check_loop-held p k ts us r' s (rw (b, n) at e) y' in (h' ∙ h, y'')
  ]
]

send_from-held :
    (p : TdJson → Bool) (k : ℤ) (ts : ℕ) (queue : List Request) (r s : Requests) (req : Request)
    → r.request_queue ≡ queue
    → r.sending ≡ none
    → send_from ts queue r ≡ some (req, s)
    → Keyed r
    → (held p k s ≡ held p k r) × Keyed s
unfolding send_from
send_from-held p k ts [] r s req q i e y = absurd cc
send_from-held p k ts (front ∷ queue) r s req q i e y =
    let same : passed ts front queue r ≡ s = cc in
    subst (λ z. (held p k z ≡ held p k r) × Keyed z) same (passed-held p k ts front queue r q i, y)

resend_backup-held :
    (p : TdJson → Bool) (k : ℤ) (r : Requests) → held p k (resend_backup r) ≡ held p k r
unfolding held resend_backup in_queue
resend_backup-held p k r = rw (in_queue-append p k r.backup_queue r.request_queue) (omega arith)

-- The results of `k` that a step adds.
abbrev pub added : (p : TdJson → Bool) (k : ℤ) (r s : Requests) → RequestStep r s → ℕ
added p k _ _ (pushed req r) = brings p k req
added p k _ _ _ = 0

-- The steps between two messages of the server in which `k` does not end.
abbrev pub Unanswered : (k : ℤ) (r s : Requests) → RequestStep r s → Type 0
Unanswered k _ _ (pushed req r) = Ordinary k req
Unanswered k _ _ (received r) = ⊥
Unanswered k _ _ _ = Unit

pub data Since (p : TdJson → Bool) (k : ℤ) (r : Requests) : ℕ → Requests → Type 0 where
  nothing : Since p k r 0 r
  and_then :
      (n : ℕ) (s u : Requests) (t : RequestStep s u)
      → Since p k r n s
      → Unanswered k s u t
      → Since p k r (n + added p k s u t) u

RequestStep-held :
    (p : TdJson → Bool) (k : ℤ) (r s : Requests) (t : RequestStep r s)
    → Unanswered k r s t
    → Keyed r
    → (held p k s ≡ held p k r + added p k r s t) × Keyed s
unfolding check_unique resend_backup
RequestStep-held p k _ _ (pushed req r) o y =
    (push_request-held p k req r o y, push_request-Keyed req r y)
RequestStep-held p k _ _ (checked ts r s e) o y =
    let (h, y') = check_loop-held p k ts r.unsent_timestamps r s e y in (omega (arith, h), y')
RequestStep-held p k _ _ (taken ts req r s i e) o y =
    let (h, y') = send_from-held p k ts r.request_queue r s req refl i e y in (omega (arith, h), y')
RequestStep-held p k _ _ (sent r) o y =
    (omega (arith, back_up-held p k r.sending r refl), back_up-Keyed r.sending r y)
RequestStep-held p k _ _ (received r) o y = elim o [ ]
RequestStep-held p k _ _ (reconnected r) o y = (omega (arith, resend_backup-held p k r), y)

-- From one message of the server to the next, while `k` does not end and only results are pushed under its
-- key: in whichever order requests are pushed and merged, CheckUniqueRequests runs, requests are taken from
-- the queue and kept after their sending, and the connection is lost, no result of `k` is lost, doubled or
-- changed. For any test of results, those that pass it among the ones that wait, stand in the queue, are
-- being sent or are kept to be sent again are as many as before and among the added ones together.
pub since-held :
    (p : TdJson → Bool) (k : ℤ) (r : Requests) (n : ℕ) (s : Requests)
    → Keyed r
    → Since p k r n s
    → (held p k s ≡ held p k r + n) × Keyed s
since-held p k r n s y nothing = (omega arith, y)
since-held p k r n s y (and_then m u _ t q o) =
    let (h, y') = since-held p k r m u y q in
    let (h', y'') = RequestStep-held p k u s t o y' in (omega (arith, h, h'), y'')
