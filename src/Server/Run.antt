-- ===== src/Server/Run.antt =====
-- The threads of src/server_io.cpp on the requests: each step is one hold of `request_queue_mtx` or
-- `backup_queue_mtx`.
use tioj_judge.Base.{ℕ, ◌≡◌, [], none, some, subst}
use tioj_judge.Server.Requests.{
  Request, Requests, push_request, check_unique, send_front, back_up, resend_backup, clear_backup,
}
use tioj_judge.Server.Stamps.{time_of}
use tioj_judge.Server.Coherent.{
  Coherent, Free, push_request-Coherent, send_from-Coherent, back_up-Coherent,
}
use tioj_judge.Server.Release.{check_unique-due}

-- A push by any thread, a round of `CheckUniqueRequests`, a request that `RequestLoop` takes while it sends
-- no other, the end of its sending, a message of the server, and a lost connection.
pub data RequestStep : Requests → Requests → Type 0 where
  pushed : (req : Request) (r : Requests) → RequestStep r (push_request req r)
  checked : (ts : ℕ) (r r' : Requests) → check_unique ts r ≡ some r' → RequestStep r r'
  taken :
      (ts : ℕ) (req : Request) (r r' : Requests)
      → r.sending ≡ none
      → send_front ts r ≡ some (req, r')
      → RequestStep r r'
  sent : (r : Requests) → RequestStep r (back_up r.sending r)
  received : (r : Requests) → RequestStep r (clear_backup r)
  reconnected : (r : Requests) → RequestStep r (resend_backup r)

-- A unique request is taken only while no other waits under its key.
abbrev pub Unraced : (r s : Requests) → RequestStep r s → Type 0
Unraced _ _ (taken ts req r s i e) = Free req r
Unraced _ _ _ = Unit

abbrev pub no_requests : Requests
no_requests = record {
  unsent_timestamps = [];
  unique_timestamp_map = λ k. none;
  unique_requests = λ k. none;
  request_queue = [];
  backup_queue = [];
  sending = none;
}

pub data RequestReach : Requests → Type 0 where
  start : RequestReach no_requests
  step : (r s : Requests) (t : RequestStep r s) → RequestReach r → Unraced r s t → RequestReach s

RequestStep-Coherent :
    (r s : Requests) (t : RequestStep r s) → Unraced r s t → Coherent r → Coherent s
unfolding clear_backup resend_backup
RequestStep-Coherent r s (pushed req _) f c = push_request-Coherent req r c
RequestStep-Coherent r s (checked ts _ _ e) f c =
    let (s', e', d, q, each) = check_unique-due ts r c in
    let same : s' ≡ s = cc in subst Coherent same d
RequestStep-Coherent r s (taken ts req _ _ i e) f c =
    send_from-Coherent ts r.request_queue r req s e f c
RequestStep-Coherent r s (sent _) f c = back_up-Coherent r.sending r c
RequestStep-Coherent r s (received _) f c = record {
  distinct = c.distinct;
  rising = c.rising;
  agree = c.agree;
}
RequestStep-Coherent r s (reconnected _) f c = record {
  distinct = c.distinct;
  rising = c.rising;
  agree = c.agree;
}

-- However pushes, rounds of CheckUniqueRequests, sent requests, messages and lost connections interleave,
-- as long as a unique request is sent only while no other waits under its key: a request waits under a
-- key exactly when a time waits under it, that time is the one on record for the key if there is one,
-- no key waits twice, the earliest stands first, and CheckUniqueRequests reads past no end.
pub reachable-Coherent :
    (r : Requests)
    → RequestReach r
    → Coherent r × ((ts : ℕ) → (r' : Requests) × (check_unique ts r ≡ some r'))
unfolding time_of
reachable-Coherent r h =
    let c = coherent r h in (c, λ ts. let d = check_unique-due ts r c in (d.0, d.1))
  where
    coherent : (r : Requests) → RequestReach r → Coherent r
    coherent r start = record { distinct = tt; rising = tt; agree = λ j. tt }
    coherent r (step s _ t h f) = RequestStep-Coherent s r t f (coherent s h)
