-- ===== src/Server/Requests.antt =====
-- The outgoing requests of src/server_io.cpp: `Request`, the queues, `PushRequest`, `CheckUniqueRequests`,
-- `ResendBackupRequests`, and one round of the inner loop of `RequestLoop`. Times of the steady clock are
-- nanoseconds; a time that is stored has gone through a `long` and is a whole number of seconds.
use Prim.Native.String.{String}
use tioj_judge.Base.{
  ℕ, ◌+◌, ◌-◌, ◌*◌, ◌/◌, Bool, ◌&&◌, ◌||◌, List, [], ◌∷◌, ◌++◌, Option, none, some, ltb, leb, ◌==◌,
  if◌then◌else◌,
}
use tioj_judge.Base.Partial.{◌>>=◌}
use tioj_judge.Base.Int.{ℤ, negsuc, ltb_ℤ}
use tioj_judge.Handler.{eq_ℤ}

-- The object that `OneTdJSON` builds; `none` is null for `vss`, and a missing message.
pub record TdJson : Type 0 where
  pub position : ℕ
  pub verdict : String
  pub time : ℤ
  pub rss : ℤ
  pub score : ℤ
  pub vss : Option ℤ
  pub message : Option (String × List ℕ)

-- The object that `SendFinalResult` builds.
pub record FinalJson : Type 0 where
  pub verdict : String
  pub score : ℤ
  pub total_time : ℤ
  pub total_memory : ℤ
  pub message : Option String
  pub td_results : Option (List TdJson)

-- The bodies of the requests, one for each function that makes them.
pub data Body : Type 0 where
  no_body : Body
  td_result : ℕ → List TdJson → Body
  final_result : ℕ → FinalJson → Body
  status : ℕ → String → Body
  queued : List ℕ → Body

pub record Request : Type 0 where
  pub is_subscribe : Bool
  pub is_unique : Bool
  pub force_pop : Bool
  pub key : ℤ
  pub action : String
  pub body : Body

abbrev pub fetch_key : ℤ
fetch_key = negsuc 0

abbrev pub report_queued_key : ℤ
report_queued_key = negsuc 1

-- `std::set<std::pair<double, long>>` in its order.
abbrev pub Stamps : Type 0
Stamps = List (ℕ × ℤ)

abbrev pub eq_stamp : ℕ × ℤ → ℕ × ℤ → Bool
eq_stamp (s, j) (t, k) = s == t && eq_ℤ j k

abbrev pub stands_before : ℕ × ℤ → ℕ × ℤ → Bool
stands_before (s, j) (t, k) = ltb s t || (s == t && ltb_ℤ j k)

unfoldable pub insert_stamp : ℕ × ℤ → Stamps → Stamps
insert_stamp x [] = x ∷ []
insert_stamp x (y ∷ ys) =
    if stands_before y x
    then y ∷ insert_stamp x ys
    else (if eq_stamp y x then y ∷ ys else x ∷ y ∷ ys)

unfoldable pub erase_stamp : ℕ × ℤ → Stamps → Stamps
erase_stamp x [] = []
erase_stamp x (y ∷ ys) = if eq_stamp y x then ys else y ∷ erase_stamp x ys

-- A `std::unordered_map` that is never iterated.
abbrev pub Map : Type 0 → Type 0
Map A = ℤ → Option A

unfoldable pub put : {A : Type 0} → ℤ → A → Map A → Map A
put k a m j = if eq_ℤ k j then some a else m j

unfoldable pub drop_key : {A : Type 0} → ℤ → Map A → Map A
drop_key k m j = if eq_ℤ k j then none else m j

-- The variables that `request_queue_mtx` and `backup_queue_mtx` guard.
pub record Requests : Type 0 where
  pub unsent_timestamps : Stamps
  pub unique_timestamp_map : Map ℕ
  pub unique_requests : Map Request
  pub request_queue : List Request
  pub backup_queue : List Request
  pub sending : Option Request

-- `body["results"]`; a body without it gives an empty sequence.
abbrev pub results : Body → List TdJson
results (td_result id rs) = rs
results _ = []

-- The loop that merges the results of the waiting request into those of the new one.
abbrev pub merge_body : Body → Body → Body
merge_body old (td_result id rs) = td_result id (rs ++ results old)
merge_body old body = body

abbrev pub merge : Body → Request → Request
merge old req = record req { body = merge_body old req.body }

-- The three branches of a unique request.
unfoldable pub push_unique : Option Request → Option ℕ → Request → Requests → Requests
unfolding put insert_stamp
push_unique (some old) t req r = record r {
  unique_requests = put req.key (merge old.body req) r.unique_requests;
}
push_unique none (some t) req r = record r {
  unsent_timestamps = insert_stamp (t, req.key) r.unsent_timestamps;
  unique_requests = put req.key req r.unique_requests;
}
push_unique none none req r = record r {
  unsent_timestamps = insert_stamp (0, req.key) r.unsent_timestamps;
  unique_timestamp_map = put req.key 0 r.unique_timestamp_map;
  unique_requests = put req.key req r.unique_requests;
}

-- The test of a request that drops a waiting one.
unfoldable pub pop_waiting : Option ℕ → ℤ → Requests → Requests
unfolding erase_stamp drop_key
pop_waiting none key r = r
pop_waiting (some t) key r = record r {
  unsent_timestamps = erase_stamp (t, key) r.unsent_timestamps;
  unique_requests = drop_key key r.unique_requests;
}

abbrev pub push_back : Request → Requests → Requests
push_back req r = record r { request_queue = r.request_queue ++ (req ∷ []) }

-- PushRequest
unfoldable pub push_request : Request → Requests → Requests
unfolding push_unique pop_waiting
push_request req r =
    if req.is_unique
    then push_unique (r.unique_requests req.key) (r.unique_timestamp_map req.key) req r
    else if req.force_pop
    then push_back req (pop_waiting (r.unique_timestamp_map req.key) req.key r)
    else if req.is_subscribe
    then record r { request_queue = req ∷ r.request_queue }
    else push_back req r

abbrev pub second : ℕ
second = 1000000000

-- kUniqueReqMinInterval, and by how much kFetchMinInterval is less.
abbrev pub unique_interval : ℕ
unique_interval = 500000000

-- `it->first >= ts - kUniqueReqMinInterval`
abbrev pub too_early : ℕ → ℕ → Bool
too_early ts t = leb ts (t * second + unique_interval)

-- One round of the loop of `CheckUniqueRequests`; `none` where `find` gives `end()`, which the code reads.
unfoldable pub release_unique : ℤ → Stamps → Option Request → Requests → Option Requests
unfolding drop_key
release_unique key rest none r = none
release_unique key rest (some req) r = some (record r {
  unsent_timestamps = rest;
  unique_requests = drop_key key r.unique_requests;
  request_queue = r.request_queue ++ (req ∷ []);
})

-- The loop, on `unsent_timestamps`.
unfoldable pub check_loop : ℕ → Stamps → Requests → Option Requests
unfolding release_unique
check_loop ts [] r = some r
check_loop ts ((t, key) ∷ rest) r =
    if too_early ts t
    then some r
    else do r' ← release_unique key rest (r.unique_requests key) r; check_loop ts rest r'

-- CheckUniqueRequests, less its answer
unfoldable pub check_unique : ℕ → Requests → Option Requests
unfolding check_loop
check_unique ts r = check_loop ts r.unsent_timestamps r

-- `long ts = MonotonicTimestamp()`; the subtraction of 0.3 on a `long` rounds towards zero.
abbrev pub sent_at : ℕ → ℤ → ℕ
sent_at ts key = if eq_ℤ key fetch_key then ts / second - 1 else ts / second

-- The entry of a request that is sent.
unfoldable pub note_sent : ℕ → Request → Map ℕ → Map ℕ
unfolding put drop_key
note_sent ts req m =
    if req.is_unique
    then put req.key (sent_at ts req.key) m
    else (if req.force_pop then drop_key req.key m else m)

-- The first hold of `request_queue_mtx` in the inner loop of `RequestLoop`, with the request that it takes;
-- none when the queue is empty.
unfoldable pub send_from : ℕ → List Request → Requests → Option (Request × Requests)
unfolding note_sent
send_from ts [] r = none
send_from ts (req ∷ queue) r = some (
  req,
  record r {
    unique_timestamp_map = note_sent ts req r.unique_timestamp_map;
    request_queue = queue;
    sending = some req;
  },
)

-- The hold of `backup_queue_mtx`, after the request was sent.
unfoldable pub back_up : Option Request → Requests → Requests
back_up none r = r
back_up (some req) r = record r { backup_queue = r.backup_queue ++ (req ∷ []); sending = none }

abbrev pub send_front : ℕ → Requests → Option (Request × Requests)
send_front ts r = send_from ts r.request_queue r

-- ResendBackupRequests
unfoldable pub resend_backup : Requests → Requests
resend_backup r = record r { request_queue = r.backup_queue ++ r.request_queue; backup_queue = [] }

-- The first statement of `OnMessage`.
unfoldable pub clear_backup : Requests → Requests
clear_backup r = record r { backup_queue = [] }
