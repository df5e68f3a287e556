-- ===== src/Server/Tests.antt =====
-- Requests that wait, are released, sent and sent again.
use tioj_judge.Base.{ℕ, ◌+◌, ◌≡◌, refl, Bool, true, false, [], ◌∷◌, ◌++◌, Option, none, some, arith}
use tioj_judge.Base.Partial.{◌>>=◌}
use tioj_judge.Base.Text.{str_eq}
use tioj_judge.Base.Int.{ℤ, pos}
use tioj_judge.Verdict.{ac, nul}
use tioj_judge.Submission.{TestdataResult, CjailResult}
use tioj_judge.Server.Requests.{
  TdJson, td_result, Request, Requests, insert_stamp, erase_stamp, put, drop_key, push_unique,
  pop_waiting, push_request, release_unique, check_loop, check_unique, note_sent, send_from,
  send_front, back_up,
}
use tioj_judge.Server.Stamps.{time_of}
use tioj_judge.Server.Coherent.{Coherent, Free}
use tioj_judge.Server.Release.{due, keeps, only_if, check_unique-due}
use tioj_judge.Server.Run.{
  pushed, checked, taken, sent, RequestReach, start, step, no_requests, reachable-Coherent,
}
use tioj_judge.Server.Results.{held, brings, tally, Keyed, Ordinary}
use tioj_judge.Server.Delivery.{nothing, and_then, since-held}
use tioj_judge.Server.Report.{one_td_json, td_results_json, send_status, fetch_submission}
use tioj_judge.Server.Positions.{at_position, at_position-td_results_json}
use tioj_judge.Server.Base64.{output_base64}
use tioj_judge.Server.Base64.RoundTrip.{encode, output_base64-encode}

abbrev no_run : CjailResult
no_run = record {
  timekill = pos 0;
  oomkill = pos 0;
  si_code = pos 1;
  si_status = pos 0;
  user_us = pos 0;
  sys_us = pos 0;
  maxrss = pos 0;
  hiwater_vm = pos 0;
}

abbrev accepted : TestdataResult
accepted = record {
  execute_result = no_run;
  vss = pos 0;
  rss = pos 512;
  time = pos 1000;
  score = pos 100000000;
  verdict = ac;
  message_type = "";
  message = [];
  skip_stage = true;
}

abbrev unjudged : TestdataResult
unjudged = record accepted { verdict = nul }

abbrev json : TdJson
json = one_td_json true accepted 0

abbrev result_7 : Request
result_7 = record {
  is_subscribe = false;
  is_unique = true;
  force_pop = false;
  key = pos 7;
  action = "td_result";
  body = td_result 7 (json ∷ []);
}

abbrev results_7 : Request
results_7 = record result_7 { body = td_result 7 (json ∷ json ∷ []) }

abbrev once : Requests
once = push_request result_7 no_requests

abbrev twice : Requests
twice = push_request result_7 once

abbrev or_empty : Option Requests → Requests
or_empty none = no_requests
or_empty (some r) = r

abbrev after_send : Option (Request × Requests) → Requests
after_send none = no_requests
after_send (some (req, r)) = r

-- What is there after the front request was sent.
abbrev kept_send : Option (Request × Requests) → Requests
kept_send none = no_requests
kept_send (some (req, r)) = back_up r.sending r

-- The clock shows two seconds.
abbrev now : ℕ
now = 2000000000

abbrev released : Requests
released = or_empty (check_unique now twice)

abbrev gone : Requests
gone = after_send (send_front now released)

released-some : check_unique now twice ≡ some released
unfolding check_unique check_loop release_unique push_request push_unique insert_stamp put drop_key
released-some = refl

gone-some : send_front now released ≡ some (results_7, gone)
unfolding check_unique check_loop release_unique push_request push_unique insert_stamp put drop_key
    send_from note_sent
gone-some = refl

gone-Free : Free results_7 released
unfolding check_unique check_loop release_unique push_request push_unique insert_stamp put drop_key
gone-Free u = refl

released-idle : released.sending ≡ none
unfolding check_unique check_loop release_unique push_request push_unique insert_stamp put drop_key
released-idle = refl

twice-RequestReach : RequestReach twice
twice-RequestReach =
    step once twice (pushed result_7 once)
      (step no_requests once (pushed result_7 no_requests) start tt) tt

reached : RequestReach gone
reached =
    step released gone (taken now results_7 released gone released-idle gone-some)
      (step twice released (checked now twice released released-some) twice-RequestReach tt)
      gone-Free

reachable-Coherent_example :
    Coherent gone × ((ts : ℕ) → (r' : Requests) × (check_unique ts gone ≡ some r'))
reachable-Coherent_example = reachable-Coherent gone reached

check_unique-due_example :
    (r' : Requests) × (check_unique now twice ≡ some r')
    × Coherent r'
    × (r'.request_queue
        ≡ twice.request_queue ++ due now twice.unsent_timestamps twice.unique_requests)
    × ((j : ℤ)
        → (time_of j r'.unsent_timestamps
            ≡ only_if
                (keeps now (time_of j twice.unsent_timestamps))
                (time_of j twice.unsent_timestamps))
          × (r'.unique_requests j
              ≡ only_if (keeps now (time_of j twice.unsent_timestamps)) (twice.unique_requests j)))
check_unique-due_example =
    check_unique-due now twice (reachable-Coherent twice twice-RequestReach).0

result_7-Ordinary : Ordinary (pos 7) result_7
result_7-Ordinary = record { of_results = λ u k. tt; no_end = λ u. cc }

none-Keyed : Keyed no_requests
none-Keyed j q e = cc

abbrev is_accepted : TdJson → Bool
is_accepted td = str_eq td.verdict "AC"

since-held_example :
    (held is_accepted (pos 7) (back_up gone.sending gone)
      ≡ held is_accepted (pos 7) no_requests + 2)
    × Keyed (back_up gone.sending gone)
unfolding brings tally one_td_json
since-held_example =
    since-held is_accepted (pos 7) no_requests 2 (back_up gone.sending gone) none-Keyed (
      and_then 2 gone (back_up gone.sending gone) (sent gone)
        (and_then 2 released gone (taken now results_7 released gone released-idle gone-some)
          (and_then 2 twice released (checked now twice released released-some)
            (and_then 1 once twice (pushed result_7 once)
              (and_then 0 no_requests once (pushed result_7 no_requests) nothing result_7-Ordinary)
              result_7-Ordinary)
            tt)
          tt)
        tt)

at_position-td_results_json_example :
    (td_results_json true (unjudged ∷ accepted ∷ []) none >>= at_position 1)
    ≡ some (one_td_json true accepted 1)
at_position-td_results_json_example = at_position-td_results_json true (unjudged ∷ accepted ∷ []) 1

output_base64-encode_example :
    output_base64 (encode (77 ∷ 97 ∷ 110 ∷ 255 ∷ 0 ∷ [])) ≡ 77 ∷ 97 ∷ 110 ∷ 255 ∷ 0 ∷ []
output_base64-encode_example = output_base64-encode (77 ∷ 97 ∷ 110 ∷ 255 ∷ 0 ∷ []) (ground arith)

-- Two requests are released; while the first is sent a further result of the second's submission comes to
-- wait; the second is sent, and the submission ends. A time is left without a request, and the next round
-- of CheckUniqueRequests finds none.
abbrev both : Requests
both = or_empty (check_unique now (push_request fetch_submission once))

abbrev first_sent : Requests
first_sent = kept_send (send_front now both)

abbrev second_sent : Requests
second_sent = kept_send (send_front now (push_request result_7 first_sent))

stale_time : check_unique (now + now) (push_request (send_status 7 "Validating") second_sent) ≡ none
unfolding check_unique check_loop release_unique push_request push_unique pop_waiting insert_stamp
    erase_stamp put drop_key send_from note_sent back_up
stale_time = refl
