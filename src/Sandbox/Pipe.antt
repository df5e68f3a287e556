-- ===== src/Sandbox/Pipe.antt =====
-- The pipe between the judge and its sandbox process: `ReadFull` and `WriteFull` of
-- src/tioj/sandbox_io.h, the sending half of `SandboxExec` (src/tioj/sandbox_exec.cpp) and the
-- receiving half of `main` (src/tioj/sandbox_main.cpp). What the kernel does at each call of `read`
-- or `write` is an event of a schedule.
pub mod Delivery
use tioj_judge.Base.{
  ℕ, ◌+◌, ◌-◌, Bool, true, false, ◌||◌, ◌&&◌, List, [], ◌∷◌, ◌++◌, Option, none, some, ltb, leb,
  ◌==◌, length, take, drop, if◌then◌else◌,
}
use tioj_judge.Base.Int.{ℤ, pos, negsuc}
use tioj_judge.Word.{of_word, of_bytes}
use tioj_judge.Sandbox.{Bytes, SandboxOptions}
use tioj_judge.Sandbox.Serial.{serialize, deserialize, push_int}

-- `moves k` transfers k + 1 bytes, or what is wanted or there if that is less; `interrupted` is
-- EINTR, `failed` another error, and `closed` a result 0 of `write`.
pub data Event : Type 0 where
  moves : ℕ → Event
  interrupted failed closed : Event

-- The body of a loop: it goes on with the bytes so far and those left, or returns false.
pub data Outcome : Type 0 where
  continues : Bytes → Bytes → Outcome
  gives_up : Outcome

-- The bytes that one call moves, at most `room`.
abbrev pub portion : ℕ → ℕ → ℕ
portion room k = if ltb room (k + 1) then room else k + 1

-- One call `read(fd, buf + got, n - got)` on a pipe that holds `stream` and has no writer left.
unfoldable pub read_once : ℕ → Bytes → Bytes → Event → Outcome
read_once n buf stream (moves k) =
    if length stream == 0
    then gives_up
    else (let m = portion (n - length buf) k in continues (buf ++ take m stream) (drop m stream))
read_once n buf stream interrupted = continues buf stream
read_once n buf stream failed = gives_up
read_once n buf stream closed = gives_up

abbrev after :
    Outcome → (Bytes → Bytes → Option (Bool × Bytes × Bytes)) → Option (Bool × Bytes × Bytes)
after (continues buf stream) next = next buf stream
after gives_up next = some (false, [], [])

-- `none`: the schedule ends while the call still waits.
unfoldable pub read_full : ℕ → Bytes → Bytes → List Event → Option (Bool × Bytes × Bytes)
unfolding read_once
read_full n buf stream [] = if ltb (length buf) n then none else some (true, buf, stream)
read_full n buf stream (e ∷ es) =
    let rest = after (read_once n buf stream e) (λ buf' stream'. read_full n buf' stream' es) in
    if ltb (length buf) n then rest else some (true, buf, stream)

-- One call `write(fd, buf + put, n - put)`; `sink` is what the pipe has taken.
unfoldable pub write_once : Bytes → Bytes → Event → Outcome
write_once sink left (moves k) = continues (sink ++ take (k + 1) left) (drop (k + 1) left)
write_once sink left interrupted = continues sink left
write_once sink left failed = gives_up
write_once sink left closed = gives_up

unfoldable pub write_full : Bytes → Bytes → List Event → Option (Bool × Bytes × Bytes)
unfolding write_once
write_full sink left [] = if ltb 0 (length left) then none else some (true, sink, left)
write_full sink left (e ∷ es) =
    let rest = after (write_once sink left e) (λ sink' left'. write_full sink' left' es) in
    if ltb 0 (length left) then rest else some (true, sink, left)

-- kSandboxMaxPayload
abbrev pub max_payload : ℕ
max_payload = 1048576

abbrev sent : Option (Bool × Bytes × Bytes) → (Bytes → Option Bytes) → Option Bytes
sent (some (true, sink, left)) next = next sink
sent (some (false, sink, left)) next = none
sent none next = none

-- The two calls of `WriteFull`: what the pipe holds after them, `none` on the path to `err`.
unfoldable pub send : SandboxOptions → List Event → List Event → Option Bytes
unfolding write_full
send o es fs =
    let vec = serialize o in
    if length vec == 0 || ltb max_payload (length vec)
    then none
    else (sent (write_full [] (push_int (pos (length vec))) es)
        (λ sink. sent (write_full sink vec fs) some))

abbrev is_payload_size : ℤ → Bool
is_payload_size (pos n) = ltb 0 n && leb n max_payload
is_payload_size (negsuc n) = false

abbrev magnitude : ℤ → ℕ
magnitude (pos n) = n
magnitude (negsuc n) = 0

abbrev received :
    Option (Bool × Bytes × Bytes) → (Bytes → Bytes → Option SandboxOptions) → Option SandboxOptions
received (some (true, buf, stream)) next = next buf stream
received (some (false, buf, stream)) next = none
received none next = none

abbrev parsed : Option (SandboxOptions × Bytes) → Option SandboxOptions
parsed (some (o, rest)) = some o
parsed none = none

-- The two calls of `ReadFull` in `main`, the check of the size between them, and the constructor.
unfoldable pub receive : Bytes → List Event → List Event → Option SandboxOptions
unfolding read_full
receive stream es fs = received (read_full 8 [] stream es) λ header rest.
    let sz = of_word (of_bytes header) in
    if is_payload_size sz
    then (received (read_full (magnitude sz) [] rest fs) λ buf _. parsed (deserialize buf))
    else none
