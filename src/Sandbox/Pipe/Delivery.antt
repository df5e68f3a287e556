-- ===== src/Sandbox/Pipe/Delivery.antt =====
-- However the kernel cuts the transfer up, the sandbox process gets what the judge sent.
use mathlib.Core.List.{append-nil, append_assoc}
use tioj_judge.Base.{
  ℕ, suc, ◌+◌, ◌-◌, ◌≤◌, ◌<◌, ◌≡◌, refl, ◌≢◌, true, false, List, [], ◌∷◌, ◌++◌, some, arith, length,
  take, drop, ap, length-append, take-append-drop, length-drop, length-take, take-append_le,
  drop-append_le, lt→ltb, le→ltb, ◌∙◌, ◌==◌, le→leb,
}
use tioj_judge.Base.Int.{ℤ, pos}
use tioj_judge.Word.{to_word, length-le_bytes}
use tioj_judge.Sandbox.{Bytes, SandboxOptions}
use tioj_judge.Sandbox.Serial.{serialize, push_int, outside_pool}
use tioj_judge.Sandbox.RoundTrip.{Fits, serialize_lem, word_of_push}
use tioj_judge.Sandbox.Pipe.{
  Event, moves, interrupted, failed, closed, continues, portion, read_once, read_full, write_full,
  send, receive, max_payload,
}

-- A schedule without an error, and the calls in it that transfer something.
abbrev pub IsSmooth : List Event → Type 0
IsSmooth [] = Unit
IsSmooth (moves k ∷ es) = IsSmooth es
IsSmooth (interrupted ∷ es) = IsSmooth es
IsSmooth (failed ∷ es) = ⊥
IsSmooth (closed ∷ es) = ⊥

abbrev pub transfers : List Event → ℕ
transfers [] = 0
transfers (moves k ∷ es) = suc (transfers es)
transfers (interrupted ∷ es) = transfers es
transfers (failed ∷ es) = transfers es
transfers (closed ∷ es) = transfers es

regroup : (sink left : Bytes) (m : ℕ) → (sink ++ take m left) ++ drop m left ≡ sink ++ left
regroup sink left m =
    append_assoc sink (take m left) (drop m left)
    ∙ ap (λ (l : Bytes). sink ++ l) (take-append-drop m left)

-- `WriteFull` returns true with every byte written, once there were enough calls.
pub write_full-all :
    (sink left : Bytes) (es : List Event)
    → IsSmooth es
    → length left ≤ transfers es
    → write_full sink left es ≡ some (true, sink ++ left, [])
unfolding write_full
write_full-all sink [] [] s h = rw (append-nil sink)
write_full-all sink (b ∷ bs) [] s h = absurd (omega arith)
write_full-all sink [] (e ∷ es) s h = rw (append-nil sink)
write_full-all sink (b ∷ bs) (moves k ∷ es) s h = rw (lt→ltb 0 (suc (length bs)) (omega arith)) (
    write_full-all (sink ++ take (k + 1) (b ∷ bs)) (drop (k + 1) (b ∷ bs)) es s
      (omega (arith, length-drop (k + 1) (b ∷ bs)))
    ∙ ap (λ (l : Bytes). some (true, l, [])) (regroup sink (b ∷ bs) (k + 1)))
write_full-all sink (b ∷ bs) (interrupted ∷ es) s h =
    rw (lt→ltb 0 (suc (length bs)) (omega arith)) (write_full-all sink (b ∷ bs) es s h)
write_full-all sink (b ∷ bs) (failed ∷ es) s h = absurd s
write_full-all sink (b ∷ bs) (closed ∷ es) s h = absurd s

-- One successful `read` of the wanted bytes: some of them, at least one.
read_once-moves :
    (n k : ℕ) (buf want rest : Bytes)
    → length buf + length want ≡ n
    → 0 < length want
    → (m : ℕ) × (0 < m)
      × (m ≤ length want)
      × (read_once n buf (want ++ rest) (moves k)
          ≡ continues (buf ++ take m want) (drop m want ++ rest))
unfolding read_once
read_once-moves n k buf (b ∷ bs) rest e h =
    let room : n - length buf ≡ suc (length bs) = omega arith in
    let filled : (suc (length (bs ++ rest)) == 0) ≡ false = ground arith in
    let some_room : portion (suc (length bs)) k ≤ suc (length bs) = ground arith in
    (
      portion (suc (length bs)) k,
      ground arith,
      some_room,
      rw (
        room,
        take-append_le (portion (suc (length bs)) k) (b ∷ bs) rest some_room,
        drop-append_le (portion (suc (length bs)) k) (b ∷ bs) rest some_room,
        filled,
      ),
    )
read_once-moves n k buf [] rest e h = absurd (omega arith)

-- `ReadFull` returns true with exactly the first bytes of the stream, and leaves the others.
pub read_full-all :
    (n : ℕ) (buf want rest : Bytes) (es : List Event)
    → length buf + length want ≡ n
    → IsSmooth es
    → length want ≤ transfers es
    → read_full n buf (want ++ rest) es ≡ some (true, buf ++ want, rest)
unfolding read_full
read_full-all n buf [] rest [] e s h = rw (le→ltb (length buf) n (omega arith), append-nil buf)
read_full-all n buf (b ∷ bs) rest [] e s h = absurd (omega arith)
read_full-all n buf [] rest (x ∷ es) e s h =
    rw (le→ltb (length buf) n (omega arith), append-nil buf)
read_full-all n buf (b ∷ bs) rest (moves k ∷ es) e s h =
    let (m, pos_m, le_m, eq_m) = read_once-moves n k buf (b ∷ bs) rest e (omega arith) in
    rw (lt→ltb (length buf) n (omega arith)) (
      rw eq_m (
        read_full-all n (buf ++ take m (b ∷ bs)) (drop m (b ∷ bs)) rest es
          (omega (
            arith,
            length-append buf (take m (b ∷ bs)),
            length-take m (b ∷ bs),
            length-drop m (b ∷ bs),
          ))
          s (omega (arith, length-drop m (b ∷ bs)))
        ∙ ap (λ (l : Bytes). some (true, l, rest)) (regroup buf (b ∷ bs) m)))
read_full-all n buf (b ∷ bs) rest (interrupted ∷ es) e s h =
    rw (lt→ltb (length buf) n (omega arith)) (read_full-all n buf (b ∷ bs) rest es e s h)
read_full-all n buf (b ∷ bs) rest (failed ∷ es) e s h = absurd s
read_full-all n buf (b ∷ bs) rest (closed ∷ es) e s h = absurd s

read_full-stream :
    (want : Bytes) (es : List Event)
    → IsSmooth es
    → length want ≤ transfers es
    → read_full (length want) [] want es ≡ some (true, want, [])
read_full-stream want es s h =
    rw (append-nil want) at (read_full-all (length want) [] want [] es (omega arith) s h)

length-push_int : (z : ℤ) → length (push_int z) ≡ 8
unfolding push_int
length-push_int z = length-le_bytes 8 (to_word z)

length-ne_zero : (xs : Bytes) → xs ≢ [] → 0 < length xs
length-ne_zero [] h = absurd (h refl)
length-ne_zero (x ∷ xs) h = omega arith

-- What `send` leaves in the pipe: the size, then the options.
pub send_stream :
    (o : SandboxOptions) (es fs : List Event)
    → serialize o ≢ []
    → length (serialize o) ≤ max_payload
    → IsSmooth es
    → IsSmooth fs
    → 8 ≤ transfers es
    → length (serialize o) ≤ transfers fs
    → send o es fs ≡ some (push_int (pos (length (serialize o))) ++ serialize o)
unfolding send
send_stream o es fs filled fits se sf he hf =
    let header = push_int (pos (length (serialize o))) in
    let n_pos : 0 < length (serialize o) = length-ne_zero (serialize o) filled in
    let small : (length (serialize o) == 0) ≡ false = ground arith in
    rw (
      small,
      le→ltb max_payload (length (serialize o)) fits,
      write_full-all [] header es se (omega (arith, length-push_int (pos (length (serialize o))))),
      write_full-all header (serialize o) fs sf hf,
    )

-- The sandbox process gets exactly the options that the judge sent, however the kernel cuts up the
-- transfers of both sides, as long as no call fails, enough calls are made, the fields hold values
-- of their types, the user and group are in the pool, and the payload is at most kSandboxMaxPayload.
pub receive-send :
    (o : SandboxOptions) (es fs es' fs' : List Event)
    → Fits o
    → outside_pool o.uid ≡ false
    → outside_pool o.gid ≡ false
    → length (serialize o) ≤ max_payload
    → IsSmooth es × IsSmooth fs × IsSmooth es' × IsSmooth fs'
    → (8 ≤ transfers es) × (8 ≤ transfers es')
    → (length (serialize o) ≤ transfers fs) × (length (serialize o) ≤ transfers fs')
    → (stream : Bytes) × (send o es fs ≡ some stream) × (receive stream es' fs' ≡ some o)
unfolding receive
receive-send o es fs es' fs' f u g fits smooth he hf =
    let (filled, back) = serialize_lem o f u g in
    let n = length (serialize o) in
    let header = push_int (pos n) in
    let n_pos : 0 < n = length-ne_zero (serialize o) filled in
    (
      header ++ serialize o,
      send_stream o es fs filled fits smooth.0 smooth.1 he.0 hf.0,
      rw
          (
            read_full-all 8 [] header (serialize o) es' (omega (arith, length-push_int (pos n)))
                smooth.2 (omega (arith, length-push_int (pos n))),
            word_of_push (pos n) (omega arith),
            lt→ltb 0 n n_pos,
            le→leb n max_payload fits,
          )
          (rw (read_full-stream (serialize o) fs' smooth.3 hf.1, back)),
    )
