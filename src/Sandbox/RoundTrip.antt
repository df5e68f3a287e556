-- ===== src/Sandbox/RoundTrip.antt =====
-- What `Serialize` writes is read back by the constructor: src/tioj/sandbox.cpp.
use mathlib.Core.List.{append-nil, append_assoc}
use tioj_judge.Base.{
  ℕ, ◌<◌, ◌≡◌, refl, ◌≢◌, ◌⊎◌, Bool, true, false, List, [], ◌∷◌, ◌++◌, some, arith, ltb, length,
  take, drop, All, length-append, ap, subst,
}
use tioj_judge.Base.Int.{ℤ, pos}
use tioj_judge.Word.{
  two63, IsLong, IsInt, to_word, of_word, narrow_id, IsInt-IsLong, to_word-lt, of_word-to_word,
  le_bytes, of_bytes, byte_range, of_bytes-le_bytes, length-le_bytes,
}
use tioj_judge.Sandbox.{Bytes, SandboxOptions}
use tioj_judge.Sandbox.Serial.{
  push_int, push_string, push_strings, push_ints, outside_pool, bool_int, payload, serialize, ◌>>=◌,
  read_int, read_bytes, read_string, read_narrow, repeat, read_list, read_bool, deserialize,
}

-- The values that the fields' C++ types hold, and lengths that a `long` holds.
pub record Fits (o : SandboxOptions) : Type 0 where
  pub boxdir : length o.boxdir < two63
  pub command : length o.command < two63
  pub commands : All (λ s. length s < two63) o.command
  pub envs : length o.envs < two63
  pub each_env : All (λ s. length s < two63) o.envs
  pub workdir : length o.workdir < two63
  pub input : length o.input < two63
  pub output : length o.output < two63
  pub error : length o.error < two63
  pub fd_input : IsInt o.fd_input
  pub fd_output : IsInt o.fd_output
  pub fd_error : IsInt o.fd_error
  pub cpu_set : length o.cpu_set < two63
  pub cpus : All IsInt o.cpu_set
  pub uid : IsInt o.uid
  pub gid : IsInt o.gid
  pub wall_time : IsLong o.wall_time
  pub cpu_time : IsLong o.cpu_time
  pub rss : IsLong o.rss
  pub vss : IsLong o.vss
  pub proc_num : IsInt o.proc_num
  pub file_num : IsInt o.file_num
  pub fsize : IsLong o.fsize
  pub dirs : length o.dirs < two63
  pub each_dir : All (λ s. length s < two63) o.dirs

take-append : (xs ys : List ℕ) → take (length xs) (xs ++ ys) ≡ xs
take-append [] ys = refl
take-append (x ∷ xs) ys = ap (λ l. x ∷ l) (take-append xs ys)

drop-append : (xs ys : List ℕ) → drop (length xs) (xs ++ ys) ≡ ys
drop-append [] ys = refl
drop-append (x ∷ xs) ys = drop-append xs ys

ltb-length-append : (xs ys : List ℕ) → ltb (length (xs ++ ys)) (length xs) ≡ false
ltb-length-append xs ys = ground (arith, length-append xs ys)

-- A prefix of a known length is taken off whole.
split_prefix :
    (n : ℕ) (xs ys : List ℕ)
    → length xs ≡ n
    → (ltb (length (xs ++ ys)) n ≡ false) × (take n (xs ++ ys) ≡ xs) × (drop n (xs ++ ys) ≡ ys)
split_prefix n xs ys e =
    subst
      (λ m.
        (ltb (length (xs ++ ys)) m ≡ false) × (take m (xs ++ ys) ≡ xs) × (drop m (xs ++ ys) ≡ ys))
      e (ltb-length-append xs ys, take-append xs ys, drop-append xs ys)

word_of_bytes : (z : ℤ) → IsLong z → of_word (of_bytes (le_bytes 8 (to_word z))) ≡ z
unfolding byte_range
word_of_bytes z h = rw (of_bytes-le_bytes 8 (to_word z) (to_word-lt z)) (of_word-to_word z h)

read_int-push : (z : ℤ) (rest : Bytes) → IsLong z → read_int (push_int z ++ rest) ≡ some (z, rest)
unfolding read_int push_int
read_int-push z rest h =
    let (a, b, c) = split_prefix 8 (le_bytes 8 (to_word z)) rest (length-le_bytes 8 (to_word z)) in
    rw (a, b, c, word_of_bytes z h)

read_bytes-append :
    (str rest : Bytes) → read_bytes (pos (length str)) (str ++ rest) ≡ some (str, rest)
unfolding read_bytes
read_bytes-append str rest = let (a, b, c) = split_prefix (length str) str rest refl in rw (a, b, c)

read_string-push :
    (str rest : Bytes)
    → length str < two63
    → read_string (push_string str ++ rest) ≡ some (str, rest)
unfolding read_string push_string
read_string-push str rest h =
    rw (append_assoc (push_int (pos (length str))) str rest)
      (rw (read_int-push (pos (length str)) (str ++ rest) h, ◌>>=◌) (read_bytes-append str rest))

read_strings-push :
    (ss : List Bytes) (rest : Bytes)
    → All (λ s. length s < two63) ss
    → repeat (length ss) read_string (push_strings ss ++ rest) ≡ some (ss, rest)
unfolding repeat push_strings
read_strings-push [] rest h = refl
read_strings-push (s ∷ ss) rest h = rw (append_assoc (push_string s) (push_strings ss) rest) (
    rw (read_string-push s (push_strings ss ++ rest) h.0, ◌>>=◌)
      (rw (read_strings-push ss rest h.1, ◌>>=◌)))

read_narrow-push :
    (z : ℤ) (rest : Bytes) → IsInt z → read_narrow (push_int z ++ rest) ≡ some (z, rest)
unfolding read_narrow
read_narrow-push z rest h = rw (read_int-push z rest (IsInt-IsLong z h), ◌>>=◌) (rw (narrow_id z h))

read_narrows-push :
    (zs : List ℤ) (rest : Bytes)
    → All IsInt zs
    → repeat (length zs) read_narrow (push_ints zs ++ rest) ≡ some (zs, rest)
unfolding repeat push_ints
read_narrows-push [] rest h = refl
read_narrows-push (z ∷ zs) rest h = rw (append_assoc (push_int z) (push_ints zs) rest) (
    rw (read_narrow-push z (push_ints zs ++ rest) h.0, ◌>>=◌)
      (rw (read_narrows-push zs rest h.1, ◌>>=◌)))

read_bool-push :
    (b : Bool) (rest : Bytes) → read_bool (push_int (bool_int b) ++ rest) ≡ some (b, rest)
unfolding read_bool
read_bool-push true rest = rw (read_int-push (pos 1) rest (omega arith), ◌>>=◌)
read_bool-push false rest = rw (read_int-push (pos 0) rest (omega arith), ◌>>=◌)

read_strings-push_end :
    (ss : List Bytes)
    → All (λ s. length s < two63) ss
    → repeat (length ss) read_string (push_strings ss) ≡ some (ss, [])
read_strings-push_end ss h = rw (append-nil (push_strings ss)) at (read_strings-push ss [] h)

-- Field after field, in the order of the two functions.
deserialize-payload : (o : SandboxOptions) → Fits o → deserialize (payload o) ≡ some (o, [])
unfolding deserialize payload read_list
deserialize-payload o f = rw (
  read_string-push o.boxdir _ f.boxdir,
  read_int-push (pos (length o.command)) _ f.command,
  read_strings-push o.command _ f.commands,
  read_bool-push o.preserve_env _,
  read_int-push (pos (length o.envs)) _ f.envs,
  read_strings-push o.envs _ f.each_env,
  read_string-push o.workdir _ f.workdir,
  read_string-push o.input _ f.input,
  read_string-push o.output _ f.output,
  read_string-push o.error _ f.error,
  read_narrow-push o.fd_input _ f.fd_input,
  read_narrow-push o.fd_output _ f.fd_output,
  read_narrow-push o.fd_error _ f.fd_error,
  read_int-push (pos (length o.cpu_set)) _ f.cpu_set,
  read_narrows-push o.cpu_set _ f.cpus,
  read_narrow-push o.uid _ f.uid,
  read_narrow-push o.gid _ f.gid,
  read_int-push o.wall_time _ f.wall_time,
  read_int-push o.cpu_time _ f.cpu_time,
  read_int-push o.rss _ f.rss,
  read_int-push o.vss _ f.vss,
  read_narrow-push o.proc_num _ f.proc_num,
  read_narrow-push o.file_num _ f.file_num,
  read_int-push o.fsize _ f.fsize,
  read_int-push (pos (length o.dirs)) _ f.dirs,
  read_strings-push_end o.dirs f.each_dir,
  ◌>>=◌,
)

payload-ne-nil : (o : SandboxOptions) → payload o ≢ []
unfolding payload push_string push_int le_bytes
payload-ne-nil o h = cc

pub serialize_lem :
    (o : SandboxOptions)
    → Fits o
    → outside_pool o.uid ≡ false
    → outside_pool o.gid ≡ false
    → (serialize o ≢ []) × (deserialize (serialize o) ≡ some (o, []))
unfolding serialize
serialize_lem o f u g = rw (u, g) (payload-ne-nil o, deserialize-payload o f)

pub word_of_push : (z : ℤ) → IsLong z → of_word (of_bytes (push_int z)) ≡ z
unfolding push_int
word_of_push z h = word_of_bytes z h

-- The sandbox process reads back the options that the judge sent, with nothing left over, when the
-- fields hold values of their types and the user and group are in the pool; otherwise nothing is sent.
pub deserialize-serialize :
    (o : SandboxOptions)
    → Fits o
    → ((outside_pool o.uid ≡ false)
        × (outside_pool o.gid ≡ false)
        × (serialize o ≢ [])
        × (deserialize (serialize o) ≡ some (o, [])))
      ⊎ (((outside_pool o.uid ≡ true) ⊎ (outside_pool o.gid ≡ true)) × (serialize o ≡ []))
unfolding serialize
deserialize-serialize o f = ground (arith, deserialize-payload o f, payload-ne-nil o)
