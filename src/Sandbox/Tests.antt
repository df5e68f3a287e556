-- ===== src/Sandbox/Tests.antt =====
-- The options of one run, through the pipe.
use tioj_judge.Base.{
  ℕ, zero, suc, ◌≡◌, ◌≢◌, ◌⊎◌, refl, true, false, List, [], ◌∷◌, some, arith, length,
}
use tioj_judge.Base.Int.{pos, negsuc}
use tioj_judge.Word.{le_bytes}
use tioj_judge.Sandbox.{Bytes, SandboxOptions}
use tioj_judge.Sandbox.Serial.{
  outside_pool, serialize, deserialize, payload, push_string, push_strings, push_ints, push_int,
}
use tioj_judge.Sandbox.RoundTrip.{Fits, deserialize-serialize}
use tioj_judge.Sandbox.Pipe.{Event, moves, interrupted, send, receive}
use tioj_judge.Sandbox.Pipe.Delivery.{receive-send, IsSmooth}

abbrev options : SandboxOptions
options = record {
  boxdir = 47 ∷ 98 ∷ [];
  command = (47 ∷ 97 ∷ []) ∷ (45 ∷ []) ∷ [];
  preserve_env = false;
  envs = (65 ∷ 61 ∷ []) ∷ [];
  workdir = 47 ∷ [];
  input = [];
  output = 47 ∷ 111 ∷ [];
  error = [];
  fd_input = negsuc 0;
  fd_output = pos 1;
  fd_error = pos 2;
  cpu_set = pos 3 ∷ [];
  uid = pos 50001;
  gid = pos 50099;
  wall_time = pos 12000000;
  cpu_time = pos 10000000;
  rss = pos 0;
  vss = pos 65536;
  proc_num = pos 20;
  file_num = pos 8;
  fsize = pos 65536;
  dirs = [];
}

options-Fits : Fits options
options-Fits = record {
  boxdir = omega arith;
  command = omega arith;
  commands = (omega arith, (omega arith, tt));
  envs = omega arith;
  each_env = (omega arith, tt);
  workdir = omega arith;
  input = omega arith;
  output = omega arith;
  error = omega arith;
  fd_input = omega arith;
  fd_output = omega arith;
  fd_error = omega arith;
  cpu_set = omega arith;
  cpus = (omega arith, tt);
  uid = omega arith;
  gid = omega arith;
  wall_time = omega arith;
  cpu_time = omega arith;
  rss = omega arith;
  vss = omega arith;
  proc_num = omega arith;
  file_num = omega arith;
  fsize = omega arith;
  dirs = omega arith;
  each_dir = tt;
}

deserialize-serialize_example :
    ((outside_pool options.uid ≡ false)
      × (outside_pool options.gid ≡ false)
      × (serialize options ≢ [])
      × (deserialize (serialize options) ≡ some (options, [])))
    ⊎ (((outside_pool options.uid ≡ true) ⊎ (outside_pool options.gid ≡ true))
        × (serialize options ≡ []))
deserialize-serialize_example = deserialize-serialize options options-Fits

-- Calls that move one byte each.
abbrev single_bytes : ℕ → List Event
single_bytes zero = []
single_bytes (suc n) = moves 0 ∷ single_bytes n

single_bytes-IsSmooth : (n : ℕ) → IsSmooth (single_bytes n)
single_bytes-IsSmooth zero = tt
single_bytes-IsSmooth (suc n) = single_bytes-IsSmooth n

length-options : length (serialize options) ≡ 218
unfolding serialize payload outside_pool push_string push_strings push_ints push_int le_bytes
length-options = refl

receive-send_example :
    (stream : Bytes) × (send options (interrupted ∷ single_bytes 8) (single_bytes 400)
      ≡ some stream)
    × (receive stream (single_bytes 8) (interrupted ∷ single_bytes 400) ≡ some options)
unfolding outside_pool
receive-send_example =
    receive-send options (interrupted ∷ single_bytes 8) (single_bytes 400) (single_bytes 8)
      (interrupted ∷ single_bytes 400) options-Fits refl refl (omega (arith, length-options))
      (
        single_bytes-IsSmooth 8,
        single_bytes-IsSmooth 400,
        single_bytes-IsSmooth 8,
        single_bytes-IsSmooth 400,
      )
      (omega arith, omega arith) (omega (arith, length-options), omega (arith, length-options))
