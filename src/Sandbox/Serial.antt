-- ===== src/Sandbox/Serial.antt =====
-- `SandboxOptions::Serialize` and the constructor that reads the result back, src/tioj/sandbox.cpp.
-- The position in the vector is the list of bytes that are left; a read past its end, which the
-- code does not check, is `none`.
use tioj_judge.Base.{
  ℕ, zero, suc, ◌+◌, Bool, true, false, ◌||◌, not, List, [], ◌∷◌, ◌++◌, Option, none, some, ltb,
  leb, if◌then◌else◌, length, take, drop,
}
use tioj_judge.Base.Int.{ℤ, pos, negsuc}
use tioj_judge.Word.{to_word, of_word, narrow, le_bytes, of_bytes}
use tioj_judge.Sandbox.{Bytes, SandboxOptions, uid_base, uid_pool_size}

unfoldable pub push_int : ℤ → Bytes
push_int r = le_bytes 8 (to_word r)

unfoldable pub push_string : Bytes → Bytes
push_string str = push_int (pos (length str)) ++ str

unfoldable pub push_strings : List Bytes → Bytes
push_strings [] = []
push_strings (s ∷ ss) = push_string s ++ push_strings ss

unfoldable pub push_ints : List ℤ → Bytes
push_ints [] = []
push_ints (n ∷ ns) = push_int n ++ push_ints ns

-- uid < kUidBase || uid >= kUidBase + kUidPoolSize
unfoldable pub outside_pool : ℤ → Bool
outside_pool (pos n) = ltb n uid_base || leb (uid_base + uid_pool_size) n
outside_pool (negsuc n) = true

abbrev pub bool_int : Bool → ℤ
bool_int true = pos 1
bool_int false = pos 0

-- The calls of `PushString` and `PushInt`, in their order.
unfoldable pub payload : SandboxOptions → Bytes
payload o =
    push_string o.boxdir
    ++ (push_int (pos (length o.command))
        ++ (push_strings o.command
            ++ (push_int (bool_int o.preserve_env)
                ++ (push_int (pos (length o.envs))
                    ++ (push_strings o.envs
                        ++ (push_string o.workdir
                            ++ (push_string o.input
                                ++ (push_string o.output
                                    ++ (push_string o.error
                                        ++ (push_int o.fd_input
                                            ++ (push_int o.fd_output
                                                ++ (push_int o.fd_error
                                                    ++ (push_int (pos (length o.cpu_set))
                                                        ++ (push_ints o.cpu_set
                                                            ++ (push_int o.uid
                                                            ++ (push_int o.gid
                                                            ++ (push_int o.wall_time
                                                            ++ (push_int o.cpu_time
                                                            ++ (push_int o.rss
                                                            ++ (push_int o.vss
                                                            ++ (push_int o.proc_num
                                                            ++ (push_int o.file_num
                                                            ++ (push_int o.fsize
                                                            ++ (push_int (pos (length o.dirs))
                                                            ++ push_strings
                                                            o.dirs))))))))))))))))))))))))

unfoldable pub serialize : SandboxOptions → Bytes
serialize o = if outside_pool o.uid || outside_pool o.gid then [] else payload o

-- A read of `A` from the bytes that are left.
abbrev pub Reader : Type 0 → Type 0
Reader A = Bytes → Option (A × Bytes)

infixl 5 ◌>>=◌
abbrev pub ◌>>=◌ : {A B : Type 0} → Reader A → (A → Reader B) → Reader B
◌>>=◌ m f bs = elim (m bs) [ none ↦ none | some (a, rest) ↦ f a rest ]

abbrev pub pure : {A : Type 0} → A → Reader A
pure a bs = some (a, bs)

unfoldable pub read_int : Reader ℤ
read_int bs = if ltb (length bs) 8 then none else some (of_word (of_bytes (take 8 bs)), drop 8 bs)

unfoldable pub read_bytes : ℤ → Reader Bytes
read_bytes (pos n) bs = if ltb (length bs) n then none else some (take n bs, drop n bs)
read_bytes (negsuc n) bs = none

unfoldable pub read_string : Reader Bytes
read_string = do size ← read_int; read_bytes size

unfoldable pub repeat : {A : Type 0} → ℕ → Reader A → Reader (List A)
repeat zero m = pure []
repeat (suc n) m = do x ← m; xs ← repeat n m; pure (x ∷ xs)

-- v.resize(ReadInt()); for (auto& i : v) i = …
unfoldable pub read_list : {A : Type 0} → Reader A → ℤ → Reader (List A)
read_list m (pos n) bs = repeat n m bs
read_list m (negsuc n) bs = none

unfoldable pub read_narrow : Reader ℤ
read_narrow = do r ← read_int; pure (narrow r)

abbrev pub is_zero : ℤ → Bool
is_zero (pos zero) = true
is_zero _ = false

unfoldable pub read_bool : Reader Bool
read_bool = do r ← read_int; pure (not (is_zero r))

unfoldable pub deserialize : Reader SandboxOptions
deserialize = do
  boxdir ← read_string
  n_command ← read_int
  command ← read_list read_string n_command
  preserve_env ← read_bool
  n_envs ← read_int
  envs ← read_list read_string n_envs
  workdir ← read_string
  input ← read_string
  output ← read_string
  error ← read_string
  fd_input ← read_narrow
  fd_output ← read_narrow
  fd_error ← read_narrow
  n_cpu_set ← read_int
  cpu_set ← read_list read_narrow n_cpu_set
  uid ← read_narrow
  gid ← read_narrow
  wall_time ← read_int
  cpu_time ← read_int
  rss ← read_int
  vss ← read_int
  proc_num ← read_narrow
  file_num ← read_narrow
  fsize ← read_int
  n_dirs ← read_int
  dirs ← read_list read_string n_dirs
  pure (record {
    boxdir = boxdir;
    command = command;
    preserve_env = preserve_env;
    envs = envs;
    workdir = workdir;
    input = input;
    output = output;
    error = error;
    fd_input = fd_input;
    fd_output = fd_output;
    fd_error = fd_error;
    cpu_set = cpu_set;
    uid = uid;
    gid = gid;
    wall_time = wall_time;
    cpu_time = cpu_time;
    rss = rss;
    vss = vss;
    proc_num = proc_num;
    file_num = file_num;
    fsize = fsize;
    dirs = dirs;
  })
