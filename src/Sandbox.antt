-- ===== src/Sandbox.antt =====
-- The options that the judge hands to its sandbox process: `SandboxOptions` of src/tioj/sandbox.h.
pub mod Serial
pub mod Pipe
pub mod RoundTrip
mod Tests
use tioj_judge.Base.{ℕ, ◌+◌, List, Bool}
use tioj_judge.Base.Int.{ℤ}

-- A `std::string` as its bytes.
abbrev pub Bytes : Type 0
Bytes = List ℕ

pub record SandboxOptions : Type 0 where
  pub boxdir : Bytes
  pub command : List Bytes
  pub preserve_env : Bool
  pub envs : List Bytes
  pub workdir : Bytes
  pub input : Bytes
  pub output : Bytes
  pub error : Bytes
  pub fd_input : ℤ
  pub fd_output : ℤ
  pub fd_error : ℤ
  pub cpu_set : List ℤ
  pub uid : ℤ
  pub gid : ℤ
  pub wall_time : ℤ
  pub cpu_time : ℤ
  pub rss : ℤ
  pub vss : ℤ
  pub proc_num : ℤ
  pub file_num : ℤ
  pub fsize : ℤ
  pub dirs : List Bytes

-- kUidBase and kUidPoolSize
abbrev pub uid_base : ℕ
uid_base = 50000

abbrev pub uid_pool_size : ℕ
uid_pool_size = 100
