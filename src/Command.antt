-- ===== src/Command.antt =====
-- The commands and limits that src/tioj/tasks.cpp hands to the sandbox: `RunCompile`, `RunExecute`,
-- `RunScoring` and `RunSummary`. What the environment, the configuration and the system answer are
-- parameters: `Settings`.
pub mod Words
pub mod Execute
pub mod Run
pub mod Limits
mod Tests
use tioj_judge.Base.{ℕ, Bool, false, List, [], ◌∷◌, ◌++◌, Option, none, some, if◌then◌else◌}
use tioj_judge.Base.Int.{ℤ, pos, negsuc}
use tioj_judge.Base.Text.{chars}
use tioj_judge.Handler.{eq_ℤ}
use tioj_judge.Sandbox.{SandboxOptions}
use tioj_judge.Paths.{Name}

pub record Settings : Type 0 where
  -- kBoxRoot, kMaxRSS and kMaxOutput
  pub k_box_root : List Name
  pub k_max_rss : ℤ
  pub k_max_output : ℤ
  -- `long(x * 1.2)`, and the effect of `x /= kTimeMultiplier`
  pub stretch : ℤ → ℤ
  pub divide : ℤ → ℤ
  -- `getenv("PATH")`, and whether a directory exists
  pub path : Option Name
  pub exists : Name → Bool

-- The constructor of `SandboxOptions`.
abbrev pub default_options : SandboxOptions
default_options = record {
  boxdir = [];
  command = [];
  preserve_env = false;
  envs = [];
  workdir = [];
  input = [];
  output = [];
  error = [];
  fd_input = negsuc 0;
  fd_output = negsuc 0;
  fd_error = negsuc 0;
  cpu_set = [];
  uid = pos 65534;
  gid = pos 65534;
  wall_time = pos 0;
  cpu_time = pos 0;
  rss = pos 0;
  vss = pos 0;
  proc_num = pos 0;
  file_num = pos 0;
  fsize = pos 0;
  dirs = [];
}

-- The text of an absolute path.
unfoldable path_tail : List Name → Name
path_tail [] = []
path_tail (name ∷ names) = (47 ∷ name) ++ path_tail names

unfoldable pub path_string : List Name → Name
unfolding path_tail
path_string [] = 47 ∷ []
path_string (name ∷ names) = path_tail (name ∷ names)

-- SandboxOptions::FilterDirs
unfoldable pub filter_dirs : (Name → Bool) → List Name → List Name
filter_dirs exists [] = []
filter_dirs exists (d ∷ ds) = if exists d then d ∷ filter_dirs exists ds else filter_dirs exists ds

abbrev pub cpu_list : ℤ → List ℤ
cpu_list cpuid = if eq_ℤ cpuid (negsuc 0) then [] else cpuid ∷ []

abbrev pub path_env : Option Name → List Name
path_env none = []
path_env (some path) = (chars "PATH=" ++ path) ∷ []

unfoldable pub system_dirs : List Name
unfolding chars
system_dirs =
    chars "/usr" ∷ chars "/lib" ∷ chars "/lib64" ∷ chars "/etc/alternatives" ∷ chars "/bin" ∷ []

-- The directories of RunScoring and RunSummary.
unfoldable pub judge_dirs : List Name
unfolding chars
judge_dirs =
    chars "/usr"
    ∷ chars "/var/lib"
    ∷ chars "/lib"
    ∷ chars "/lib64"
    ∷ chars "/etc/alternatives"
    ∷ chars "/bin"
    ∷ []

unfoldable pub dev_null : Name
unfolding chars
dev_null = chars "/dev/null"

abbrev pub minute : ℤ
minute = pos 60000000

-- A path inside a box takes no task.
abbrev pub inside : ℤ
inside = negsuc 0
