-- ===== src/Sandbox.antt =====
-- The confinement of subprocesses in mcp_server/sandbox.py: the tier, the environment, and the
-- command line for the exec shim of mcp_server/_sandbox_exec.py, which is in Sandbox/Shim.antt.
-- Python's `str` and `int` on numbers, and the test for a leading dash, are an argument, `Text`.
pub mod Seccomp
pub mod Shim
pub mod Parsing
pub mod Confined
pub mod Sample
mod Tests
use openstudio_mcp.Base.{
  ℕ, zero, suc, String, Bool, true, false, not, Option, none, some, List, [], ◌∷◌, ◌++◌, ◌≡◌, ◌&&◌,
  ◌||◌, if◌then◌else◌, ◌==◌, string_eq, contains, ℤ, pos, negsuc,
}
use openstudio_mcp.Base.Dict
use openstudio_mcp.Base.Dict.{Dict}

pub record Text : Type 0 where
  pub str : ℕ → String
  pub int : String → Option ℕ
  pub dashed : String → Bool
  pub int_str : (n : ℕ) → int (str n) ≡ some n
  pub dashed_str : (n : ℕ) → dashed (str n) ≡ false
  pub dashed_sep : dashed "--" ≡ true

-- The settings: OSMCP_SANDBOX, OSMCP_SANDBOX_NET, the platform, the limits, and the read-only roots
-- of `_ro_paths`.
pub record Config : Type 0 where
  pub mode : String
  pub net : String
  pub is_linux : Bool
  pub fsize : ℤ
  pub nproc : ℤ
  pub nofile : ℤ
  pub cpu : ℤ
  pub as_bytes : ℤ
  pub ro_paths : List String

abbrev pub off_aliases : List String
off_aliases = "" ∷ "off" ∷ "0" ∷ "false" ∷ "no" ∷ []

abbrev pub on_modes : List String
on_modes = "posix" ∷ "auto" ∷ "full" ∷ "landlock" ∷ []

-- Of a value that is stripped and in lower case.
unfoldable pub normalize_sandbox_mode : String → String
normalize_sandbox_mode v = if contains off_aliases v || contains on_modes v then v else "auto"

unfoldable pub enabled : Config → Bool
enabled cfg = not (contains off_aliases cfg.mode)

unfoldable pub is_full : Config → Bool
is_full cfg = contains ("auto" ∷ "full" ∷ "landlock" ∷ []) cfg.mode

unfoldable pub tier_of : Bool → Bool → Bool → String
tier_of on linux full =
    if not on
    then "off"
    else if not linux
    then "clean-env"
    else if full
    then "landlock"
    else "posix"

unfoldable pub active_tier : Config → String
unfolding tier_of
active_tier cfg = tier_of (enabled cfg) cfg.is_linux (is_full cfg)

-- `{k: v for k, v in os.environ.items() if k in allowed}`
unfoldable pub allowed_only : List String → Dict String → Dict String
allowed_only allowed [] = []
allowed_only allowed ((k, v) ∷ env) =
    let rest = allowed_only allowed env in if contains allowed k then (k, v) ∷ rest else rest

-- `made` says whether the temporary directory could be made; `tmp` is its path.
redirect : Bool → String → String → Dict String → Dict String
redirect made work tmp env =
    let env' = Dict.insert "HOME" work env in if made then Dict.insert "TMPDIR" tmp env' else env'

unfoldable pub build_env :
    Config → List String → Bool → Bool → String → String → Dict String → Dict String
unfolding enabled allowed_only redirect
build_env cfg allowed redirect_tmp made work tmp environ =
    if not (enabled cfg)
    then environ
    else if redirect_tmp
    then redirect made work tmp (allowed_only allowed environ)
    else allowed_only allowed environ

-- `if value and value > 0: wrapped += [flag, str(value)]`
unfoldable pub limit_args : Text → String → ℤ → List String
limit_args t flag (pos zero) = []
limit_args t flag (pos (suc n)) = flag ∷ t.str (suc n) ∷ []
limit_args t flag (negsuc n) = []

unfoldable pub path_args : String → List String → List String
path_args flag [] = []
path_args flag (p ∷ ps) = flag ∷ p ∷ path_args flag ps

abbrev pub dev_rw : List String
dev_rw = "/dev/null" ∷ "/dev/zero" ∷ []

abbrev pub dev_ro : List String
dev_ro = "/dev/urandom" ∷ "/dev/random" ∷ []

-- What a call of `wrap_cmd` adds to the settings: its paths, and the uid and gid of the owner.
pub record Job : Type 0 where
  pub work_dir : String
  pub extra_rw : List String
  pub extra_ro : List String
  pub uid : ℕ
  pub gid : ℕ

unfoldable pub ro_of : Config → Job → List String
ro_of cfg job = cfg.ro_paths ++ (dev_ro ++ job.extra_ro)

unfoldable pub rw_of : Job → List String
rw_of job = job.work_dir ∷ (dev_rw ++ job.extra_rw)

unfoldable pub net_args : Config → List String
net_args cfg = if not (cfg.net == "allow") then "--seccomp-net" ∷ [] else []

unfoldable pub full_args : Config → Job → List String
unfolding path_args ro_of rw_of net_args
full_args cfg job =
    path_args "--landlock-ro" (ro_of cfg job)
    ++ (path_args "--landlock-rw" (rw_of job) ++ net_args cfg)

-- The options for the shim, in the order of `wrap_cmd`: the ids, the limits, and the full tier.
unfoldable pub rest_args : Text → Config → Job → List String
unfolding limit_args full_args is_full
rest_args t cfg job =
    limit_args t "--rlimit-fsize" cfg.fsize
    ++ (limit_args t "--rlimit-nproc" cfg.nproc
        ++ (limit_args t "--rlimit-nofile" cfg.nofile
            ++ (limit_args t "--rlimit-cpu" cfg.cpu
                ++ (limit_args t "--rlimit-as" cfg.as_bytes
                    ++ (if is_full cfg then full_args cfg job else [])))))

unfoldable pub shim_args : Text → Config → Job → List String
unfolding rest_args
shim_args t cfg job = "--uid" ∷ t.str job.uid ∷ "--gid" ∷ t.str job.gid ∷ rest_args t cfg job

unfoldable pub wrap_cmd : Text → Config → String → Job → List String → List String
unfolding shim_args enabled
wrap_cmd t cfg python job cmd =
    if not (enabled cfg)
    then cmd
    else if not cfg.is_linux
    then cmd
    else python ∷ "-m" ∷ "mcp_server._sandbox_exec" ∷ (shim_args t cfg job ++ ("--" ∷ cmd))
