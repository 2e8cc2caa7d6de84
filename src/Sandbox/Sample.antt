-- ===== src/Sandbox/Sample.antt =====
-- Settings and numerals for the tests: numbers are written in unary.
use openstudio_mcp.Base.{
  ℕ, zero, suc, String, Bool, true, false, some, List, [], ◌∷◌, ◌≡◌, refl, ap, ◌∙◌, ◌==◌, string_eq,
  ℕ_eq, pos, drop,
}
use openstudio_mcp.Base.Dict
use openstudio_mcp.Sandbox.{
  Text, Config, Job, enabled, is_full, ro_of, rw_of, wrap_cmd, active_tier,
}
use openstudio_mcp.Sandbox.Seccomp.{program, exec}
use openstudio_mcp.Sandbox.Shim.{Kernel, Confinement, ran, confine, main}
use openstudio_mcp.Sandbox.Parsing.{ArePaths, wanted}
use openstudio_mcp.Sandbox.Confined.{main-wrap_cmd}
use Prim.Native.String.{count}
use Prim.Native.String.count
use Prim.Native.Char.{code}

pub unary : ℕ → String
unary zero = ""
unary (suc n) = String.◌∷◌ "1" (unary n)

pub count-unary : (n : ℕ) → count (unary n) ≡ n
unfolding unary
count-unary zero = count.nil
count-unary (suc n) = count.cons "1" (unary n) ∙ ap suc (count-unary n)

pub starts_with_dash : String → Bool
starts_with_dash (String.[]) = false
starts_with_dash (String.◌∷◌ c s) = code c == 45

pub dashed-unary : (n : ℕ) → starts_with_dash (unary n) ≡ false
unfolding unary starts_with_dash
dashed-unary zero = refl
dashed-unary (suc n) = refl

pub dashed_sep : starts_with_dash "--" ≡ true
unfolding starts_with_dash
dashed_sep = refl

abbrev pub txt : Text
txt = record {
  str = unary;
  int = λ s. some (count s);
  dashed = starts_with_dash;
  int_str = λ n. ap some (count-unary n);
  dashed_str = dashed-unary;
  dashed_sep = dashed_sep;
}

abbrev pub cfg : Config
cfg = record {
  mode = "auto";
  net = "deny";
  is_linux = true;
  fsize = pos 2;
  nproc = pos 0;
  nofile = pos 0;
  cpu = pos 0;
  as_bytes = pos 0;
  ro_paths = "/usr" ∷ [];
}

-- To unfold this is to unfold what the command lines of the tests compute with.
unfoldable pub job : Job
unfolding wrap_cmd enabled is_full ro_of rw_of active_tier main starts_with_dash wanted confine
    unary exec program Dict.lookup Dict.insert
job = record { work_dir = "/runs/a"; extra_rw = []; extra_ro = []; uid = 3; gid = 4 }

abbrev pub kernel : Kernel
kernel = record {
  euid = 0;
  sets_limit = λ flag n. true;
  no_new_privs = true;
  landlock = λ ro rw. true;
  seccomp = true;
  uid_sticks = true;
  executes = λ cmd. true;
}

abbrev pub confined : Confinement
confined = record {
  limits = ("--rlimit-fsize", 2) ∷ [];
  landlock =
      some
        ("/usr" ∷ "/dev/urandom" ∷ "/dev/random" ∷ [], "/runs/a" ∷ "/dev/null" ∷ "/dev/zero" ∷ []);
  net_denied = true;
  ids = some (3, 4);
}

pub paths_ro : ArePaths txt (ro_of cfg job)
unfolding job
paths_ro = (refl, (refl, (refl, tt)))

pub paths_rw : ArePaths txt (rw_of job)
unfolding job
paths_rw = (refl, (refl, (refl, tt)))

pub on : enabled cfg ≡ true
unfolding job
on = refl

-- A command with a separator of its own.
abbrev pub ruby : List String
ruby = "ruby" ∷ "--" ∷ "x" ∷ []

pub runs : main txt kernel (drop 3 (wrap_cmd txt cfg "python3" job ruby)) ≡ ran confined ruby
unfolding job
runs = main-wrap_cmd txt cfg "python3" job kernel "ruby" ("--" ∷ "x" ∷ []) paths_ro paths_rw on refl
