-- ===== src/Sandbox/Shim.antt =====
-- The exec shim of mcp_server/_sandbox_exec.py. Of the forms that argparse takes, the ones with an
-- option and its value apart are modelled, which are those that `wrap_cmd` writes. What the kernel
-- grants is an argument, `Kernel`.
use openstudio_mcp.Base.{
  ℕ, zero, suc, String, Bool, true, false, not, Option, none, some, List, [], ◌∷◌, ◌++◌, ◌&&◌,
  if◌then◌else◌, ◌==◌, string_eq, ℕ_eq, contains,
}
use openstudio_mcp.Base.Dict
use openstudio_mcp.Base.Dict.{Dict}
use openstudio_mcp.Sandbox.{Text}

-- The namespace of the options.
pub record Options : Type 0 where
  pub uid : Option ℕ
  pub gid : Option ℕ
  pub limits : Dict ℕ
  pub ro : List String
  pub rw : List String
  pub seccomp_net : Bool

abbrev pub no_options : Options
no_options = record { uid = none; gid = none; limits = []; ro = []; rw = []; seccomp_net = false }

-- `_RLIMITS`, by their options and in its order.
abbrev pub limit_flags : List String
limit_flags =
    "--rlimit-cpu" ∷ "--rlimit-fsize" ∷ "--rlimit-nproc" ∷ "--rlimit-nofile" ∷ "--rlimit-as" ∷ []

abbrev pub takes_value : String → Bool
takes_value flag =
    contains ("--uid" ∷ "--gid" ∷ "--landlock-ro" ∷ "--landlock-rw" ∷ limit_flags) flag

set_number : String → Option ℕ → Options → Option Options
set_number flag none o = none
set_number flag (some n) o =
    if flag == "--uid"
    then some (record o { uid = some n })
    else if flag == "--gid"
    then some (record o { gid = some n })
    else some (record o { limits = Dict.insert flag n o.limits })

unfoldable pub set_option : Text → String → String → Options → Option Options
unfolding set_number
set_option t flag value o =
    if t.dashed value
    then none
    else if flag == "--landlock-ro"
    then some (record o { ro = o.ro ++ (value ∷ []) })
    else if flag == "--landlock-rw"
    then some (record o { rw = o.rw ++ (value ∷ []) })
    else set_number flag (t.int value) o

unfoldable pub and_then : Option Options → (Options → Option Options) → Option Options
and_then none f = none
and_then (some o) f = f o

-- `parse_args`, with the option whose value comes next; `none` is its exit with 2.
unfoldable pub parse : Text → Option String → List String → Options → Option Options
unfolding set_option and_then
parse t none [] o = some o
parse t (some flag) [] o = none
parse t none (flag ∷ args) o =
    if flag == "--seccomp-net"
    then parse t none args (record o { seccomp_net = true })
    else if takes_value flag
    then parse t (some flag) args o
    else none
parse t (some flag) (value ∷ args) o =
    and_then (set_option t flag value o) (λ o'. parse t none args o')

-- `argv.index("--")` and the two slices.
abbrev cons_left : String → Option (List String × List String) → Option (List String × List String)
cons_left a none = none
cons_left a (some (xs, ys)) = some (a ∷ xs, ys)

unfoldable pub split_at_sep : List String → Option (List String × List String)
split_at_sep [] = none
split_at_sep (a ∷ args) = if a == "--" then some ([], args) else cons_left a (split_at_sep args)

pub record Kernel : Type 0 where
  pub euid : ℕ
  pub sets_limit : String → ℕ → Bool
  pub no_new_privs : Bool
  pub landlock : List String → List String → Bool
  pub seccomp : Bool
  pub uid_sticks : Bool
  pub executes : List String → Bool

-- The state of the process in which the command runs.
pub record Confinement : Type 0 where
  pub limits : Dict ℕ
  pub landlock : Option (List String × List String)
  pub net_denied : Bool
  pub ids : Option (ℕ × ℕ)

pub data Outcome : Type 0 where
  exit : ℕ → Outcome
  raised : Outcome
  ran : Confinement → List String → Outcome

-- A limit that cannot be set is reported, and the run goes on without it.
unfoldable pub apply_limits : Kernel → List String → Dict ℕ → Dict ℕ
apply_limits k [] limits = []
apply_limits k (flag ∷ flags) limits =
    let rest = apply_limits k flags limits in
    elim (Dict.lookup flag limits) [
      | none ↦ rest
      | some zero ↦ rest
      | some (suc n) ↦ if k.sets_limit flag (suc n) then (flag, suc n) ∷ rest else rest
    ]

abbrev pub wants_landlock : Options → Bool
wants_landlock o = elim (o.ro ++ o.rw) [ [] ↦ false | _ ∷ _ ↦ true ]

drop_to : Kernel → ℕ → ℕ → Option (ℕ × ℕ)
drop_to k uid gid = if k.euid == 0 then some (uid, gid) else none

-- From the options on: limits, no_new_privs, Landlock, seccomp, the ids, the command.
unfoldable pub confine : Kernel → Options → ℕ → ℕ → List String → Outcome
unfolding apply_limits drop_to
confine k o uid gid cmd =
    if not k.no_new_privs
    then raised
    else if wants_landlock o && not (k.landlock o.ro o.rw)
    then exit 3
    else if o.seccomp_net && not k.seccomp
    then exit 3
    else if k.euid == 0 && not k.uid_sticks
    then exit 2
    else if not (k.executes cmd)
    then exit 127
    else ran
        (record {
          limits = apply_limits k limit_flags o.limits;
          landlock = if wants_landlock o then some (o.ro, o.rw) else none;
          net_denied = o.seccomp_net;
          ids = drop_to k uid gid;
        })
        cmd

-- `--uid` and `--gid` are required.
unfoldable pub start : Kernel → Option ℕ → Option ℕ → Options → List String → Outcome
unfolding confine
start k (some uid) (some gid) o cmd = confine k o uid gid cmd
start k none gid o cmd = exit 2
start k (some uid) none o cmd = exit 2

unfoldable pub started : Kernel → Option Options → List String → Outcome
unfolding start
started k none cmd = exit 2
started k (some o) cmd = start k o.uid o.gid o cmd

unfoldable pub run_split : Text → Kernel → Option (List String × List String) → Outcome
unfolding parse started
run_split t k none = exit 2
run_split t k (some (args, [])) = exit 2
run_split t k (some (args, c ∷ cs)) = started k (parse t none args no_options) (c ∷ cs)

unfoldable pub main : Text → Kernel → List String → Outcome
unfolding run_split split_at_sep
main t k argv = run_split t k (split_at_sep argv)
