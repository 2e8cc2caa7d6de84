-- ===== src/Retention/Calls.antt =====
-- The tools of mcp_server/skills/simulation/retention.py on the caller's own runs: `cleanup_runs`,
-- `delete_run`, `pin_run` and `unpin_run`.
use openstudio_mcp.Base.{
  ℕ, zero, suc, ◌*◌, String, Bool, true, false, not, Option, none, some, List, if◌then◌else◌, ℤ,
}
use openstudio_mcp.Base.Dict
use openstudio_mcp.Base.Dict.{Dict}
use openstudio_mcp.Runs.{Env}
use openstudio_mcp.Retention.{Dir, is_active, at_least_zero}
use openstudio_mcp.Retention.Sweep.{Store, Evicted, sweep_user_root}

-- The window of a cleanup: that of the call, or the one of the daemon, or 7 days.
unfoldable pub cleanup_days : Option ℤ → ℕ → ℕ
cleanup_days (some days) retention = at_least_zero days
cleanup_days none zero = 7
cleanup_days none (suc n) = suc n

unfoldable pub cleanup_runs :
    Env → (String → Bool) → ℕ → Option ℤ → Bool → Store → List Evicted × Store
unfolding cleanup_days
cleanup_runs env removes retention older_than_days dry_run s =
    sweep_user_root env removes dry_run (cleanup_days older_than_days retention * 86400) s

pub data Reply : Type 0 where
  unknown active not_real failed done : Reply

-- `resolve_run_dir`: the name of the directory that the id resolves to in the caller's root, where
-- there is a directory of that name.
unfoldable pub run_dir_of : (String → Option String) → Dict Dir → String → Option (String × Dir)
run_dir_of resolve dirs run_id = elim (resolve run_id) [
  | none ↦ none
  | some name ↦ elim (Dict.lookup name dirs) [
    | none ↦ none
    | some d ↦ if d.is_dir then some (name, d) else none
  ]
]

unfoldable pub delete_dir :
    Env → (String → Bool) → String → Option (String × Dir) → Store → Reply × Store
delete_dir env removes run_id none s = (unknown, s)
delete_dir env removes run_id (some (name, d)) s =
    if is_active env name (Dict.lookup name s.runs) d
    then (active, s)
    else if not d.is_real_child
    then (not_real, s)
    else if not (removes name)
    then (failed, s)
    else (done, record { dirs = Dict.erase name s.dirs; runs = Dict.erase run_id s.runs })

unfoldable pub delete_run :
    Env → (String → Bool) → (String → Option String) → String → Store → Reply × Store
unfolding delete_dir
delete_run env removes resolve run_id s =
    delete_dir env removes run_id (run_dir_of resolve s.dirs run_id) s

abbrev pub with_pin : Bool → String → Dir → Store → Store
with_pin pinned name d s = record s {
  dirs = Dict.insert name (record d { is_pinned = pinned }) s.dirs;
}

-- `writes` says whether the marker can be written.
unfoldable pub pin_dir : (String → Bool) → Option (String × Dir) → Store → Reply × Store
pin_dir writes none s = (unknown, s)
pin_dir writes (some (name, d)) s =
    if writes name then (done, with_pin true name d s) else (failed, s)

unfoldable pub pin_run : (String → Bool) → (String → Option String) → String → Store → Reply × Store
unfolding pin_dir
pin_run writes resolve run_id s = pin_dir writes (run_dir_of resolve s.dirs run_id) s

unpin_dir : Option (String × Dir) → Store → Reply × Store
unpin_dir none s = (unknown, s)
unpin_dir (some (name, d)) s = (done, with_pin false name d s)

unfoldable pub unpin_run : (String → Option String) → String → Store → Reply × Store
unfolding unpin_dir
unpin_run resolve run_id s = unpin_dir (run_dir_of resolve s.dirs run_id) s
