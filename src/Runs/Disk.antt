-- ===== src/Runs/Disk.antt =====
-- `_load_run_record_from_disk` of mcp_server/skills/simulation/operations.py: a run_record.json in
-- the run directory was written by code that is not trusted. The record here is what the JSON and
-- the coercions of its fields leave; an unknown status reads as `none`.
use openstudio_mcp.Base.{
  ℕ, String, Bool, false, not, Option, none, some, if◌then◌else◌, ℤ, ◌==◌, string_eq,
}
use openstudio_mcp.Base.Dict
use openstudio_mcp.Base.Dict.{Dict}
use openstudio_mcp.Runs.{Status, RunRecord, RunError, Sim, Env, is_queued, or_else}

pub record DiskRecord : Type 0 where
  pub user_key : Option String
  pub status : Option Status
  pub started_at : Option ℕ
  pub ended_at : Option ℕ
  pub pid : Option ℕ
  pub exit_code : Option ℤ
  pub error : Option String

-- `_pid_is_runs_child(pid, run_dir) is False`
abbrev is_foreign : Option Bool → Bool
is_foreign none = false
is_foreign (some own) = not own

-- A pid is kept where its process lives and is not shown to be another's.
unfoldable pub trusted_pid : Env → String → Option ℕ → Option ℕ
trusted_pid env run_id none = none
trusted_pid env run_id (some pid) =
    if not (env.pid_alive pid)
    then none
    else if is_foreign (env.is_child pid run_id)
    then none
    else some pid

-- `status if status in _STATUSES else "unknown"`: `error` is not one of them.
unfoldable pub known : Option Status → Status
known none = Status.unknown
known (some Status.error) = Status.unknown
known (some s) = s

abbrev other_error : Option String → Option RunError
other_error none = none
other_error (some text) = some (RunError.other text)

abbrev or_text : Option String → String → String
or_text none d = d
or_text (some s) d = if s == "" then d else s

-- A queued record that has to be read from disk was queued by a process that is gone.
unfoldable pub load_record : Env → String → String → DiskRecord → RunRecord
unfolding trusted_pid known
load_record env me run_id d =
    let status = known d.status in
    record {
      user_key = or_text d.user_key me;
      status = if is_queued status then Status.failed else status;
      started_at = d.started_at;
      ended_at = if is_queued status then some (or_else d.ended_at env.now) else d.ended_at;
      pid = trusted_pid env run_id d.pid;
      exit_code = d.exit_code;
      error = if is_queued status then some RunError.restarted else other_error d.error;
    }

-- `_get_run_record`: memory, then the caller's disk, and never a record of another user.
abbrev pub loaded : Env → String → String → Option DiskRecord → Option RunRecord
loaded env me run_id none = none
loaded env me run_id (some d) = some (load_record env me run_id d)

unfoldable pub found :
    String → String → Option RunRecord → Option RunRecord → Sim → Option RunRecord × Sim
found me run_id (some rec) disk s = (if rec.user_key == me then some rec else none, s)
found me run_id none none s = (none, s)
found me run_id none (some rec) s =
    if rec.user_key == me
    then (some rec, record s { runs = Dict.insert run_id rec s.runs })
    else (none, s)

unfoldable pub get_run_record :
    Env → String → String → Option DiskRecord → Sim → Option RunRecord × Sim
unfolding load_record found
get_run_record env me run_id disk s =
    found me run_id (Dict.lookup run_id s.runs) (loaded env me run_id disk) s
