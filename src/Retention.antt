-- ===== src/Retention.antt =====
-- The retention of run directories in mcp_server/skills/simulation/retention.py: what counts as a
-- run, what protects it, how old it is, and the window in days. Times and ages are in seconds,
-- windows in whole days.
pub mod Sweep
pub mod Calls
pub mod Exact
pub mod Protected
pub mod Window
pub mod Everyone
pub mod Forgetting
mod Tests
use openstudio_mcp.Base.{
  ℕ, zero, suc, ◌-◌, String, Bool, true, false, not, Option, none, some, List, [], ◌∷◌, ◌||◌, ◌&&◌,
  if◌then◌else◌, ltb, ◌==◌, string_eq, contains, ℤ, pos, negsuc,
}
use openstudio_mcp.Runs.{Status, RunRecord, Env, is_terminal}

-- A time in run_record.json: a value that is no number is garbled.
pub data Stamp : Type 0 where
  missing garbled : Stamp
  at : ℕ → Stamp

pub data DiskPid : Type 0 where
  no_pid bad_pid : DiskPid
  pid : ℕ → DiskPid

pub record DiskRun : Type 0 where
  pub status : Status
  pub pid : DiskPid
  pub ended_at : Stamp
  pub created_at : Stamp

-- What `_record` gives: none, the empty object for a record that cannot be read (or is empty), or
-- its fields.
pub data RecordFile : Type 0 where
  no_record unreadable : RecordFile
  holds : DiskRun → RecordFile

-- An entry of the user's run root, as far as the retention looks at it.
pub record Dir : Type 0 where
  pub is_symlink : Bool
  pub is_dir : Bool
  pub is_real_child : Bool
  pub is_companion : Bool
  pub has_record : Bool
  pub has_out_osw : Bool
  pub has_run : Bool
  pub is_pinned : Bool
  pub record_file : RecordFile
  pub mtime : Option ℕ
  pub size : ℕ

-- `_NOT_A_RUN`
abbrev not_a_run : List String
not_a_run = "examples" ∷ "exports" ∷ "workspace" ∷ "models" ∷ []

unfoldable pub is_run_dir : String → Dir → Bool
is_run_dir name d =
    if contains not_a_run name || d.is_companion
    then false
    else d.has_record || d.has_out_osw || d.has_run

-- `data.get("ended_at") or data.get("created_at")`, where 0 counts as missing.
stamp_of : Stamp → Stamp → Stamp
stamp_of missing b = b
stamp_of (at zero) b = b
stamp_of a b = a

mtime_age : ℕ → Option ℕ → ℕ
mtime_age now none = 0
mtime_age now (some t) = now - t

-- `max(0.0, now - float(ts))`, or the age of the directory.
age_from : ℕ → Option ℕ → Stamp → ℕ
unfolding mtime_age
age_from now mtime (at (suc t)) = now - suc t
age_from now mtime _ = mtime_age now mtime

age_in : ℕ → Option ℕ → RecordFile → ℕ
unfolding age_from stamp_of
age_in now mtime (holds r) = age_from now mtime (stamp_of r.ended_at r.created_at)
age_in now mtime _ = mtime_age now mtime

unfoldable pub run_age_seconds : ℕ → Dir → ℕ
unfolding age_in
run_age_seconds now d = age_in now d.mtime d.record_file

-- A queued run is active while the process holds a record of it that is not over.
is_held : Option RunRecord → Bool
is_held none = false
is_held (some rec) = not (is_terminal rec.status)

-- A pid that is shown to be another's protects nothing; one that cannot be inspected does.
is_live : Env → String → DiskPid → Bool
is_live env name no_pid = false
is_live env name bad_pid = true
is_live env name (pid zero) = false
is_live env name (pid (suc n)) =
    env.pid_alive (suc n) && elim (env.is_child (suc n) name) [ none ↦ true | some own ↦ own ]

active_run : Env → String → Option RunRecord → DiskRun → Bool
unfolding is_held is_live
active_run env name held r = elim r.status [
  | Status.queued ↦ is_held held
  | Status.running ↦ is_live env name r.pid
  | _ ↦ false
]

active_in : Env → String → Option RunRecord → RecordFile → Bool
unfolding active_run
active_in env name held no_record = false
active_in env name held unreadable = true
active_in env name held (holds r) = active_run env name held r

-- `held` is the record that the process holds under the name of the directory.
unfoldable pub is_active : Env → String → Option RunRecord → Dir → Bool
unfolding active_in
is_active env name held d = active_in env name held d.record_file

-- The tests of the sweep that pass over an entry, in its order.
unfoldable pub is_skipped : Env → ℕ → String → Option RunRecord → Dir → Bool
unfolding is_run_dir is_active run_age_seconds
is_skipped env max_age name held d =
    (d.is_symlink || not d.is_dir || not (is_run_dir name d))
    || not d.is_real_child
    || (d.is_pinned || is_active env name held d)
    || ltb (run_age_seconds env.now d) max_age

-- `max(0.0, days)`
unfoldable pub at_least_zero : ℤ → ℕ
at_least_zero (pos n) = n
at_least_zero (negsuc n) = 0

-- `--gc-days N`, then `--gc`, then the environment.
unfoldable pub resolve_gc_days : Bool → Option ℤ → ℤ → ℕ
unfolding at_least_zero
resolve_gc_days gc (some days) env_days = at_least_zero days
resolve_gc_days true none (pos (suc n)) = suc n
resolve_gc_days true none _ = 7
resolve_gc_days false none env_days = at_least_zero env_days
