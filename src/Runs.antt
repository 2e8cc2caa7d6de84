-- ===== src/Runs.antt =====
-- The simulation scheduler of mcp_server/skills/simulation/operations.py: the run records that the
-- process holds, the queue, and the classification of a run whose process has ended. What the
-- operating system and the run directory say is an argument of each call, `Env`. Times are ticks.
pub mod Disk
pub mod Dispatch
pub mod Timeouts
pub mod Control
pub mod Counting
pub mod Caps
pub mod Waiting
pub mod Terminal
pub mod Polling
pub mod Cancelling
mod Tests
use openstudio_mcp.Base.{
  ℕ, zero, suc, ◌+◌, String, Bool, true, false, not, Option, none, some, List, [], ◌∷◌, ◌++◌, ◌||◌,
  ◌&&◌, if◌then◌else◌, ℤ,
}
use openstudio_mcp.Base.Dict
use openstudio_mcp.Base.Dict.{Dict}

-- `unknown` is what a record with another status reads as; `error` is in `_TERMINAL` alone.
pub data Status : Type 0 where
  queued running success failed cancelled unknown error : Status

pub data RunError : Type 0 where
  timed_out restarted unparsable : RunError
  other : String → RunError

pub record RunRecord : Type 0 where
  pub user_key : String
  pub status : Status
  pub started_at : Option ℕ
  pub ended_at : Option ℕ
  pub pid : Option ℕ
  pub exit_code : Option ℤ
  pub error : Option RunError

-- `_RUNS` and `_queue`.
pub record Sim : Type 0 where
  pub runs : Dict RunRecord
  pub queue : List String

-- The out.osw of a run directory, as far as `_refresh_status` reads it.
pub data OutOsw : Type 0 where
  absent unreadable complete incomplete : OutOsw

pub record Env : Type 0 where
  pub now : ℕ
  pub pid_alive : ℕ → Bool
  pub is_child : ℕ → String → Option Bool
  pub wait_exit : ℕ → Option ℤ
  pub out_osw : String → OutOsw
  -- the pid of a launched run, `none` if the launch raises
  pub spawn : String → Option ℕ

abbrev pub is_queued : Status → Bool
is_queued queued = true
is_queued _ = false

abbrev pub is_running : Status → Bool
is_running running = true
is_running _ = false

-- `status in _TERMINAL`
abbrev pub is_terminal : Status → Bool
is_terminal queued = false
is_terminal running = false
is_terminal unknown = false
is_terminal _ = true

-- `value or default`, where 0 counts as missing.
abbrev pub or_else : Option ℕ → ℕ → ℕ
or_else none d = d
or_else (some zero) d = d
or_else (some (suc n)) d = suc n

abbrev pub first {ℓ} : {A : Type ℓ} → Option A → Option A → Option A
first none o = o
first (some a) o = some a

-- `rec.pid is not None and the process lives`
abbrev pub alive : Env → Option ℕ → Bool
alive env none = false
alive env (some pid) = env.pid_alive pid

abbrev has_pid : Option ℕ → Bool
has_pid none = false
has_pid (some pid) = true

outcome : OutOsw → Status
outcome complete = success
outcome _ = failed

read_error : OutOsw → Option RunError
read_error unreadable = some unparsable
read_error _ = none

exit_of : Env → Option ℕ → Option ℤ
exit_of env none = none
exit_of env (some pid) = env.wait_exit pid

-- The part of `_refresh_status` behind its early returns.
finished : Env → String → RunRecord → RunRecord
unfolding outcome read_error exit_of
finished env run_id rec = record rec {
  status = outcome (env.out_osw run_id);
  ended_at = some (or_else rec.ended_at env.now);
  exit_code = first (exit_of env rec.pid) rec.exit_code;
  error = first (read_error (env.out_osw run_id)) rec.error;
}

unfoldable pub refresh_status : Env → String → RunRecord → RunRecord
unfolding finished
refresh_status env run_id rec =
    if is_terminal rec.status
    then rec
    else if not (has_pid rec.pid) && not (is_running rec.status)
    then rec
    else if alive env rec.pid
    then rec
    else finished env run_id rec
