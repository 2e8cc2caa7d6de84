-- ===== src/Runs/Timeouts.antt =====
-- `_enforce_timeouts` of mcp_server/skills/simulation/operations.py. The runs past the cap are
-- collected under the lock; each is then killed outside it and marked failed under it again, so
-- other calls may come between the two parts.
use openstudio_mcp.Base.{
  ℕ, ◌+◌, String, Bool, false, Option, none, some, [], ◌∷◌, ◌&&◌, ◌==◌, ℕ_eq, ltb, if◌then◌else◌,
  negsuc,
}
use openstudio_mcp.Base.Dict
use openstudio_mcp.Base.Dict.{Dict}
use openstudio_mcp.Runs.{Status, RunRecord, RunError, Sim, Env, is_running, alive}

-- `now - started > timeout`, and the verdict that a process is the run's own child.
is_late : Env → ℕ → Option ℕ → Bool
is_late env timeout none = false
is_late env timeout (some started) = ltb (started + timeout) env.now

unfoldable pub is_own : Env → String → Option ℕ → Bool
is_own env run_id none = false
is_own env run_id (some pid) = elim (env.is_child pid run_id) [ none ↦ false | some own ↦ own ]

unfoldable pub is_expired : Env → ℕ → String → RunRecord → Bool
unfolding is_late is_own
is_expired env timeout run_id rec =
    is_running rec.status
    && is_late env timeout rec.started_at
    && alive env rec.pid
    && is_own env run_id rec.pid

collect : Env → ℕ → Dict RunRecord → Dict RunRecord
unfolding is_expired
collect env timeout [] = []
collect env timeout ((k, rec) ∷ runs) =
    let rest = collect env timeout runs in
    if is_expired env timeout k rec then (k, rec) ∷ rest else rest

-- The first part: the expired runs, none where the timeout is off.
unfoldable pub expired_runs : Env → ℕ → Sim → Dict RunRecord
unfolding collect
expired_runs env timeout s = if timeout == 0 then [] else collect env timeout s.runs

abbrev pub or_record : Option RunRecord → RunRecord → RunRecord
or_record none rec = rec
or_record (some now) rec = now

abbrev pub timed_out_record : Env → RunRecord → RunRecord
timed_out_record env rec = record rec {
  status = Status.failed;
  ended_at = some env.now;
  exit_code = some (elim rec.exit_code [ none ↦ negsuc 0 | some code ↦ code ]);
  error = some RunError.timed_out;
}

-- The second part, for one run that was collected as `rec`: the record object is the one that the
-- table holds, and is put back if it has left the table.
unfoldable pub expire : Env → String → RunRecord → Sim → Sim
expire env run_id rec s = record s {
  runs =
      Dict.insert run_id (timed_out_record env (or_record (Dict.lookup run_id s.runs) rec)) s.runs;
}

unfoldable pub expire_each : Env → Dict RunRecord → Sim → Sim
unfolding expire
expire_each env [] s = s
expire_each env ((k, rec) ∷ d) s = expire_each env d (expire env k rec s)

-- The whole call, when nothing comes between.
unfoldable pub enforce_timeouts : Env → ℕ → Sim → Sim
unfolding expired_runs expire_each
enforce_timeouts env timeout s = expire_each env (expired_runs env timeout s) s
