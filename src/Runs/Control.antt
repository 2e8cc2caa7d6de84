-- ===== src/Runs/Control.antt =====
-- The calls of mcp_server/skills/simulation/operations.py on one run: the end of `run_osw`, which
-- queues it, `get_run_status`, `cancel_run`, and the place in the queue with the poll hint. Times
-- are in seconds where the poll hint reads them.
use openstudio_mcp.Base.{
  ℕ, ◌+◌, ◌-◌, ◌*◌, max, min, String, Bool, false, not, Option, none, some, List, [], ◌∷◌, ◌++◌,
  if◌then◌else◌, ltb, ◌==◌, string_eq,
}
use openstudio_mcp.Base.Dict
use openstudio_mcp.Base.Dict.{Dict}
use openstudio_mcp.Runs.{
  Status, RunRecord, Sim, Env, is_queued, is_terminal, or_else, refresh_status,
}
use openstudio_mcp.Runs.Disk.{DiskRecord, get_run_record}
use openstudio_mcp.Runs.Dispatch.{Limits, dispatch_once}
use openstudio_mcp.Runs.Timeouts.{is_own, or_record}

abbrev pub queued_record : String → RunRecord
queued_record user = record {
  user_key = user;
  status = Status.queued;
  started_at = none;
  ended_at = none;
  pid = none;
  exit_code = none;
  error = none;
}

-- The end of `run_osw`: the record, the queue, and a pass at once.
unfoldable pub enqueue : Limits → Env → String → String → Sim → Sim × Bool
enqueue lim env user run_id s = dispatch_once lim env (record {
  runs = Dict.insert run_id (queued_record user) s.runs;
  queue = s.queue ++ (run_id ∷ []);
})

-- `queued is None or queued.status != "queued"` is skipped.
unfoldable pub waits : Dict RunRecord → String → Bool
waits runs run_id = elim (Dict.lookup run_id runs) [
  | none ↦ false
  | some rec ↦ is_queued rec.status
]

unfoldable pub position_from : ℕ → Dict RunRecord → String → List String → Option ℕ
unfolding waits
position_from pos runs run_id [] = none
position_from pos runs run_id (rid ∷ queue) =
    if not (waits runs rid)
    then position_from pos runs run_id queue
    else if rid == run_id
    then some (pos + 1)
    else position_from (pos + 1) runs run_id queue

unfoldable pub queue_position : String → Sim → Option ℕ
unfolding position_from
queue_position run_id s = position_from 0 s.runs run_id s.queue

-- POLL_HINT_MIN_SECONDS and POLL_HINT_MAX_SECONDS.
pub record PollHint : Type 0 where
  pub lo : ℕ
  pub hi : ℕ

-- The tiers of a run that is not queued.
tier : Option ℕ → ℕ
tier none = 30
tier (some elapsed) = if ltb elapsed 60 then 30 else if ltb elapsed 300 then 60 else 120

unfoldable pub poll_interval : PollHint → Status → Option ℕ → Option ℕ → ℕ
unfolding tier
poll_interval hint status elapsed position =
    let raw = if is_queued status then 30 * max 1 (or_else position 1) else tier elapsed in
    if is_terminal status then 0 else max hint.lo (min hint.hi raw)

-- `rec.ended_at if rec.status in _TERMINAL and rec.ended_at is not None else now`
end_of : RunRecord → ℕ → ℕ
end_of rec now =
    if is_terminal rec.status then elim rec.ended_at [ none ↦ now | some t ↦ t ] else now

elapsed_seconds : RunRecord → ℕ → Option ℕ
unfolding end_of
elapsed_seconds rec now = elim rec.started_at [ none ↦ none | some t ↦ some (end_of rec now - t) ]

pub record Snapshot : Type 0 where
  pub run : RunRecord
  pub elapsed : Option ℕ
  pub position : Option ℕ
  pub poll : ℕ

snapshot : PollHint → Env → String → RunRecord → Sim → Option Snapshot × Sim
unfolding elapsed_seconds
snapshot hint env run_id rec s =
    let fresh = refresh_status env run_id rec in
    let s' : Sim = record s { runs = Dict.insert run_id fresh s.runs } in
    let position : Option ℕ = if is_queued fresh.status then queue_position run_id s' else none in
    let elapsed = elapsed_seconds fresh env.now in
    (
      some (record {
        run = fresh;
        elapsed = elapsed;
        position = position;
        poll = poll_interval hint fresh.status elapsed position;
      }),
      s',
    )

status_of : PollHint → Env → String → Option RunRecord → Sim → Option Snapshot × Sim
unfolding snapshot
status_of hint env run_id none s = (none, s)
status_of hint env run_id (some rec) s = snapshot hint env run_id rec s

-- `none` is the reply to an unknown run. The summary of eplusout.err is not modelled.
unfoldable pub get_run_status :
    PollHint → Env → String → String → Option DiskRecord → Sim → Option Snapshot × Sim
unfolding status_of
get_run_status hint env me run_id disk s =
    let (rec, s') = get_run_record env me run_id disk s in status_of hint env run_id rec s'

pub data CancelReply : Type 0 where
  no_run refused not_killed done : CancelReply
  already : Status → CancelReply

-- What the first part of a cancel does: its reply, the process group that it signals, the record that is
-- to be marked as cancelled, and the state.
pub record Cancelled : Type 0 where
  pub reply : CancelReply
  pub killed : Option ℕ
  pub marks : Option RunRecord
  pub state : Sim

abbrev pub cancelled_record : Env → RunRecord → RunRecord
cancelled_record env rec = record rec {
  status = Status.cancelled;
  ended_at = some (or_else rec.ended_at env.now);
}

-- `kills` tells whether the kill raises nothing.
unfoldable pub cancel_pid : Bool → Option ℕ → Env → String → RunRecord → Sim → Cancelled
cancel_pid kills none env run_id rec s = record {
  reply = done;
  killed = none;
  marks = some rec;
  state = s;
}
cancel_pid kills (some pid) env run_id rec s =
    let fresh = refresh_status env run_id rec in
    if not (env.pid_alive pid)
    then record {
      reply = already fresh.status;
      killed = none;
      marks = none;
      state = record s { runs = Dict.insert run_id fresh s.runs };
    }
    else if not (is_own env run_id (some pid))
    then record { reply = refused; killed = none; marks = none; state = s }
    else if kills
    then record { reply = done; killed = some pid; marks = some rec; state = s }
    else record { reply = not_killed; killed = some pid; marks = none; state = s }

unfoldable pub cancel_record : Bool → Env → String → Option RunRecord → Sim → Cancelled
unfolding cancel_pid
cancel_record kills env run_id none s = record {
  reply = no_run;
  killed = none;
  marks = none;
  state = s;
}
cancel_record kills env run_id (some rec) s =
    if is_terminal rec.status
    then record { reply = already rec.status; killed = none; marks = none; state = s }
    else cancel_pid kills rec.pid env run_id rec s

-- The first part, outside the lock: the record, the tests and the signal.
unfoldable pub begin_cancel : Bool → Env → String → String → Option DiskRecord → Sim → Cancelled
unfolding cancel_record
begin_cancel kills env me run_id disk s =
    let (rec, s') = get_run_record env me run_id disk s in cancel_record kills env run_id rec s'

-- The second part, under the lock again: the record object is the one that the table holds, and is put
-- back if it has left the table.
unfoldable pub mark_cancelled : Env → String → RunRecord → Sim → Sim
mark_cancelled env run_id rec s = record s {
  runs =
      Dict.insert run_id (cancelled_record env (or_record (Dict.lookup run_id s.runs) rec)) s.runs;
}

unfoldable pub end_cancel : Env → String → Option RunRecord → Sim → Sim
unfolding mark_cancelled
end_cancel env run_id none s = s
end_cancel env run_id (some rec) s = mark_cancelled env run_id rec s

-- The whole call, when nothing comes between.
unfoldable pub cancel_run : Bool → Env → String → String → Option DiskRecord → Sim → Cancelled
unfolding begin_cancel end_cancel
cancel_run kills env me run_id disk s =
    let c = begin_cancel kills env me run_id disk s in
    record c { state = end_cancel env run_id c.marks c.state }
