-- ===== src/Runs/Cancelling.antt =====
-- Whose runs a caller reaches in mcp_server/skills/simulation/operations.py, and what a cancel does.
use openstudio_mcp.Base.{
  ℕ, Bool, String, true, false, Option, none, some, ◌≡◌, refl, inl, inr, string_eq, arith,
  Bool-cases,
}
use openstudio_mcp.Base.Dict
use openstudio_mcp.Base.Dict.{Dict, lookup-insert}
use openstudio_mcp.Runs.{Status, RunRecord, Sim, Env, is_terminal}
use openstudio_mcp.Runs.Disk.{DiskRecord, found, loaded, get_run_record}
use openstudio_mcp.Runs.Dispatch.{Limits, dispatch_once}
use openstudio_mcp.Runs.Timeouts.{is_own, or_record, expire, timed_out_record}
use openstudio_mcp.Runs.Terminal.{lookup-dispatch_once}
use openstudio_mcp.Runs.Control.{
  done, cancel_run, cancel_record, cancel_pid, mark_cancelled, cancelled_record, begin_cancel,
  end_cancel,
}
use text.Mathlib.TextEquality.{eq_iff}

found-owner :
    (me run_id : String) (o disk : Option RunRecord) (s : Sim) (rec : RunRecord)
    → (found me run_id o disk s).0 ≡ some rec
    → rec.user_key ≡ me
unfolding found
found-owner me run_id (some r) disk s rec h = ground (arith, eq_iff r.user_key me)
found-owner me run_id none none s rec h = absurd (cc)
found-owner me run_id none (some r) s rec h = ground (arith, eq_iff r.user_key me)

-- Whatever the disk holds, a caller is given records of its own only.
pub get_run_record-owner :
    (env : Env) (me run_id : String) (disk : Option DiskRecord) (s : Sim) (rec : RunRecord)
    → (get_run_record env me run_id disk s).0 ≡ some rec
    → rec.user_key ≡ me
unfolding get_run_record
get_run_record-owner env me run_id disk s rec h =
    found-owner me run_id (Dict.lookup run_id s.runs) (loaded env me run_id disk) s rec h

-- What the kill of `pid` by a cancel of `rec` shows.
pub record IsRightful (env : Env) (run_id : String) (rec : RunRecord) (pid : ℕ) : Type 0 where
  pub active : is_terminal rec.status ≡ false
  pub has_it : rec.pid ≡ some pid
  pub lives : env.pid_alive pid ≡ true
  pub own : is_own env run_id (some pid) ≡ true

cancel_pid-killed :
    (kills : Bool) (o : Option ℕ) (env : Env) (run_id : String) (rec : RunRecord) (s : Sim)
    (pid : ℕ)
    → (cancel_pid kills o env run_id rec s).killed ≡ some pid
    → (o ≡ some pid) × (env.pid_alive pid ≡ true) × (is_own env run_id (some pid) ≡ true)
unfolding cancel_pid
cancel_pid-killed kills none env run_id rec s pid h = absurd (cc)
cancel_pid-killed kills (some p) env run_id rec s pid h = ground arith

cancel_record-killed :
    (kills : Bool) (o : Option RunRecord) (env : Env) (run_id : String) (s : Sim) (pid : ℕ)
    → (cancel_record kills env run_id o s).killed ≡ some pid
    → (rec : RunRecord) × (o ≡ some rec) × IsRightful env run_id rec pid
unfolding cancel_record
cancel_record-killed kills none env run_id s pid h = absurd (cc)
cancel_record-killed kills (some rec) env run_id s pid h =
    elim (Bool-cases (is_terminal rec.status)) [
      | inl over ↦ absurd (ground arith)
      | inr active ↦
          let (has_it, lives, own) =
            cancel_pid-killed kills rec.pid env run_id rec s pid
              (rw (active, cancel_record) at h) in
          (rec, refl, record { active = active; has_it = has_it; lives = lives; own = own })
    ]

-- A cancel signals a process only for a run of the caller's own that is not over, and only the live
-- process that the run's record names and that is shown to be its child.
pub cancel_run-killed :
    (kills : Bool) (env : Env) (me run_id : String) (disk : Option DiskRecord) (s : Sim) (pid : ℕ)
    → (cancel_run kills env me run_id disk s).killed ≡ some pid
    → (rec : RunRecord) × ((get_run_record env me run_id disk s).0 ≡ some rec)
      × (rec.user_key ≡ me)
      × IsRightful env run_id rec pid
unfolding cancel_run begin_cancel
cancel_run-killed kills env me run_id disk s pid h =
    let (o, s') = get_run_record env me run_id disk s in
    let (rec, e, r) = cancel_record-killed kills o env run_id s' pid h in
    (rec, e, get_run_record-owner env me run_id disk s rec e, r)

-- The run stands as cancelled in the table.
abbrev IsCancelled : String → Sim → Type 0
IsCancelled run_id s =
    (r : RunRecord) × (Dict.lookup run_id s.runs ≡ some r) × (r.status ≡ Status.cancelled)

mark_cancelled-IsCancelled :
    (env : Env) (run_id : String) (rec : RunRecord) (s : Sim)
    → IsCancelled run_id (mark_cancelled env run_id rec s)
unfolding mark_cancelled
mark_cancelled-IsCancelled env run_id rec s =
    let r = cancelled_record env (or_record (Dict.lookup run_id s.runs) rec) in
    (r, ground (arith, lookup-insert run_id run_id r s.runs, eq_iff run_id run_id), refl)

cancel_pid-done :
    (kills : Bool) (o : Option ℕ) (env : Env) (run_id : String) (rec : RunRecord) (s : Sim)
    → (cancel_pid kills o env run_id rec s).reply ≡ done
    → (r : RunRecord) × ((cancel_pid kills o env run_id rec s).marks ≡ some r)
unfolding cancel_pid
cancel_pid-done kills none env run_id rec s h = (rec, refl)
cancel_pid-done kills (some pid) env run_id rec s h = elim (Bool-cases (env.pid_alive pid)) [
  | inr dead ↦ absurd (cc (rw (dead, cancel_pid) at h))
  | inl lives ↦ elim (Bool-cases (is_own env run_id (some pid))) [
    | inr other ↦ absurd (cc (rw (lives, other, cancel_pid) at h))
    | inl own ↦ elim (Bool-cases kills) [
      | inr fails ↦ absurd (cc (rw (lives, own, fails, cancel_pid) at h))
      | inl works ↦ (rec, rw (lives, own, works, cancel_pid) refl)
    ]
  ]
]

cancel_record-done :
    (kills : Bool) (o : Option RunRecord) (env : Env) (run_id : String) (s : Sim)
    → (cancel_record kills env run_id o s).reply ≡ done
    → (r : RunRecord) × ((cancel_record kills env run_id o s).marks ≡ some r)
unfolding cancel_record
cancel_record-done kills none env run_id s h = absurd (cc)
cancel_record-done kills (some rec) env run_id s h = elim (Bool-cases (is_terminal rec.status)) [
  | inl over ↦ absurd (cc (rw (over, cancel_record) at h))
  | inr active ↦
      let (r, e) =
        cancel_pid-done kills rec.pid env run_id rec s (rw (active, cancel_record) at h) in
      (r, rw (active, cancel_record) e)
]

-- A confirmed cancel leaves the run cancelled, whatever came between its two parts.
end_cancel-IsCancelled :
    (kills : Bool) (env : Env) (me run_id : String) (disk : Option DiskRecord) (s between : Sim)
    → (begin_cancel kills env me run_id disk s).reply ≡ done
    → IsCancelled run_id
        (end_cancel env run_id (begin_cancel kills env me run_id disk s).marks between)
unfolding begin_cancel end_cancel
end_cancel-IsCancelled kills env me run_id disk s between h =
    let (o, s') = get_run_record env me run_id disk s in
    let (r, e) = cancel_record-done kills o env run_id s' h in
    rw (e, end_cancel) (mark_cancelled-IsCancelled env run_id r between)

-- A run whose cancel was confirmed is not launched by the pass that follows: it stays cancelled.
pub dispatch_once-end_cancel :
    (kills : Bool) (lim : Limits) (env later : Env) (me run_id : String) (disk : Option DiskRecord)
    (s between : Sim)
    → (begin_cancel kills env me run_id disk s).reply ≡ done
    → let t = end_cancel env run_id (begin_cancel kills env me run_id disk s).marks between in
      (r : RunRecord) × (Dict.lookup run_id (dispatch_once lim later t).0.runs ≡ some r)
      × (r.status ≡ Status.cancelled)
dispatch_once-end_cancel kills lim env later me run_id disk s between h =
    let (r, there, over) = end_cancel-IsCancelled kills env me run_id disk s between h in
    let t = end_cancel env run_id (begin_cancel kills env me run_id disk s).marks between in
    (r, lookup-dispatch_once lim later run_id r (rw over refl) t there, over)

-- A cancel that was confirmed while a timeout sweep had the run in hand is overwritten: whatever came
-- between its own two parts, the run stands as cancelled after it, and the second part of the sweep makes
-- a failed one of that very record.
pub expire-end_cancel :
    (kills : Bool) (env later : Env) (me run_id : String) (disk : Option DiskRecord)
    (s between : Sim) (rec : RunRecord)
    → (begin_cancel kills env me run_id disk s).reply ≡ done
    → let t = end_cancel env run_id (begin_cancel kills env me run_id disk s).marks between in
      (r : RunRecord) × (Dict.lookup run_id t.runs ≡ some r)
      × (r.status ≡ Status.cancelled)
      × (Dict.lookup run_id (expire later run_id rec t).runs ≡ some (timed_out_record later r))
unfolding expire
expire-end_cancel kills env later me run_id disk s between rec h =
    let (r, there, over) = end_cancel-IsCancelled kills env me run_id disk s between h in
    let t = end_cancel env run_id (begin_cancel kills env me run_id disk s).marks between in
    let r' = timed_out_record later r in
    (
      r,
      there,
      over,
      rw there (ground (arith, lookup-insert run_id run_id r' t.runs, eq_iff run_id run_id)),
    )
