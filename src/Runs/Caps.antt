-- ===== src/Runs/Caps.antt =====
-- One pass of the dispatcher of mcp_server/skills/simulation/operations.py respects both caps.
use Prim.Native.Nat.{max}
use openstudio_mcp.Base.{
  ℕ, ◌≤◌, ◌<◌, String, true, false, Option, none, some, List, ◌≡◌, refl, inl, inr, leb, string_eq,
  arith, Bool-cases,
}
use openstudio_mcp.Base.Dict
use openstudio_mcp.Base.Dict.{Dict, count_where-insert, count_where-update_all}
use openstudio_mcp.Runs.{RunRecord, Sim, Env, is_queued, is_running, refresh_status}
use openstudio_mcp.Runs.Dispatch.{
  Limits, reap, reap_record, Walk, launched, launch_as, dropped, is_capped, consider, visit, walk,
  start_walk, dispatch_once,
}
use openstudio_mcp.Runs.Counting.{
  runs_now, runs_for, running, running_of, Counts, result, start_walk-Counts, visit-Counts,
  walk_inv,
}
use text.Mathlib.TextEquality.{eq_iff}

-- The walk stands within the caps that it found.
record IsWithin (lim : Limits) (before : Dict RunRecord) (w : Walk) : Type 0 where
  total : running w.runs ≤ max lim.total (running before)
  users :
      (u : String) → 0 < lim.per_user → running_of u w.runs ≤ max lim.per_user (running_of u before)

module _ (lim : Limits) (env : Env) (before : Dict RunRecord) where
  launch_as-IsWithin :
      (o : Option ℕ) (run_id : String) (rec : RunRecord) (w : Walk)
      → Dict.lookup run_id w.runs ≡ some rec
      → is_queued rec.status ≡ true
      → running w.runs < lim.total
      → (0 < lim.per_user → running_of rec.user_key w.runs < lim.per_user)
      → IsWithin lim before w
      → IsWithin lim before (result (launch_as o env run_id rec w))
  unfolding launch_as running running_of
  launch_as-IsWithin none run_id rec w there idle room free h = h
  launch_as-IsWithin (some pid) run_id rec w there idle room free h = record {
    total =
        ground
          (arith, room, count_where-insert runs_now run_id rec (launched env pid rec) w.runs there);
    users = λ u pos. ground (
      arith,
      h.users u pos,
      free pos,
      eq_iff u rec.user_key,
      count_where-insert (runs_for u) run_id rec (launched env pid rec) w.runs there,
    );
  }

  free_of :
      (user : String) (w : Walk)
      → Counts w
      → is_capped lim user w ≡ false
      → 0 < lim.per_user
      → running_of user w.runs < lim.per_user
  unfolding is_capped
  free_of user w c free pos = ground (arith, c.users user)

  consider-IsWithin :
      (run_id : String) (o : Option RunRecord) (w : Walk)
      → Dict.lookup run_id w.runs ≡ o
      → running w.runs < lim.total
      → Counts w
      → IsWithin lim before w
      → IsWithin lim before (result (consider lim env run_id o w))
  unfolding consider dropped
  consider-IsWithin run_id none w there room c h = record { total = h.total; users = h.users }
  consider-IsWithin run_id (some rec) w there room c h = elim (Bool-cases (is_queued rec.status)) [
    | inr other ↦ rw (other, consider) (record { total = h.total; users = h.users })
    | inl idle ↦ elim (Bool-cases (is_capped lim rec.user_key w)) [
      | inl capped ↦ rw (idle, capped, consider) h
      | inr free ↦
          rw (idle, free, consider)
            (launch_as-IsWithin (env.spawn run_id) run_id rec w there idle room
              (free_of rec.user_key w c free) h)
    ]
  ]

  visit-IsWithin :
      (run_id : String) (w : Walk)
      → Counts w
      → IsWithin lim before w
      → IsWithin lim before (result (visit lim env run_id w))
  unfolding visit
  visit-IsWithin run_id w c h = elim (Bool-cases (leb lim.total w.running_total)) [
    | inl full ↦ rw full h
    | inr room ↦
        rw room (
          consider-IsWithin run_id (Dict.lookup run_id w.runs) w refl (ground (arith, c.total)) c h)
  ]

  walk-IsWithin :
      (ids : List String) (w : Walk)
      → Counts w × IsWithin lim before w
      → Counts (walk lim env ids w).0 × IsWithin lim before (walk lim env ids w).0
  walk-IsWithin =
      walk_inv (λ w. Counts w × IsWithin lim before w) lim env
        (λ run_id w (c, h). (visit-Counts lim env run_id w c, visit-IsWithin run_id w c h))

-- Reaping starts nothing.
reap_record-idle :
    (env : Env) (run_id : String) (rec : RunRecord)
    → is_running (reap_record env run_id rec).status ≡ true
    → (is_running rec.status ≡ true) × ((reap_record env run_id rec).user_key ≡ rec.user_key)
unfolding reap_record refresh_status
reap_record-idle env run_id rec h = ground arith

running-reap : (env : Env) (runs : Dict RunRecord) → running (reap env runs) ≤ running runs
unfolding running reap
running-reap env runs =
    count_where-update_all runs_now (reap_record env) runs
      (λ k rec h. (reap_record-idle env k rec h).0)

running_of-reap :
    (u : String) (env : Env) (runs : Dict RunRecord)
    → running_of u (reap env runs) ≤ running_of u runs
unfolding running_of reap
running_of-reap u env runs =
    count_where-update_all (runs_for u) (reap_record env) runs
      (λ k rec h. ground (arith, reap_record-idle env k rec))

module _ (lim : Limits) (env : Env) (s : Sim) where
  pass-IsWithin :
      IsWithin lim (reap env s.runs) (walk lim env s.queue (start_walk (reap env s.runs))).0
  pass-IsWithin =
      (walk-IsWithin lim env (reap env s.runs) s.queue (start_walk (reap env s.runs)) (
        start_walk-Counts (reap env s.runs),
        record { total = omega arith; users = λ u pos. omega arith },
      )).1

  -- A pass leaves no more runs running than the cap, or than there were.
  pub running-dispatch_once :
      running (dispatch_once lim env s).0.runs ≤ max lim.total (running s.runs)
  unfolding dispatch_once
  running-dispatch_once = omega (arith, pass-IsWithin.total, running-reap env s.runs)

  -- Where there is a cap for each user, a pass leaves no more runs of a user running than that cap,
  -- or than the user had.
  pub running_of-dispatch_once :
      (u : String)
      → 0 < lim.per_user
      → running_of u (dispatch_once lim env s).0.runs ≤ max lim.per_user (running_of u s.runs)
  unfolding dispatch_once
  running_of-dispatch_once u pos =
      omega (arith, pass-IsWithin.users u pos, running_of-reap u env s.runs)
