-- ===== src/Runs/Terminal.antt =====
-- A finished or cancelled run stays as it is under the dispatcher of
-- mcp_server/skills/simulation/operations.py.
use openstudio_mcp.Base.{
  ℕ, String, true, Option, none, some, ◌≡◌, refl, inl, inr, leb, string_eq, arith, Bool-cases, ◌∙◌,
}
use openstudio_mcp.Base.Dict
use openstudio_mcp.Base.Dict.{Dict, lookup-insert, lookup-update_all}
use openstudio_mcp.Runs.{RunRecord, Sim, Env, is_queued, is_terminal, refresh_status}
use openstudio_mcp.Runs.Dispatch.{
  Limits, reap, reap_record, Walk, launched, launch_as, dropped, is_capped, consider, visit,
  start_walk, dispatch_once,
}
use openstudio_mcp.Runs.Counting.{result, walk_inv}
use text.Mathlib.TextEquality.{eq_iff}

reap-terminal :
    (env : Env) (k : String) (runs : Dict RunRecord) (rec : RunRecord)
    → Dict.lookup k runs ≡ some rec
    → is_terminal rec.status ≡ true
    → Dict.lookup k (reap env runs) ≡ some rec
unfolding reap reap_record refresh_status
reap-terminal env k runs rec there over =
    lookup-update_all (reap_record env) k runs ∙ rw there (ground arith)

module _ (lim : Limits) (env : Env) (k : String) (rec : RunRecord)
    (over : is_terminal rec.status ≡ true) where
  launch_as-terminal :
      (o : Option ℕ) (run_id : String) (r : RunRecord) (w : Walk)
      → Dict.lookup run_id w.runs ≡ some r
      → is_queued r.status ≡ true
      → Dict.lookup k w.runs ≡ some rec
      → Dict.lookup k (result (launch_as o env run_id r w)).runs ≡ some rec
  unfolding launch_as
  launch_as-terminal none run_id r w at idle h = h
  launch_as-terminal (some pid) run_id r w at idle h =
      ground (arith, over, lookup-insert k run_id (launched env pid r) w.runs, eq_iff k run_id)

  consider-terminal :
      (run_id : String) (o : Option RunRecord) (w : Walk)
      → Dict.lookup run_id w.runs ≡ o
      → Dict.lookup k w.runs ≡ some rec
      → Dict.lookup k (result (consider lim env run_id o w)).runs ≡ some rec
  unfolding consider dropped
  consider-terminal run_id none w at h = h
  consider-terminal run_id (some r) w at h = elim (Bool-cases (is_queued r.status)) [
    | inr other ↦ rw (other, consider) h
    | inl idle ↦ elim (Bool-cases (is_capped lim r.user_key w)) [
      | inl capped ↦ rw (idle, capped, consider) h
      | inr free ↦
          rw (idle, free, consider) (launch_as-terminal (env.spawn run_id) run_id r w at idle h)
    ]
  ]

  visit-terminal :
      (run_id : String) (w : Walk)
      → Dict.lookup k w.runs ≡ some rec
      → Dict.lookup k (result (visit lim env run_id w)).runs ≡ some rec
  unfolding visit
  visit-terminal run_id w h = elim (Bool-cases (leb lim.total w.running_total)) [
    | inl full ↦ rw full h
    | inr room ↦ rw room (consider-terminal run_id (Dict.lookup run_id w.runs) w refl h)
  ]

  -- A pass leaves every terminal record as it was, so a cancelled run is never launched.
  pub lookup-dispatch_once :
      (s : Sim)
      → Dict.lookup k s.runs ≡ some rec
      → Dict.lookup k (dispatch_once lim env s).0.runs ≡ some rec
  unfolding dispatch_once
  lookup-dispatch_once s there =
      walk_inv (λ w. Dict.lookup k w.runs ≡ some rec) lim env visit-terminal s.queue
        (start_walk (reap env s.runs)) (reap-terminal env k s.runs rec there over)
