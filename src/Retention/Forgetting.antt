-- ===== src/Retention/Forgetting.antt =====
-- `_forget` of mcp_server/skills/simulation/retention.py looks at the name of a run alone.
use openstudio_mcp.Base.{
  ℕ, String, Bool, Option, none, some, List, ◌≡◌, refl, inl, inr, arith, string_eq, leb, Bool-cases,
}
use openstudio_mcp.Base.Dict
use openstudio_mcp.Base.Dict.{Dict, lookup-insert, lookup-erase, lookup-update_all}
use openstudio_mcp.Runs.{RunRecord, Env, Sim, is_queued}
use openstudio_mcp.Runs.Dispatch.{
  Limits, dispatch_once, reap, reap_record, visit, consider, launch_as, launched, dropped,
  start_walk, Walk, is_capped,
}
use openstudio_mcp.Runs.Counting.{result, walk_inv}
use openstudio_mcp.Retention.{Dir}
use openstudio_mcp.Retention.Sweep.{Store}
use openstudio_mcp.Retention.Calls.{done, delete_run, delete_dir, run_dir_of}
use text.Mathlib.TextEquality.{eq_iff}

module _ (lim : Limits) (env : Env) (k : String) where
  launch_as-absent :
      (o : Option ℕ) (run_id : String) (rec : RunRecord) (w : Walk)
      → Dict.lookup run_id w.runs ≡ some rec
      → Dict.lookup k w.runs ≡ none
      → Dict.lookup k (result (launch_as o env run_id rec w)).runs ≡ none
  unfolding launch_as
  launch_as-absent none run_id rec w there gone = gone
  launch_as-absent (some pid) run_id rec w there gone =
      ground (arith, lookup-insert k run_id (launched env pid rec) w.runs, eq_iff k run_id)

  consider-absent :
      (run_id : String) (o : Option RunRecord) (w : Walk)
      → Dict.lookup run_id w.runs ≡ o
      → Dict.lookup k w.runs ≡ none
      → Dict.lookup k (result (consider lim env run_id o w)).runs ≡ none
  unfolding consider dropped
  consider-absent run_id none w e gone = gone
  consider-absent run_id (some rec) w e gone = elim (Bool-cases (is_queued rec.status)) [
    | inr other ↦ rw (other, consider) gone
    | inl idle ↦ elim (Bool-cases (is_capped lim rec.user_key w)) [
      | inl capped ↦ rw (idle, capped, consider) gone
      | inr free ↦
          rw (idle, free, consider) (launch_as-absent (env.spawn run_id) run_id rec w e gone)
    ]
  ]

  visit-absent :
      (run_id : String) (w : Walk)
      → Dict.lookup k w.runs ≡ none
      → Dict.lookup k (result (visit lim env run_id w)).runs ≡ none
  unfolding visit
  visit-absent run_id w gone = elim (Bool-cases (leb lim.total w.running_total)) [
    | inl full ↦ rw full gone
    | inr room ↦ rw room (consider-absent run_id (Dict.lookup run_id w.runs) w refl gone)
  ]

  -- A pass brings back no run that the table has lost.
  dispatch_once-absent :
      (s : Sim)
      → Dict.lookup k s.runs ≡ none
      → Dict.lookup k (dispatch_once lim env s).0.runs ≡ none
  unfolding dispatch_once reap
  dispatch_once-absent s gone =
      walk_inv (λ w. Dict.lookup k w.runs ≡ none) lim env visit-absent s.queue
        (start_walk (reap env s.runs))
        (ground (arith, lookup-update_all (reap_record env) k s.runs, gone))

delete_dir-forgets :
    (env : Env) (removes : String → Bool) (run_id : String) (o : Option (String × Dir)) (s : Store)
    → (delete_dir env removes run_id o s).0 ≡ done
    → Dict.lookup run_id (delete_dir env removes run_id o s).1.runs ≡ none
unfolding delete_dir
delete_dir-forgets env removes run_id none s h = absurd (cc)
delete_dir-forgets env removes run_id (some (name, d)) s h =
    ground (arith, lookup-erase run_id run_id s.runs, eq_iff run_id run_id)

-- A confirmed deletion takes the run of that id out of the table whoever owns it: a directory of the
-- caller's own that bears the id of another user's queued run is enough for the next pass not to
-- have that run any more.
pub delete_run-forgets :
    (lim : Limits) (env later : Env) (removes : String → Bool) (resolve : String → Option String)
    (run_id : String) (s : Store) (queue : List String)
    → (delete_run env removes resolve run_id s).0 ≡ done
    → Dict.lookup run_id
        (dispatch_once lim later (record {
          runs = (delete_run env removes resolve run_id s).1.runs;
          queue = queue;
        })).0.runs
      ≡ none
unfolding delete_run
delete_run-forgets lim env later removes resolve run_id s queue h =
    dispatch_once-absent lim later run_id
      (record {
        runs = (delete_dir env removes run_id (run_dir_of resolve s.dirs run_id) s).1.runs;
        queue = queue;
      })
      (delete_dir-forgets env removes run_id (run_dir_of resolve s.dirs run_id) s h)
