-- ===== src/Runs/Tests.antt =====
-- The scheduler at concrete runs, and its theorems there.
use Prim.Native.Nat.{max}
use openstudio_mcp.Base.{
  ℕ, ◌≤◌, ◌<◌, ◌≡◌, ◌⊎◌, String, true, false, none, some, [], ◌∷◌, refl, ◌==◌, string_eq, negsuc,
  if◌then◌else◌, arith, keep, contains, leb,
}
use openstudio_mcp.Base.Dict
use openstudio_mcp.Base.Dict.{Dict, lookup-insert}
use openstudio_mcp.Runs.{Status, RunRecord, RunError, Sim, Env, OutOsw}
use openstudio_mcp.Runs.Dispatch.{Limits, reap, dispatch_once, walk, sum_values, tally, remove_each}
use openstudio_mcp.Runs.Timeouts.{timed_out_record, is_own, expire, enforce_timeouts}
use openstudio_mcp.Runs.Disk.{get_run_record}
use openstudio_mcp.Runs.Control.{
  PollHint, queue_position, waits, cancel_run, begin_cancel, end_cancel, done, queued_record,
}
use openstudio_mcp.Runs.Counting.{running, running_of}
use openstudio_mcp.Runs.Caps.{running-dispatch_once}
use openstudio_mcp.Runs.Waiting.{dispatch_once-fills, dispatch_once-blocked}
use openstudio_mcp.Runs.Terminal.{lookup-dispatch_once}
use openstudio_mcp.Runs.Cancelling.{
  IsRightful, get_run_record-owner, cancel_run-killed, expire-end_cancel,
}

-- Process 7 lives and is the child of run r1; a launch of "bad" raises, any other gets pid 9.
abbrev env : Env
env = record {
  now = 100;
  pid_alive = λ pid. leb 7 pid;
  is_child = λ pid run_id. some true;
  wait_exit = λ pid. none;
  out_osw = λ run_id. OutOsw.complete;
  spawn = λ run_id. if run_id == "bad" then none else some 9;
}

abbrev busy : String → ℕ → RunRecord
busy user pid = record (queued_record user) {
  status = Status.running;
  pid = some pid;
  started_at = some 10;
}

abbrev over : RunRecord
over = record (queued_record "ann") { status = Status.cancelled; ended_at = some 50 }

abbrev two : Limits
two = record { total = 2; per_user = 1 }

-- To unfold this is to unfold what the runs of the tests compute with.
sim : Sim
unfolding dispatch_once walk sum_values tally remove_each queue_position cancel_run get_run_record
    expire running running_of reap enforce_timeouts keep waits is_own Dict.insert Dict.lookup
    Dict.update_all Dict.count_where
sim = record {
  runs =
      ("r1", busy "ann" 7)
      ∷ ("r2", queued_record "ann")
      ∷ ("r3", queued_record "bob")
      ∷ ("r4", over)
      ∷ [];
  queue = "r2" ∷ "r4" ∷ "r3" ∷ [];
}

-- Ann is at her cap, so the slot goes to bob; the cancelled entry is dropped.
one_pass : dispatch_once two env sim ≡ (
  record {
    runs =
        ("r1", busy "ann" 7)
        ∷ ("r2", queued_record "ann")
        ∷ ("r3", record (busy "bob" 9) { started_at = some 100 })
        ∷ ("r4", over)
        ∷ [];
    queue = "r2" ∷ [];
  },
  false,
)
unfolding sim
one_pass = refl

place_of_bob : queue_position "r3" sim ≡ some 2
unfolding sim
place_of_bob = refl

-- The sweep marks the run that is past its time.
swept :
    Dict.lookup "r1" (enforce_timeouts env 60 sim).runs
    ≡ some (record (busy "ann" 7) {
      status = Status.failed;
      ended_at = some 100;
      exit_code = some (negsuc 0);
      error = some RunError.timed_out;
    })
unfolding sim
swept = refl

running-dispatch_once_example :
    running (dispatch_once two env sim).0.runs ≤ max 2 (running sim.runs)
running-dispatch_once_example = running-dispatch_once two env sim

passed : (dispatch_once two env sim).1 ≡ false
unfolding sim
passed = refl

r2_in_queue : contains sim.queue "r2" ≡ true
unfolding sim
r2_in_queue = refl

r2_waits : Dict.lookup "r2" (dispatch_once two env sim).0.runs ≡ some (queued_record "ann")
unfolding sim
r2_waits = refl

dispatch_once-fills_example :
    (2 ≤ running (dispatch_once two env sim).0.runs)
    ⊎ ((0 < 1) × (1 ≤ running_of "ann" (dispatch_once two env sim).0.runs))
dispatch_once-fills_example =
    dispatch_once-fills two env sim "r2" (queued_record "ann") passed r2_in_queue r2_waits refl

abbrev stuck : Sim
stuck = record {
  runs = ("bad", queued_record "ann") ∷ ("r3", queued_record "bob") ∷ [];
  queue = "bad" ∷ "r3" ∷ [];
}

bad_there : Dict.lookup "bad" (reap env stuck.runs) ≡ some (queued_record "ann")
unfolding sim
bad_there = refl

none_running : running (reap env stuck.runs) < 2
unfolding sim
none_running = omega arith

none_of_ann : 0 < 1 → running_of "ann" (reap env stuck.runs) < 1
unfolding sim
none_of_ann pos = omega arith

dispatch_once-blocked_example :
    dispatch_once two env stuck ≡ (record stuck { runs = reap env stuck.runs }, true)
dispatch_once-blocked_example =
    dispatch_once-blocked two env stuck "bad" ("r3" ∷ []) (queued_record "ann") refl bad_there refl
      none_running none_of_ann refl

r4_there : Dict.lookup "r4" sim.runs ≡ some over
unfolding sim
r4_there = refl

lookup-dispatch_once_example : Dict.lookup "r4" (dispatch_once two env sim).0.runs ≡ some over
lookup-dispatch_once_example = lookup-dispatch_once two env "r4" over refl sim r4_there

abbrev hint : PollHint
hint = record { lo = 5; hi = 90 }

r1_found : (get_run_record env "ann" "r1" none sim).0 ≡ some (busy "ann" 7)
unfolding sim
r1_found = refl

get_run_record-owner_example : (busy "ann" 7).user_key ≡ "ann"
get_run_record-owner_example = get_run_record-owner env "ann" "r1" none sim (busy "ann" 7) r1_found

r1_killed : (cancel_run true env "ann" "r1" none sim).killed ≡ some 7
unfolding sim
r1_killed = refl

r1_done : (cancel_run true env "ann" "r1" none sim).reply ≡ done
unfolding sim
r1_done = refl

cancel_run-killed_example :
    (rec : RunRecord) × ((get_run_record env "ann" "r1" none sim).0 ≡ some rec)
    × (rec.user_key ≡ "ann")
    × IsRightful env "r1" rec 7
cancel_run-killed_example = cancel_run-killed true env "ann" "r1" none sim 7 r1_killed

begun : (begin_cancel true env "ann" "r1" none sim).reply ≡ done
unfolding sim
begun = refl

expire-end_cancel_example :
    let t = end_cancel env "r1" (begin_cancel true env "ann" "r1" none sim).marks sim in
    (r : RunRecord) × (Dict.lookup "r1" t.runs ≡ some r)
    × (r.status ≡ Status.cancelled)
    × (Dict.lookup "r1" (expire env "r1" (busy "ann" 7) t).runs ≡ some (timed_out_record env r))
expire-end_cancel_example =
    expire-end_cancel true env env "ann" "r1" none sim sim (busy "ann" 7) begun
