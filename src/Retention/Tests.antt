-- ===== src/Retention/Tests.antt =====
-- The retention at concrete directories, and its theorems there.
use openstudio_mcp.Base.{
  ℕ, ◌<◌, ◌≡◌, String, Bool, true, false, Option, none, some, [], ◌∷◌, refl, string_eq, arith,
}
use openstudio_mcp.Base.Dict
use openstudio_mcp.Base.Dict.{Dict, NodupKeys}
use openstudio_mcp.Runs.{Status, Env, OutOsw}
use openstudio_mcp.Runs.Control.{queued_record}
use openstudio_mcp.Runs.Dispatch.{Limits, dispatch_once}
use openstudio_mcp.Retention.{
  Dir, RecordFile, Stamp, DiskPid, is_run_dir, is_active, is_skipped, run_age_seconds,
}
use openstudio_mcp.Retention.Sweep.{
  Store, sweep_user_root, Folder, Container, gc_sweep_all, entries, left_in,
}
use openstudio_mcp.Retention.Calls.{
  done, cleanup_days, cleanup_runs, delete_run, run_dir_of, pin_run,
}
use openstudio_mcp.Retention.Protected.{IsDeletable, sweep_user_root-protected, delete_run-done}
use openstudio_mcp.Retention.Everyone.{gc_sweep_all-pinned}
use openstudio_mcp.Retention.Forgetting.{delete_run-forgets}

-- A million seconds on the clock, and no process lives.
abbrev env : Env
env = record {
  now = 1000000;
  pid_alive = λ pid. false;
  is_child = λ pid run_id. none;
  wait_exit = λ pid. none;
  out_osw = λ run_id. OutOsw.complete;
  spawn = λ run_id. none;
}

abbrev every : String → Bool
every name = true

abbrev itself : String → Option String
itself name = some name

abbrev ended : Status → ℕ → Dir
ended status t = record {
  is_symlink = false;
  is_dir = true;
  is_real_child = true;
  is_companion = false;
  has_record = true;
  has_out_osw = true;
  has_run = true;
  is_pinned = false;
  record_file = RecordFile.holds (record {
    status = status;
    pid = DiskPid.no_pid;
    ended_at = Stamp.at t;
    created_at = Stamp.missing;
  });
  mtime = some t;
  size = 5;
}

abbrev pinned : Dir
pinned = record (ended Status.success 10) { is_pinned = true }

-- To unfold this is to unfold what the sweeps of the tests compute with.
store : Store
unfolding sweep_user_root is_skipped is_run_dir is_active run_age_seconds delete_run run_dir_of
    pin_run cleanup_runs cleanup_days gc_sweep_all entries left_in Dict.erase Dict.lookup
    Dict.insert
store = record {
  dirs =
      ("kept", pinned)
      ∷ ("late", ended Status.success 990000)
      ∷ ("models", ended Status.success 20)
      ∷ ("old", ended Status.failed 20)
      ∷ ("waiting", ended Status.queued 20)
      ∷ [];
  runs = ("waiting", queued_record "ann") ∷ [];
}

store-NodupKeys : NodupKeys store.dirs
unfolding store
store-NodupKeys = (refl, (refl, (refl, (refl, (refl, tt)))))

-- Only the old run goes.
one_sweep :
    (sweep_user_root env every false 86400 store).0
    ≡ (record { run_id = "old"; age = 999980; size = 5 }) ∷ []
unfolding store
one_sweep = refl

kept_there : Dict.lookup "kept" store.dirs ≡ some pinned
unfolding store
kept_there = refl

late_there : Dict.lookup "late" store.dirs ≡ some (ended Status.success 990000)
unfolding store
late_there = refl

late_young : run_age_seconds env.now (ended Status.success 990000) < 86400
unfolding store
late_young = omega arith

sweep_user_root-protected_example :
    Dict.lookup "kept" (sweep_user_root env every false 0 store).1.dirs ≡ some pinned
sweep_user_root-protected_example =
    sweep_user_root-protected env every false 0 store "kept" pinned store-NodupKeys kept_there refl

old_deleted : (delete_run env every itself "old" store).0 ≡ done
unfolding store
old_deleted = refl

delete_run-done_example :
    (name : String) × (d : Dir) × (itself "old" ≡ some name) × IsDeletable env store name d
delete_run-done_example = delete_run-done env every itself "old" store old_deleted

old_pinned : (pin_run every itself "old" store).0 ≡ done
unfolding store
old_pinned = refl

-- Bob has a directory with the id of a queued run of ann.
abbrev of_bob : Store
of_bob = record {
  dirs = ("waiting", ended Status.success 20) ∷ [];
  runs = ("waiting", queued_record "ann") ∷ [];
}

bob_deletes : (delete_run env every itself "waiting" of_bob).0 ≡ done
unfolding store
bob_deletes = refl

abbrev lim : Limits
lim = record { total = 1; per_user = 0 }

delete_run-forgets_example :
    Dict.lookup "waiting"
      (dispatch_once lim env (record {
        runs = (delete_run env every itself "waiting" of_bob).1.runs;
        queue = "waiting" ∷ [];
      })).0.runs
    ≡ none
delete_run-forgets_example =
    delete_run-forgets lim env env every itself "waiting" of_bob ("waiting" ∷ []) bob_deletes

-- The root of a user, with or without an out.osw directly in it.
abbrev home : Bool → Folder
home with_osw = record {
  entry = record (ended Status.success 20) {
    has_record = false;
    has_run = false;
    has_out_osw = with_osw;
    record_file = RecordFile.no_record;
  };
  inside = ("kept", pinned) ∷ [];
}

abbrev all_users : Container
all_users = record { root = ("ann", home false) ∷ ("bob", home true) ∷ []; runs = [] }

all_users-NodupKeys : NodupKeys all_users.root
unfolding store
all_users-NodupKeys = (refl, (refl, tt))

ann_there : Dict.lookup "ann" all_users.root ≡ some (home false)
unfolding store
ann_there = refl

ann_no_run : is_run_dir "ann" (home false).entry ≡ false
unfolding store
ann_no_run = refl

kept_of_ann : Dict.lookup "kept" (home false).inside ≡ some pinned
unfolding store
kept_of_ann = refl

kept-NodupKeys : NodupKeys (home false).inside
unfolding store
kept-NodupKeys = (refl, tt)

gc_sweep_all-pinned_example :
    (f' : Folder) × (Dict.lookup "ann" (gc_sweep_all env every 1 true all_users).1.root ≡ some f')
    × (Dict.lookup "kept" f'.inside ≡ some pinned)
gc_sweep_all-pinned_example =
    gc_sweep_all-pinned env every 1 true all_users "ann" "kept" (home false) pinned
      all_users-NodupKeys ann_there ann_no_run kept-NodupKeys kept_of_ann refl
