-- ===== src/Runs/Dispatch.antt =====
-- `_dispatch_once` of mcp_server/skills/simulation/operations.py: reap what has ended, count what
-- runs, and walk the queue. A launch that raises ends the pass where it stands, with nothing taken
-- off the queue, since `_dispatch_loop` suppresses the exception.
use openstudio_mcp.Base.{
  ℕ, ◌+◌, String, Bool, true, false, not, Option, none, some, List, [], ◌∷◌, ◌++◌, ◌&&◌,
  if◌then◌else◌, ltb, leb, ◌==◌, string_eq,
}
use openstudio_mcp.Base.Dict
use openstudio_mcp.Base.Dict.{Dict}
use openstudio_mcp.Runs.{Status, RunRecord, Sim, Env, is_queued, is_running, refresh_status}

-- MAX_CONCURRENCY and MAX_CONCURRENCY_PER_USER, where 0 sets no limit for a user.
pub record Limits : Type 0 where
  pub total : ℕ
  pub per_user : ℕ

-- `rec.status == "running" and rec.pid is not None and not _pid_alive(rec.pid)`
unfoldable pub is_dead : Env → RunRecord → Bool
is_dead env rec = elim rec.pid [
  | none ↦ false
  | some pid ↦ is_running rec.status && not (env.pid_alive pid)
]

unfoldable pub reap_record : Env → String → RunRecord → RunRecord
unfolding is_dead
reap_record env run_id rec = if is_dead env rec then refresh_status env run_id rec else rec

unfoldable pub reap : Env → Dict RunRecord → Dict RunRecord
unfolding reap_record
reap env runs = Dict.update_all (reap_record env) runs

-- `d[k] = d.get(k, 0) + 1`
unfoldable pub get_count : String → Dict ℕ → ℕ
get_count k d = elim (Dict.lookup k d) [ none ↦ 0 | some n ↦ n ]

unfoldable pub bump : String → Dict ℕ → Dict ℕ
unfolding get_count
bump k d = Dict.insert k (get_count k d + 1) d

-- The tally of the running runs by user, in the order of the records.
unfoldable pub tally : Dict RunRecord → Dict ℕ → Dict ℕ
unfolding bump
tally [] d = d
tally ((k, rec) ∷ runs) d = tally runs (if is_running rec.status then bump rec.user_key d else d)

-- `sum(per_user.values())`
unfoldable pub sum_values : Dict ℕ → ℕ
sum_values [] = 0
sum_values ((k, n) ∷ d) = n + sum_values d

-- The variables of the walk.
pub record Walk : Type 0 where
  pub runs : Dict RunRecord
  pub per_user : Dict ℕ
  pub running_total : ℕ
  pub drop : List String

-- What one round of the walk does: it goes on, breaks, or raises.
pub data Round : Type 0 where
  go halt raise : Walk → Round

abbrev pub launched : Env → ℕ → RunRecord → RunRecord
launched env pid rec = record rec {
  pid = some pid;
  status = Status.running;
  started_at = some env.now;
}

unfoldable pub launch_as : Option ℕ → Env → String → RunRecord → Walk → Round
unfolding bump
launch_as none env run_id rec w = raise w
launch_as (some pid) env run_id rec w = go (record {
  runs = Dict.insert run_id (launched env pid rec) w.runs;
  per_user = bump rec.user_key w.per_user;
  running_total = w.running_total + 1;
  drop = w.drop ++ (run_id ∷ []);
})

unfoldable pub dropped : String → Walk → Walk
dropped run_id w = record w { drop = w.drop ++ (run_id ∷ []) }

-- `MAX_CONCURRENCY_PER_USER > 0 and per_user.get(rec.user_key, 0) >= MAX_CONCURRENCY_PER_USER`
unfoldable pub is_capped : Limits → String → Walk → Bool
unfolding get_count
is_capped lim user w = ltb 0 lim.per_user && leb lim.per_user (get_count user w.per_user)

unfoldable pub consider : Limits → Env → String → Option RunRecord → Walk → Round
unfolding launch_as dropped is_capped
consider lim env run_id none w = go (dropped run_id w)
consider lim env run_id (some rec) w =
    if not (is_queued rec.status)
    then go (dropped run_id w)
    else if is_capped lim rec.user_key w
    then go w
    else launch_as (env.spawn run_id) env run_id rec w

unfoldable pub visit : Limits → Env → String → Walk → Round
unfolding consider
visit lim env run_id w =
    if leb lim.total w.running_total
    then halt w
    else consider lim env run_id (Dict.lookup run_id w.runs) w

-- What follows a round: the rest of the walk, or its end, with whether a launch raised.
unfoldable pub resume : (Walk → Walk × Bool) → Round → Walk × Bool
resume rest (go w) = rest w
resume rest (halt w) = (w, false)
resume rest (raise w) = (w, true)

unfoldable pub walk : Limits → Env → List String → Walk → Walk × Bool
unfolding visit resume
walk lim env [] w = (w, false)
walk lim env (run_id ∷ ids) w = resume (walk lim env ids) (visit lim env run_id w)

-- `_queue.remove(run_id)`: the first of that name.
unfoldable pub remove : String → List String → List String
remove x [] = []
remove x (y ∷ ys) = if x == y then ys else y ∷ remove x ys

unfoldable pub remove_each : List String → List String → List String
unfolding remove
remove_each [] q = q
remove_each (x ∷ xs) q = remove_each xs (remove x q)

abbrev pub start_walk : Dict RunRecord → Walk
start_walk runs =
    let per_user = tally runs [] in
    record { runs = runs; per_user = per_user; running_total = sum_values per_user; drop = [] }

-- The second part is whether a launch raised.
unfoldable pub dispatch_once : Limits → Env → Sim → Sim × Bool
dispatch_once lim env s =
    let (w, raised) = walk lim env s.queue (start_walk (reap env s.runs)) in
    (
      record { runs = w.runs; queue = if raised then s.queue else remove_each w.drop s.queue },
      raised,
    )
