-- ===== src/Runs/Counting.antt =====
-- The counters of the dispatcher of mcp_server/skills/simulation/operations.py are the numbers of
-- running records, from the tally on and through the walk.
use openstudio_mcp.Base.{
  ℕ, ◌+◌, String, Bool, true, Option, none, some, List, [], ◌∷◌, ◌&&◌, ◌≡◌, refl, inl, inr,
  if◌then◌else◌, leb, ◌==◌, string_eq, arith, Bool-cases,
}
use openstudio_mcp.Base.Dict
use openstudio_mcp.Base.Dict.{Dict, lookup-insert, count_where-insert, count_where-update_all}
use openstudio_mcp.Runs.{RunRecord, Env, is_queued, is_running}
use openstudio_mcp.Runs.Dispatch.{
  Limits, get_count, bump, tally, sum_values, Walk, Round, go, halt, raise, launched, launch_as,
  dropped, is_capped, consider, visit, resume, walk, start_walk,
}
use text.Mathlib.TextEquality.{eq_iff}

abbrev pub runs_now : RunRecord → Bool
runs_now rec = is_running rec.status

abbrev pub runs_for : String → RunRecord → Bool
runs_for user rec = is_running rec.status && user == rec.user_key

unfoldable pub running : Dict RunRecord → ℕ
running runs = Dict.count_where runs_now runs

unfoldable pub running_of : String → Dict RunRecord → ℕ
running_of user runs = Dict.count_where (runs_for user) runs

pub get_count-bump :
    (u k : String) (d : Dict ℕ) → get_count u (bump k d) ≡ get_count u d + (if u == k then 1 else 0)
unfolding get_count bump
get_count-bump u k d = ground (arith, lookup-insert u k (get_count k d + 1) d, eq_iff u k)

sum_values-insert :
    (k : String) (n : ℕ) (d : Dict ℕ)
    → sum_values (Dict.insert k n d) + get_count k d ≡ sum_values d + n
unfolding sum_values get_count Dict.insert Dict.lookup
sum_values-insert k n [] = omega arith
sum_values-insert k n ((j, m) ∷ d) = ground (arith, sum_values-insert k n d)

sum_values-bump : (k : String) (d : Dict ℕ) → sum_values (bump k d) ≡ sum_values d + 1
unfolding bump
sum_values-bump k d = omega (arith, sum_values-insert k (get_count k d + 1) d)

pub get_count-tally :
    (u : String) (runs : Dict RunRecord) (d : Dict ℕ)
    → get_count u (tally runs d) ≡ get_count u d + running_of u runs
unfolding tally running_of Dict.count_where
get_count-tally u [] d = omega arith
get_count-tally u ((k, rec) ∷ runs) d = ground (
  arith,
  get_count-tally u runs d,
  get_count-tally u runs (bump rec.user_key d),
  get_count-bump u rec.user_key d,
)

pub sum_values-tally :
    (runs : Dict RunRecord) (d : Dict ℕ) → sum_values (tally runs d) ≡ sum_values d + running runs
unfolding tally running Dict.count_where
sum_values-tally [] d = omega arith
sum_values-tally ((k, rec) ∷ runs) d = ground (
  arith,
  sum_values-tally runs d,
  sum_values-tally runs (bump rec.user_key d),
  sum_values-bump rec.user_key d,
)

-- The counters of a walk are right.
pub record Counts (w : Walk) : Type 0 where
  pub total : w.running_total ≡ running w.runs
  pub users : (u : String) → get_count u w.per_user ≡ running_of u w.runs

pub start_walk-Counts : (runs : Dict RunRecord) → Counts (start_walk runs)
unfolding get_count Dict.lookup sum_values
start_walk-Counts runs = record {
  total = omega (arith, sum_values-tally runs []);
  users = λ u. omega (arith, get_count-tally u runs []);
}

-- What a round leaves.
abbrev pub result : Round → Walk
result (go w) = w
result (halt w) = w
result (raise w) = w

launch_as-Counts :
    (o : Option ℕ) (env : Env) (run_id : String) (rec : RunRecord) (w : Walk)
    → Dict.lookup run_id w.runs ≡ some rec
    → is_queued rec.status ≡ true
    → Counts w
    → Counts (result (launch_as o env run_id rec w))
unfolding launch_as running running_of
launch_as-Counts none env run_id rec w there idle c = c
launch_as-Counts (some pid) env run_id rec w there idle c = record {
  total =
      ground (
        arith,
        c.total,
        count_where-insert runs_now run_id rec (launched env pid rec) w.runs there,
      );
  users = λ u. ground (
    arith,
    c.users u,
    get_count-bump u rec.user_key w.per_user,
    count_where-insert (runs_for u) run_id rec (launched env pid rec) w.runs there,
  );
}

consider-Counts :
    (lim : Limits) (env : Env) (run_id : String) (o : Option RunRecord) (w : Walk)
    → Dict.lookup run_id w.runs ≡ o
    → Counts w
    → Counts (result (consider lim env run_id o w))
unfolding consider dropped
consider-Counts lim env run_id none w there c = record { total = c.total; users = c.users }
consider-Counts lim env run_id (some rec) w there c = elim (Bool-cases (is_queued rec.status)) [
  | inr other ↦ rw (other, consider) (record { total = c.total; users = c.users })
  | inl idle ↦ elim (Bool-cases (is_capped lim rec.user_key w)) [
    | inl capped ↦ rw (idle, capped, consider) c
    | inr free ↦
        rw (idle, free, consider)
          (launch_as-Counts (env.spawn run_id) env run_id rec w there idle c)
  ]
]

pub visit-Counts :
    (lim : Limits) (env : Env) (run_id : String) (w : Walk)
    → Counts w
    → Counts (result (visit lim env run_id w))
unfolding visit
visit-Counts lim env run_id w c = elim (Bool-cases (leb lim.total w.running_total)) [
  | inl full ↦ rw full c
  | inr room ↦ rw room (consider-Counts lim env run_id (Dict.lookup run_id w.runs) w refl c)
]

resume_inv :
    (P : Walk → Type 0) (rest : Walk → Walk × Bool) (r : Round)
    → ((w : Walk) → P w → P (rest w).0)
    → P (result r)
    → P (resume rest r).0
unfolding resume
resume_inv P rest (go w) keep h = keep w h
resume_inv P rest (halt w) keep h = h
resume_inv P rest (raise w) keep h = h

-- What every round keeps, the walk keeps.
pub walk_inv :
    (P : Walk → Type 0) (lim : Limits) (env : Env)
    → ((run_id : String) (w : Walk) → P w → P (result (visit lim env run_id w)))
    → (ids : List String) (w : Walk) → P w
    → P (walk lim env ids w).0
unfolding walk
walk_inv P lim env keep [] w h = h
walk_inv P lim env keep (run_id ∷ ids) w h =
    resume_inv P (walk lim env ids) (visit lim env run_id w) (walk_inv P lim env keep ids)
      (keep run_id w h)
