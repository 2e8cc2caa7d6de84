-- ===== src/Runs/Waiting.antt =====
-- What a pass of the dispatcher of mcp_server/skills/simulation/operations.py leaves waiting.
use openstudio_mcp.Base.{
  ℕ, ◌≤◌, ◌<◌, String, true, false, Option, none, some, List, [], ◌∷◌, ◌≡◌, ◌⊎◌, refl, inl, inr,
  leb, ◌==◌, string_eq, arith, Bool-cases, contains,
}
use openstudio_mcp.Base.Dict
use openstudio_mcp.Base.Dict.{Dict, lookup-insert}
use openstudio_mcp.Runs.{RunRecord, Sim, Env, is_queued}
use openstudio_mcp.Runs.Dispatch.{
  Limits, reap, Walk, Round, go, halt, raise, launched, launch_as, dropped, is_capped, consider,
  visit, resume, walk, start_walk, dispatch_once,
}
use openstudio_mcp.Runs.Counting.{
  running, running_of, Counts, result, start_walk-Counts, visit-Counts, get_count-bump, walk_inv,
}
use text.Mathlib.TextEquality.{eq_iff}

-- `run_id` has nothing to wait for but a cap: every slot is taken, or every slot of its user.
abbrev IsSettled : Limits → String → Walk → Type 0
IsSettled lim run_id w =
    (rec : RunRecord)
    → Dict.lookup run_id w.runs ≡ some rec
    → is_queued rec.status ≡ true
    → (lim.total ≤ w.running_total) ⊎ (is_capped lim rec.user_key w ≡ true)

module _ (lim : Limits) (env : Env) where
  -- A later round takes nothing back: it launches at most, and the counters grow.
  launch_as-IsSettled :
      (o : Option ℕ) (run_id j : String) (rec : RunRecord) (w : Walk)
      → IsSettled lim j w
      → IsSettled lim j (result (launch_as o env run_id rec w))
  unfolding launch_as is_capped
  launch_as-IsSettled none run_id j rec w h = h
  launch_as-IsSettled (some pid) run_id j rec w h = λ r there idle. ground (
    arith,
    lookup-insert j run_id (launched env pid rec) w.runs,
    get_count-bump r.user_key rec.user_key w.per_user,
    h r,
  )

  consider-IsSettled :
      (run_id j : String) (o : Option RunRecord) (w : Walk)
      → IsSettled lim j w
      → IsSettled lim j (result (consider lim env run_id o w))
  unfolding consider dropped is_capped
  consider-IsSettled run_id j none w h = h
  consider-IsSettled run_id j (some rec) w h = elim (Bool-cases (is_queued rec.status)) [
    | inr other ↦ rw (other, consider) h
    | inl idle ↦ elim (Bool-cases (is_capped lim rec.user_key w)) [
      | inl capped ↦ rw (idle, capped, consider) h
      | inr free ↦
          rw (idle, free, consider) (launch_as-IsSettled (env.spawn run_id) run_id j rec w h)
    ]
  ]

  visit-IsSettled :
      (run_id j : String) (w : Walk)
      → IsSettled lim j w
      → IsSettled lim j (result (visit lim env run_id w))
  unfolding visit
  visit-IsSettled run_id j w h = elim (Bool-cases (leb lim.total w.running_total)) [
    | inl full ↦ rw full h
    | inr room ↦ rw room (consider-IsSettled run_id j (Dict.lookup run_id w.runs) w h)
  ]

  -- What a round says of its own run, if no launch raised; a break says it of every run.
  abbrev Settles : String → Round → Type 0
  Settles j (go w) = IsSettled lim j w
  Settles j (halt w) = lim.total ≤ w.running_total
  Settles j (raise w) = Unit

  launch_as-Settles :
      (o : Option ℕ) (j : String) (rec : RunRecord) (w : Walk) → Settles j (launch_as o env j rec w)
  unfolding launch_as
  launch_as-Settles none j rec w = tt
  launch_as-Settles (some pid) j rec w =
      λ r there idle. ground (arith, lookup-insert j j (launched env pid rec) w.runs, eq_iff j j)

  consider-Settles :
      (j : String) (o : Option RunRecord) (w : Walk)
      → Dict.lookup j w.runs ≡ o
      → Settles j (consider lim env j o w)
  unfolding consider dropped
  consider-Settles j none w e = λ r there idle. absurd (cc)
  consider-Settles j (some rec) w e = elim (Bool-cases (is_queued rec.status)) [
    | inr other ↦ rw (other, consider) (λ r there idle. ground arith)
    | inl idle ↦ elim (Bool-cases (is_capped lim rec.user_key w)) [
      | inl capped ↦ rw (idle, capped, consider) (λ r there idle. ground arith)
      | inr free ↦ rw (idle, free, consider) (launch_as-Settles (env.spawn j) j rec w)
    ]
  ]

  visit-Settles : (j : String) (w : Walk) → Settles j (visit lim env j w)
  unfolding visit
  visit-Settles j w = elim (Bool-cases (leb lim.total w.running_total)) [
    | inl full ↦ rw full (ground arith)
    | inr room ↦ rw room (consider-Settles j (Dict.lookup j w.runs) w refl)
  ]

  resume-IsSettled :
      (j run_id : String) (ids : List String) (r : Round)
      → Settles run_id r
      → (j ≡ run_id) ⊎ (contains ids j ≡ true)
      → ((w : Walk)
          → contains ids j ≡ true
          → (walk lim env ids w).1 ≡ false
          → IsSettled lim j (walk lim env ids w).0)
      → (resume (walk lim env ids) r).1 ≡ false
      → IsSettled lim j (resume (walk lim env ids) r).0
  unfolding resume
  resume-IsSettled j run_id ids (go w) here (inl e) later ok =
      walk_inv (IsSettled lim j) lim env (λ k v h. visit-IsSettled k j v h) ids w (rw e here)
  resume-IsSettled j run_id ids (go w) here (inr m) later ok = later w m ok
  resume-IsSettled j run_id ids (halt w) full m later ok = λ r there idle. inl full
  resume-IsSettled j run_id ids (raise w) here m later ok = absurd (cc)

  walk-IsSettled :
      (ids : List String) (w : Walk) (j : String)
      → contains ids j ≡ true
      → (walk lim env ids w).1 ≡ false
      → IsSettled lim j (walk lim env ids w).0
  unfolding walk
  walk-IsSettled [] w j m ok = absurd (cc)
  walk-IsSettled (run_id ∷ ids) w j m ok =
      resume-IsSettled j run_id ids (visit lim env run_id w) (visit-Settles run_id w) place
        (λ v m' ok'. walk-IsSettled ids v j m' ok') ok
    where
      place : (j ≡ run_id) ⊎ (contains ids j ≡ true)
      place = elim (Bool-cases (j == run_id)) [
        | inl e ↦ inl ((eq_iff j run_id).0 e)
        | inr ne ↦ inr (ground (arith, m))
      ]

-- Nothing that could run is left waiting: after a pass in which no launch raised, a run of the
-- queue that is still queued waits for a slot of the server, or for one of its user.
pub dispatch_once-fills :
    (lim : Limits) (env : Env) (s : Sim) (j : String) (rec : RunRecord)
    → (dispatch_once lim env s).1 ≡ false
    → contains s.queue j ≡ true
    → Dict.lookup j (dispatch_once lim env s).0.runs ≡ some rec
    → is_queued rec.status ≡ true
    → (lim.total ≤ running (dispatch_once lim env s).0.runs)
      ⊎ ((0 < lim.per_user)
          × (lim.per_user ≤ running_of rec.user_key (dispatch_once lim env s).0.runs))
unfolding dispatch_once is_capped
dispatch_once-fills lim env s j rec ok m there idle =
    let w = start_walk (reap env s.runs) in
    let c =
      walk_inv Counts lim env (λ k v h. visit-Counts lim env k v h) s.queue w
        (start_walk-Counts (reap env s.runs)) in
    ground
      (arith, walk-IsSettled lim env s.queue w j m ok rec there idle, c.total, c.users rec.user_key)

walk-blocked :
    (lim : Limits) (env : Env) (head : String) (rest : List String) (rec : RunRecord) (w : Walk)
    → Dict.lookup head w.runs ≡ some rec
    → is_queued rec.status ≡ true
    → leb lim.total w.running_total ≡ false
    → is_capped lim rec.user_key w ≡ false
    → env.spawn head ≡ none
    → walk lim env (head ∷ rest) w ≡ (w, true)
unfolding walk visit consider launch_as
walk-blocked lim env head rest rec w there idle room free fails =
    rw (room, visit) (rw (there, consider) (rw (idle, free, fails, launch_as)))

-- A run whose launch raises holds up the queue: with it at the head, a free slot and its user under
-- the cap, a pass launches nothing, of any user, and leaves the queue as it was.
pub dispatch_once-blocked :
    (lim : Limits) (env : Env) (s : Sim) (head : String) (rest : List String) (rec : RunRecord)
    → s.queue ≡ head ∷ rest
    → Dict.lookup head (reap env s.runs) ≡ some rec
    → is_queued rec.status ≡ true
    → running (reap env s.runs) < lim.total
    → (0 < lim.per_user → running_of rec.user_key (reap env s.runs) < lim.per_user)
    → env.spawn head ≡ none
    → dispatch_once lim env s ≡ (record s { runs = reap env s.runs }, true)
unfolding dispatch_once is_capped
dispatch_once-blocked lim env s head rest rec q there idle room free fails =
    let w = start_walk (reap env s.runs) in
    let c = start_walk-Counts (reap env s.runs) in
    let stuck =
      walk-blocked lim env head rest rec w there idle (ground (arith, c.total))
        (ground (arith, free, c.users rec.user_key)) fails in
    rw (q, stuck)
