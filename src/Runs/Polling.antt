-- ===== src/Runs/Polling.antt =====
-- What the calls on one run of mcp_server/skills/simulation/operations.py promise.
use openstudio_mcp.Base.{
  ℕ, ◌+◌, ◌≤◌, ◌<◌, String, true, false, Option, none, some, List, [], ◌∷◌, ◌≡◌, ◌↔◌, refl, inl,
  inr, if◌then◌else◌, ◌==◌, string_eq, arith, keep, Bool-cases,
}
use openstudio_mcp.Base.Dict.{Dict}
use openstudio_mcp.Runs.{Status, RunRecord, Sim, is_terminal}
use openstudio_mcp.Runs.Control.{waits, position_from, queue_position, PollHint, poll_interval}

-- The hint is 0 exactly for a terminal run; any other hint lies between the two bounds.
pub poll_interval_bounds :
    (hint : PollHint) (status : Status) (elapsed position : Option ℕ)
    → 0 < hint.lo
    → hint.lo ≤ hint.hi
    → ((poll_interval hint status elapsed position ≡ 0) ↔ (is_terminal status ≡ true))
      × ((is_terminal status ≡ false)
          → (hint.lo ≤ poll_interval hint status elapsed position)
            × (poll_interval hint status elapsed position ≤ hint.hi))
unfolding poll_interval
poll_interval_bounds hint status elapsed position pos le = ground arith

-- The first place of `x` in a list, counted from 1 behind `pos` others.
pub place_from : ℕ → String → List String → Option ℕ
place_from pos x [] = none
place_from pos x (y ∷ ys) = if y == x then some (pos + 1) else place_from (pos + 1) x ys

position_from-place_from :
    (pos : ℕ) (runs : Dict RunRecord) (x : String) (queue : List String)
    → position_from pos runs x queue ≡ place_from pos x (keep (waits runs) queue)
unfolding position_from place_from keep
position_from-place_from pos runs x [] = refl
position_from-place_from pos runs x (y ∷ queue) = elim (Bool-cases (waits runs y)) [
  | inl w ↦ ground (arith, position_from-place_from (pos + 1) runs x queue)
  | inr n ↦ ground (arith, position_from-place_from pos runs x queue)
]

-- The place that a poll shows is the place among the runs of the queue that still wait: entries of
-- cancelled, launched or vanished runs do not count.
pub queue_position-place_from :
    (x : String) (s : Sim) → queue_position x s ≡ place_from 0 x (keep (waits s.runs) s.queue)
unfolding queue_position
queue_position-place_from x s = position_from-place_from 0 s.runs x s.queue
