-- ===== src/Session/Refinement.antt =====
-- Every operation of mcp_server/model_manager.py is a sequence of moves of the table.
pub mod Access
pub mod Documents
use openstudio_mcp.Base.{
  ℕ, zero, suc, ◌≤◌, ◌<◌, ◌-◌, String, Bool, true, false, not, Option, none, some, List, [], ◌∷◌,
  ◌≡◌, refl, ◌≢◌, ◌⊎◌, inl, inr, ◌==◌, ◌&&◌, string_eq, ℕ_eq, if◌then◌else◌, length, arith, leb,
  Option-cases, Bool-cases,
}
use openstudio_mcp.Base.Dict
use openstudio_mcp.Base.Dict.{Dict, NodupKeys}
use openstudio_mcp.Session.{
  Config, max_sessions, SessionState, Manager, fresh, drop_session, drop_each, idle_keys,
  sweep_idle, least_recent, evict_loop, evict_if_needed, or_fresh, session_of, put_session,
}
use openstudio_mcp.Session.Eviction.{evict_if_needed-room}
use openstudio_mcp.Session.Moves
use openstudio_mcp.Session.Moves.{Updates, Move, Moves, here, next, Moves-one, Moves-trans}
use openstudio_mcp.Session.Invariant.{IsValid, Moves-IsValid}

module _ {M : Type 0} (cfg : Config) {key : String} where
  pub drop_session-Moves : (k : String) (m : Manager M) → Moves cfg key m (drop_session k m)
  unfolding drop_session
  drop_session-Moves k m = Moves-one (Move.drop k refl refl)

  pub drop_each-Moves : (ks : List String) (m : Manager M) → Moves cfg key m (drop_each ks m)
  unfolding drop_each
  drop_each-Moves [] m = here
  drop_each-Moves (k ∷ ks) m =
      Moves-trans (drop_session-Moves k m) (drop_each-Moves ks (drop_session k m))

  pub sweep_idle-Moves : (now : ℕ) (m : Manager M) → Moves cfg key m (sweep_idle cfg now m)
  unfolding sweep_idle
  sweep_idle-Moves now m = elim (Bool-cases (cfg.ttl == 0)) [
    | inl off ↦ rw off here
    | inr live ↦ rw live (drop_each-Moves (idle_keys (now - cfg.ttl) m.sessions) m)
  ]

  evict_loop-Moves : (fuel : ℕ) (m : Manager M) → Moves cfg key m (evict_loop fuel cfg m)
  unfolding evict_loop
  evict_loop-Moves zero m = here
  evict_loop-Moves (suc fuel) m = elim (Bool-cases (leb (max_sessions cfg) (length m.sessions))) [
    | inr room ↦ rw room here
    | inl full ↦ elim (Option-cases (least_recent m.sessions)) [
      | inl empty ↦ rw (full, empty, evict_loop) here
      | inr ((v, st), found) ↦
          rw (full, found, evict_loop)
            (Moves-trans (drop_session-Moves v m) (evict_loop-Moves fuel (drop_session v m)))
    ]
  ]

  pub evict_if_needed-Moves :
      (keep : String) (m : Manager M) → Moves cfg key m (evict_if_needed keep cfg m)
  unfolding evict_if_needed
  evict_if_needed-Moves keep m = elim (Option-cases (Dict.lookup keep m.sessions)) [
    | inl absent ↦ rw (absent, evict_if_needed) (evict_loop-Moves (length m.sessions) m)
    | inr (st, there) ↦ rw (there, evict_if_needed) here
  ]

module _ {M : Type 0} (cfg : Config) where
  -- After `_evict_if_needed(keep)` there is a place for `keep`.
  pub place :
      (keep : String) (m : Manager M)
      → IsValid cfg m
      → (Dict.lookup keep (evict_if_needed keep cfg m).sessions ≢ none)
        ⊎ (length (evict_if_needed keep cfg m).sessions < max_sessions cfg)
  unfolding evict_if_needed
  place keep m v = elim (Option-cases (Dict.lookup keep m.sessions)) [
    | inl absent ↦ inr (evict_if_needed-room keep cfg m v.nodup absent)
    | inr (st, there) ↦ inl (rw (there, evict_if_needed) (λ n. cc))
  ]

  pub put-Moves :
      (key : String) (st st' : SessionState M) (m : Manager M)
      → Dict.lookup key m.sessions ≡ some st
      → Updates st st'
      → Moves cfg key m (put_session key st' m)
  unfolding put_session
  put-Moves key st st' m there u = Moves-one (Move.update st st' there u refl refl)
