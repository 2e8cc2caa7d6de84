-- ===== src/Session.antt =====
-- The sessions of mcp_server/model_manager.py: one loaded model for each connection, dropped when
-- it is idle and when the table is full. Every operation runs under the manager's lock, so each
-- is one function of the manager's state; it reads the monotonic clock once, as `now` in ticks.
pub mod Load
pub mod Save
pub mod Access
pub mod Steps
pub mod Eviction
pub mod Recency
pub mod Moves
pub mod Refinement
pub mod Invariant
pub mod Reload
pub mod Generations
pub mod Isolation
pub mod Clean
mod Tests
use openstudio_mcp.Base.{
  ℕ, zero, suc, ◌-◌, max, String, Bool, true, false, not, Option, none, some, List, [], ◌∷◌, ◌++◌,
  ltb, leb, ◌==◌, string_eq, ℕ_eq, if◌then◌else◌, length, keep,
}
use openstudio_mcp.Base.Dict
use openstudio_mcp.Base.Dict.{Dict}

-- OSMCP_MAX_SESSIONS and OSMCP_SESSION_TTL as the environment gives them.
pub record Config : Type 0 where
  pub raw_max_sessions : ℕ
  pub ttl : ℕ

abbrev pub max_sessions : Config → ℕ
max_sessions cfg = max 1 cfg.raw_max_sessions

-- `M` is the SDK's model. The lock of a session is not part of the state.
pub record SessionState (M : Type 0) : Type 0 where
  pub model : Option M
  pub path : Option String
  pub last_access : ℕ
  pub generation : ℕ
  pub extra : Dict String
  pub clean : Dict String
  pub workspace : Option String

-- The module's globals: the sessions and the next load token. `removed` lists the workspaces
-- handed to the remover, and `disk` what saving wrote.
pub record Manager (M : Type 0) : Type 0 where
  pub sessions : Dict (SessionState M)
  pub next_token : ℕ
  pub removed : List String
  pub disk : Dict M

module _ {M : Type 0} where
  -- `_SessionState()`
  abbrev pub fresh : SessionState M
  fresh = record {
    model = none;
    path = none;
    last_access = 0;
    generation = 0;
    extra = [];
    clean = [];
    workspace = none;
  }

  -- `_sessions` and `_load_tokens = itertools.count(1)` at import.
  abbrev pub init : Manager M
  init = record { sessions = []; next_token = 1; removed = []; disk = [] }

  -- The workspace that `_discard_workspace` detaches from a session, as a list of at most one.
  pub discarded : Option (SessionState M) → List String
  discarded none = []
  discarded (some st) = elim st.workspace [ none ↦ [] | some ws ↦ ws ∷ [] ]

  pub drop_session : String → Manager M → Manager M
  drop_session key m = record m {
    sessions = Dict.erase key m.sessions;
    removed = m.removed ++ discarded (Dict.lookup key m.sessions);
  }

  pub drop_each : List String → Manager M → Manager M
  drop_each [] m = m
  drop_each (key ∷ ks) m = drop_each ks (drop_session key m)

  -- `[k for k, st in _sessions.items() if st.last_access < cutoff]`
  pub idle_keys : ℕ → Dict (SessionState M) → List String
  idle_keys cutoff [] = []
  idle_keys cutoff ((k, st) ∷ d) =
      let rest = idle_keys cutoff d in if ltb st.last_access cutoff then k ∷ rest else rest

  -- A clock below the TTL has no idle session: the cutoff stops at 0, and no access is below it.
  pub sweep_idle : Config → ℕ → Manager M → Manager M
  unfolding drop_each idle_keys
  sweep_idle cfg now m =
      if cfg.ttl == 0 then m else drop_each (idle_keys (now - cfg.ttl) m.sessions) m

  -- `min(keys, key=last_access)`: the first of the least recently used.
  pub older :
      String → SessionState M → Option (String × SessionState M) → Option (String × SessionState M)
  older k st none = some (k, st)
  older k st (some (j, best)) =
      if leb st.last_access best.last_access then some (k, st) else some (j, best)

  pub least_recent : Dict (SessionState M) → Option (String × SessionState M)
  unfolding older
  least_recent [] = none
  least_recent ((k, st) ∷ d) = older k st (least_recent d)

  -- The loop of `_evict_if_needed`, once `keep` is known to have no session.
  pub evict_loop : ℕ → Config → Manager M → Manager M
  unfolding least_recent drop_session
  evict_loop zero cfg m = m
  evict_loop (suc fuel) cfg m =
      if leb (max_sessions cfg) (length m.sessions)
      then elim (least_recent m.sessions) [
        | none ↦ m
        | some (victim, _) ↦ evict_loop fuel cfg (drop_session victim m)
      ]
      else m

  pub evict_if_needed : String → Config → Manager M → Manager M
  unfolding evict_loop
  evict_if_needed keep cfg m = elim (Dict.lookup keep m.sessions) [
    | some _ ↦ m
    | none ↦ evict_loop (length m.sessions) cfg m
  ]

  -- `_sessions.setdefault(key, _SessionState())`, as a read.
  pub or_fresh : Option (SessionState M) → SessionState M
  or_fresh none = fresh
  or_fresh (some st) = st

  pub session_of : String → Manager M → SessionState M
  unfolding or_fresh
  session_of key m = or_fresh (Dict.lookup key m.sessions)

  pub put_session : String → SessionState M → Manager M → Manager M
  put_session key st m = record m { sessions = Dict.insert key st m.sessions }

  -- `_touch(st)`, written back.
  unfoldable pub touch : String → ℕ → SessionState M → Manager M → Manager M
  unfolding put_session
  touch key now st m = put_session key (record st { last_access = now }) m
