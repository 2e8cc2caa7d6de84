-- ===== src/Session/Moves.antt =====
-- The table of sessions, abstractly: the kinds of change that an operation of
-- mcp_server/model_manager.py for the session of `key` makes to it. The refinement is in
-- Session/Refinement.antt.
use openstudio_mcp.Base.{suc, ◌<◌, String, Option, none, ◌≡◌, ◌≢◌, ◌⊎◌, length}
use openstudio_mcp.Base.Dict
use openstudio_mcp.Session.{Config, max_sessions, SessionState, Manager}

-- What holds of a state that may take the place of another without a load.
pub record Updates {M : Type 0} (st st' : SessionState M) : Type 0 where
  pub generation : st'.generation ≡ st.generation
  pub unloaded : st.model ≡ none → st'.model ≡ none

pub data Move {M : Type 0} (cfg : Config) (key : String) (m m' : Manager M) : Type 0 where
  -- only the workspaces or the disk change
  same : m'.sessions ≡ m.sessions → m'.next_token ≡ m.next_token → Move cfg key m m'
  -- a session goes
  drop :
      (k : String)
      → m'.sessions ≡ Dict.erase k m.sessions
      → m'.next_token ≡ m.next_token
      → Move cfg key m m'
  -- a session changes, but for its generation
  update :
      (st st' : SessionState M)
      → Dict.lookup key m.sessions ≡ Option.some st
      → Updates st st'
      → m'.sessions ≡ Dict.insert key st' m.sessions
      → m'.next_token ≡ m.next_token
      → Move cfg key m m'
  -- a session with no model comes, where there is room
  create :
      (st' : SessionState M)
      → length m.sessions < max_sessions cfg
      → st'.generation ≡ 0
      → st'.model ≡ none
      → m'.sessions ≡ Dict.insert key st' m.sessions
      → m'.next_token ≡ m.next_token
      → Move cfg key m m'
  -- a session gets a model, and the next token with it
  install :
      (st' : SessionState M) (model : M)
      → st'.model ≡ Option.some model
      → (Dict.lookup key m.sessions ≢ none) ⊎ (length m.sessions < max_sessions cfg)
      → st'.generation ≡ m.next_token
      → m'.sessions ≡ Dict.insert key st' m.sessions
      → m'.next_token ≡ suc m.next_token
      → Move cfg key m m'

-- Any number of moves.
pub data Moves {M : Type 0} (cfg : Config) (key : String) : Manager M → Manager M → Type 0 where
  here : {m : Manager M} → Moves cfg key m m
  next : {m n p : Manager M} → Move cfg key m n → Moves cfg key n p → Moves cfg key m p

module _ {M : Type 0} {cfg : Config} {key : String} where
  pub Moves-one : {m n : Manager M} → Move cfg key m n → Moves cfg key m n
  Moves-one mv = next mv here

  pub Moves-trans : {m n p : Manager M} → Moves cfg key m n → Moves cfg key n p → Moves cfg key m p
  Moves-trans here q = q
  Moves-trans (next mv r) q = next mv (Moves-trans r q)
