-- ===== src/Session/Access.antt =====
-- The other accessors of mcp_server/model_manager.py: the pending files, the model, its path, the
-- scratch dict, and the clearing of sessions.
use openstudio_mcp.Base.{
  ℕ, String, ◌<>◌, Bool, false, not, Option, none, some, ◌==◌, string_eq, ℕ_eq, if◌then◌else◌,
}
use openstudio_mcp.Base.Dict
use openstudio_mcp.Base.Dict.{Dict}
use openstudio_mcp.Session.{
  Config, SessionState, Manager, drop_session, drop_each, sweep_idle, evict_if_needed, session_of,
  put_session, touch,
}
use openstudio_mcp.Session.Load.{Result, ok, err, no_model, workspace_symlink, replaced}

module _ {M : Type 0} (cfg : Config) where
  -- `root` is the caller's workspace root, `root_is_symlink` the test of it, and `name` the random
  -- part of the name of a new workspace. Making the directory is not modelled.
  -- `expected_generation is not None and st.generation != expected_generation`
  unfoldable pub is_replaced : Option ℕ → SessionState M → Bool
  is_replaced none st = false
  is_replaced (some g) st = not (st.generation == g)

  unfoldable pub pending_in :
      Option String
      → SessionState M
      → String
      → ℕ
      → String
      → Bool
      → String
      → Manager M
      → Result String × Manager M
  pending_in (some ws) st key now root root_is_symlink name m =
      (ok (ws <> "/files"), put_session key (record st { last_access = now }) m)
  pending_in none st key now root root_is_symlink name m =
      let ws = root <> "/ws_" <> name in
      if root_is_symlink then (err workspace_symlink, m) else (
        ok (ws <> "/files"),
        put_session key (record st { last_access = now; workspace = some ws }) m,
      )

  unfoldable pub pending_loaded :
      Option M
      → SessionState M
      → String
      → ℕ
      → String
      → Bool
      → String
      → Option ℕ
      → Manager M
      → Result String × Manager M
  unfolding pending_in is_replaced
  pending_loaded none st key now root root_is_symlink name expected m = (err no_model, m)
  pending_loaded (some model) st key now root root_is_symlink name expected m =
      if is_replaced expected st
      then (err (replaced expected st.generation), m)
      else pending_in st.workspace st key now root root_is_symlink name m

  unfoldable pub pending :
      Option (SessionState M)
      → String
      → ℕ
      → String
      → Bool
      → String
      → Option ℕ
      → Manager M
      → Result String × Manager M
  unfolding pending_loaded
  pending none key now root root_is_symlink name expected m = (err no_model, m)
  pending (some st) key now root root_is_symlink name expected m =
      pending_loaded st.model st key now root root_is_symlink name expected m

  unfoldable pub pending_files_dir :
      String → ℕ → String → Bool → String → Option ℕ → Manager M → Result String × Manager M
  unfolding pending
  pending_files_dir key now root root_is_symlink name expected m =
      let m' = sweep_idle cfg now m in
      pending (Dict.lookup key m'.sessions) key now root root_is_symlink name expected m'

  workspace_if_current : Option (SessionState M) → Option ℕ → Option String
  workspace_if_current none expected = none
  workspace_if_current (some st) none = st.workspace
  workspace_if_current (some st) (some g) = if st.generation == g then st.workspace else none

  -- It neither sweeps nor touches. `is_dir` asks the file system.
  unfoldable pub pending_files_dir_if_exists :
      (String → Bool) → String → Option ℕ → Manager M → Option String
  unfolding workspace_if_current
  pending_files_dir_if_exists is_dir key expected m =
      elim (workspace_if_current (Dict.lookup key m.sessions) expected) [
        | none ↦ none
        | some ws ↦ let files = ws <> "/files" in if is_dir files then some files else none
      ]

  unfoldable pub got_loaded :
      Option M → SessionState M → String → ℕ → Manager M → Result (M × ℕ) × Manager M
  unfolding touch
  got_loaded none st key now m = (err no_model, m)
  got_loaded (some model) st key now m = (ok (model, st.generation), touch key now st m)

  unfoldable pub got : Option (SessionState M) → String → ℕ → Manager M → Result (M × ℕ) × Manager M
  unfolding got_loaded
  got none key now m = (err no_model, m)
  got (some st) key now m = got_loaded st.model st key now m

  -- `get_model` returns the first part of what this does.
  unfoldable pub get_model_with_generation : String → ℕ → Manager M → Result (M × ℕ) × Manager M
  unfolding got
  get_model_with_generation key now m =
      let m' = sweep_idle cfg now m in got (Dict.lookup key m'.sessions) key now m'

  -- `get_model_path` and `get_model_if_loaded`, which share all but the field that they return.
  unfoldable pub peek :
      {A : Type 0} → (SessionState M → Option A) → String → ℕ → Manager M → Option A × Manager M
  unfolding touch
  peek field key now m =
      let m' = sweep_idle cfg now m in
      elim (Dict.lookup key m'.sessions) [
        | none ↦ (none, m')
        | some st ↦ (field st, touch key now st m')
      ]

  unfoldable pub get_model_path : String → ℕ → Manager M → Option String × Manager M
  unfolding peek
  get_model_path = peek (λ st. st.path)

  unfoldable pub get_model_if_loaded : String → ℕ → Manager M → Option M × Manager M
  unfolding peek
  get_model_if_loaded = peek (λ st. st.model)

  -- The scratch dict of the session, made if it is not there.
  unfoldable pub get_session_extra : String → ℕ → Manager M → Dict String × Manager M
  unfolding touch
  get_session_extra key now m =
      let m' = evict_if_needed key cfg (sweep_idle cfg now m) in
      let st = session_of key m' in (st.extra, touch key now st m')

  unfoldable pub clear_model : String → Manager M → Manager M
  clear_model key m = drop_session key m

  unfoldable pub clear_all : Manager M → Manager M
  clear_all m = drop_each (Dict.keys m.sessions) m
