-- ===== src/Session/Save.antt =====
-- Saves of mcp_server/model_manager.py: `rebind_path`, `save_model` in its two locked parts, and
-- `unsaved_edits_for`. `digest` and `resolve` are as in Session/Load.antt.
use openstudio_mcp.Base.{
  ℕ, String, Bool, true, false, not, Option, none, some, ◌==◌, string_eq, ℕ_eq, if◌then◌else◌,
}
use openstudio_mcp.Base.Dict
use openstudio_mcp.Base.Dict.{Dict}
use openstudio_mcp.Session.{Config, SessionState, Manager, sweep_idle, put_session, touch}
use mathlib.Core.Option
use openstudio_mcp.Session.Load.{Result, ok, err, no_model, no_path, write_failed}

module _ {M : Type 0} where
  unfoldable pub rebind_loaded :
      Option M → SessionState M → String → ℕ → String → ℕ → Manager M → Bool × Manager M
  rebind_loaded none st key now path generation m = (false, m)
  rebind_loaded (some model) st key now path generation m =
      if st.generation == generation
      then (true, put_session key (record st { path = some path; last_access = now }) m)
      else (false, m)

  unfoldable pub rebind :
      Option (SessionState M) → String → ℕ → String → ℕ → Manager M → Bool × Manager M
  unfolding rebind_loaded
  rebind none key now path generation m = (false, m)
  rebind (some st) key now path generation m = rebind_loaded st.model st key now path generation m

  unfoldable pub rebind_path : String → ℕ → String → ℕ → Manager M → Bool × Manager M
  unfolding rebind
  rebind_path key now path generation m =
      rebind (Dict.lookup key m.sessions) key now path generation m

  -- What a tool does with the session's model between two operations: it edits it in place.
  unfoldable pub edit_model : String → (M → M) → Manager M → Manager M
  edit_model key f m = elim (Dict.lookup key m.sessions) [
    | none ↦ m
    | some st ↦ put_session key (record st { model = Option.map f st.model }) m
  ]

module _ {M : Type 0} (digest : M → String) (resolve : String → String) (cfg : Config) where
  -- `save_path or st.path`
  unfoldable pub target : Option String → Option String → Option String
  target (some p) current = some p
  target none current = current

  unfoldable pub save_loaded :
      Option M
      → Option String
      → SessionState M
      → String
      → ℕ
      → Manager M
      → Result (String × M) × Manager M
  unfolding touch
  save_loaded none to st key now m = (err no_model, m)
  save_loaded (some model) none st key now m = (err no_path, m)
  save_loaded (some model) (some p) st key now m = (ok (p, model), touch key now st m)

  unfoldable pub save_session :
      Option (SessionState M)
      → String
      → ℕ
      → Option String
      → Manager M
      → Result (String × M) × Manager M
  unfolding save_loaded target
  save_session none key now save_path m = (err no_model, m)
  save_session (some st) key now save_path m =
      save_loaded st.model (target save_path st.path) st key now m

  -- `save_model` up to the release of the manager's lock: the path and the model to write.
  unfoldable pub begin_save :
      String → ℕ → Option String → Manager M → Result (String × M) × Manager M
  unfolding save_session
  begin_save key now save_path m =
      let m' = sweep_idle cfg now m in
      save_session (Dict.lookup key m'.sessions) key now save_path m'

  -- The session that is there by then gets the digest of what the file now holds.
  unfoldable pub publish_save :
      Option (SessionState M) → String → String → M → Manager M → Manager M
  publish_save none key p model m = m
  publish_save (some st) key p model m =
      put_session key (record st { clean = Dict.insert (resolve p) (digest model) st.clean }) m

  -- The rest of `save_model`: calls of other sessions, and of the same one, may come between.
  unfoldable pub finish_save : String → String → M → Bool → Manager M → Result String × Manager M
  unfolding publish_save
  finish_save key p model writes m =
      if writes
      then (
        ok p,
        publish_save (Dict.lookup key m.sessions) key p model
            (record m { disk = Dict.insert p model m.disk }),
      )
      else (err write_failed, m)

  unfoldable pub save_rest :
      Result (String × M) → String → Bool → Manager M → Result String × Manager M
  unfolding finish_save
  save_rest (err e) key writes m = (err e, m)
  save_rest (ok (p, model)) key writes m = finish_save key p model writes m

  -- The whole call, when nothing comes between.
  unfoldable pub save_model :
      String → ℕ → Option String → Bool → Manager M → Result String × Manager M
  unfolding begin_save save_rest
  save_model key now save_path writes m =
      let (r, m') = begin_save key now save_path m in save_rest r key writes m'

  unfoldable pub edited_loaded :
      Option M → Option String → SessionState M → String → ℕ → Manager M → Bool × Manager M
  unfolding touch
  edited_loaded none clean st key now m = (false, m)
  edited_loaded (some model) none st key now m = (false, m)
  edited_loaded (some model) (some clean) st key now m =
      (not (digest model == clean), touch key now st m)

  unfoldable pub edited :
      Option (SessionState M) → String → ℕ → String → Manager M → Bool × Manager M
  unfolding edited_loaded
  edited none key now path m = (false, m)
  edited (some st) key now path m =
      edited_loaded st.model (Dict.lookup (resolve path) st.clean) st key now m

  unfoldable pub unsaved_edits_for : String → ℕ → String → Manager M → Bool × Manager M
  unfolding edited
  unsaved_edits_for key now path m =
      let m' = sweep_idle cfg now m in edited (Dict.lookup key m'.sessions) key now path m'
