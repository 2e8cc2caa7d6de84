-- ===== src/Session/Steps.antt =====
-- Every operation of the manager as a step, so that a run of the server is a list of steps.
use openstudio_mcp.Base.{ℕ, String, Bool, Option, List, [], ◌∷◌}
use openstudio_mcp.Session.{Config, Manager}
use openstudio_mcp.Session.Load.{load_model, reload_model, set_model}
use openstudio_mcp.Session.Save.{
  rebind_path, edit_model, begin_save, finish_save, unsaved_edits_for,
}
use openstudio_mcp.Session.Access.{
  pending_files_dir, get_model_with_generation, get_model_path, get_model_if_loaded,
  get_session_extra, clear_model, clear_all,
}

-- One call with its key, its clock and the answers of the SDK and the file system.
pub data Op (M : Type 0) : Type 0 where
  load : String → ℕ → String → Option M → Op M
  reload : String → ℕ → String → Option M → ℕ → Op M
  set : String → ℕ → M → Op M
  rebind : String → ℕ → String → ℕ → Op M
  edit : String → (M → M) → Op M
  pending : String → ℕ → String → Bool → String → Option ℕ → Op M
  begin : String → ℕ → Option String → Op M
  finish : String → String → M → Bool → Op M
  get : String → ℕ → Op M
  unsaved : String → ℕ → String → Op M
  get_path : String → ℕ → Op M
  get_loaded : String → ℕ → Op M
  get_extra : String → ℕ → Op M
  clear : String → Op M
  clear_every : Op M

module _ {M : Type 0} where
  -- The session that a call is about. (Clearing every session is about none of them.)
  abbrev pub key_of : Op M → String
  key_of (load key _ _ _) = key
  key_of (reload key _ _ _ _) = key
  key_of (set key _ _) = key
  key_of (rebind key _ _ _) = key
  key_of (edit key _) = key
  key_of (pending key _ _ _ _ _) = key
  key_of (begin key _ _) = key
  key_of (finish key _ _ _) = key
  key_of (get key _) = key
  key_of (unsaved key _ _) = key
  key_of (get_path key _) = key
  key_of (get_loaded key _) = key
  key_of (get_extra key _) = key
  key_of (clear key) = key
  key_of clear_every = ""

module _ {M : Type 0} (digest : M → String) (resolve : String → String) (cfg : Config) where
  unfoldable pub step : Op M → Manager M → Manager M
  step (load key now path loaded) m = (load_model digest resolve cfg key now path loaded m).1
  step (reload key now path loaded expected) m =
      (reload_model digest resolve cfg key now path loaded expected m).1
  step (set key now model) m = (set_model cfg key now model m).1
  step (rebind key now path generation) m = (rebind_path key now path generation m).1
  step (edit key f) m = edit_model key f m
  step (pending key now root link name expected) m =
      (pending_files_dir cfg key now root link name expected m).1
  step (begin key now path) m = (begin_save digest resolve cfg key now path m).1
  step (finish key path model writes) m = (finish_save digest resolve cfg key path model writes m).1
  step (get key now) m = (get_model_with_generation cfg key now m).1
  step (unsaved key now path) m = (unsaved_edits_for digest resolve cfg key now path m).1
  step (get_path key now) m = (get_model_path cfg key now m).1
  step (get_loaded key now) m = (get_model_if_loaded cfg key now m).1
  step (get_extra key now) m = (get_session_extra cfg key now m).1
  step (clear key) m = clear_model cfg key m
  step clear_every m = clear_all cfg m

  unfoldable pub run : List (Op M) → Manager M → Manager M
  unfolding step
  run [] m = m
  run (op ∷ ops) m = run ops (step op m)
