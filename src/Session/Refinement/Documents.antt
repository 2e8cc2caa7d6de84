-- ===== src/Session/Refinement/Documents.antt =====
-- Loads and saves of mcp_server/model_manager.py as moves of the table, and with them every step.
use openstudio_mcp.Base.{
  ℕ, String, Bool, true, false, Option, none, some, ◌≡◌, refl, inl, inr, ◌&&◌, string_eq, ℕ_eq,
  Option-cases, Bool-cases,
}
use openstudio_mcp.Base.Dict
use openstudio_mcp.Base.Dict.{Dict, NodupKeys}
use openstudio_mcp.Session.{Config, SessionState, Manager, sweep_idle}
use openstudio_mcp.Session.Load.{
  adopted, install, is_stale, load_into_session, load_model, reload_model,
}
use openstudio_mcp.Session.Save.{
  target, save_loaded, save_session, begin_save, publish_save, finish_save, edited_loaded, edited,
  unsaved_edits_for,
}
use openstudio_mcp.Session.Access.{clear_model, clear_all}
use openstudio_mcp.Session.Moves.{Move, Moves, here, Moves-one, Moves-trans}
use openstudio_mcp.Session.Invariant.{IsValid, Moves-IsValid}
use openstudio_mcp.Session.Refinement.{
  sweep_idle-Moves, evict_if_needed-Moves, place, put-Moves, drop_session-Moves, drop_each-Moves,
}
use openstudio_mcp.Session.Refinement.Access.{
  touch-Moves, set_model-Moves, rebind_path-Moves, edit_model-Moves, pending_files_dir-Moves,
  get_model_with_generation-Moves, get_model_path-Moves, get_model_if_loaded-Moves,
  get_session_extra-Moves,
}
use openstudio_mcp.Session.Steps.{
  Op, load, reload, set, rebind as rebind_to, edit, pending as pending_dir, begin, finish, get,
  unsaved, get_path, get_loaded, get_extra, clear, clear_every, step, key_of,
}

module _ {M : Type 0} (digest : M → String) (resolve : String → String) (cfg : Config) where
  install-Moves :
      (key : String) (now : ℕ) (keep_clean : Bool) (path : String) (model : M) (m : Manager M)
      → IsValid cfg m
      → Moves cfg key m (install digest resolve cfg key now keep_clean path model m).1
  unfolding install adopted
  install-Moves key now keep_clean path model m v =
      Moves-trans (evict_if_needed-Moves cfg key m)
        (Moves-one (Move.install _ model refl (place cfg key m v) refl refl refl))

  load_into_session-Moves :
      (key : String) (now : ℕ) (path : String) (loaded : Option M) (keep_clean : Bool)
      (expected : Option ℕ) (m : Manager M)
      → IsValid cfg m
      → Moves cfg key m
          (load_into_session digest resolve cfg key now path loaded keep_clean expected m).1
  unfolding load_into_session
  load_into_session-Moves key now path none keep_clean expected m v = here
  load_into_session-Moves key now path (some model) keep_clean expected m v =
      let swept = sweep_idle-Moves cfg now m in
      let m' = sweep_idle cfg now m in
      elim (Bool-cases (keep_clean && is_stale (Dict.lookup key m'.sessions) expected)) [
        | inl stale ↦ rw stale swept
        | inr current ↦ rw current (
            Moves-trans swept
              (install-Moves key now keep_clean path model m' (Moves-IsValid swept v)))
      ]

  save_loaded-Moves :
      (o : Option M) (p : Option String) (st : SessionState M) (key : String) (now : ℕ)
      (m : Manager M)
      → Dict.lookup key m.sessions ≡ some st
      → Moves cfg key m (save_loaded digest resolve cfg o p st key now m).1
  unfolding save_loaded
  save_loaded-Moves none p st key now m there = here
  save_loaded-Moves (some model) none st key now m there = here
  save_loaded-Moves (some model) (some p) st key now m there = touch-Moves cfg key now st m there

  begin_save-Moves :
      (key : String) (now : ℕ) (path : Option String) (m : Manager M)
      → Moves cfg key m (begin_save digest resolve cfg key now path m).1
  unfolding begin_save
  begin_save-Moves key now path m =
      let m' = sweep_idle cfg now m in
      Moves-trans (sweep_idle-Moves cfg now m) (elim (Option-cases (Dict.lookup key m'.sessions)) [
        | inl absent ↦ rw (absent, save_session) here
        | inr (st, there) ↦
            rw (there, save_session)
              (save_loaded-Moves st.model (target digest resolve cfg path st.path) st key now m'
                there)
      ])

  finish_save-Moves :
      (key p : String) (model : M) (writes : Bool) (m : Manager M)
      → Moves cfg key m (finish_save digest resolve cfg key p model writes m).1
  unfolding finish_save
  finish_save-Moves key p model false m = here
  finish_save-Moves key p model true m =
      Moves.next {n = record m { disk = Dict.insert p model m.disk }} (Move.same refl refl)
        (elim (Option-cases (Dict.lookup key m.sessions)) [
          | inl absent ↦ rw (absent, publish_save) here
          | inr (st, there) ↦
              rw (there, publish_save)
                (put-Moves cfg key st _ (record m { disk = Dict.insert p model m.disk }) there
                  (record { generation = refl; unloaded = λ n. n }))
        ])

  edited_loaded-Moves :
      (o : Option M) (c : Option String) (st : SessionState M) (key : String) (now : ℕ)
      (m : Manager M)
      → Dict.lookup key m.sessions ≡ some st
      → Moves cfg key m (edited_loaded digest resolve cfg o c st key now m).1
  unfolding edited_loaded
  edited_loaded-Moves none c st key now m there = here
  edited_loaded-Moves (some model) none st key now m there = here
  edited_loaded-Moves (some model) (some c) st key now m there = touch-Moves cfg key now st m there

  unsaved_edits_for-Moves :
      (key : String) (now : ℕ) (path : String) (m : Manager M)
      → Moves cfg key m (unsaved_edits_for digest resolve cfg key now path m).1
  unfolding unsaved_edits_for
  unsaved_edits_for-Moves key now path m =
      let m' = sweep_idle cfg now m in
      Moves-trans (sweep_idle-Moves cfg now m) (elim (Option-cases (Dict.lookup key m'.sessions)) [
        | inl absent ↦ rw (absent, edited) here
        | inr (st, there) ↦
            rw (there, edited)
              (edited_loaded-Moves st.model (Dict.lookup (resolve path) st.clean) st key now m'
                there)
      ])

  -- Where the table is well formed, each call is a sequence of abstract moves of the table: it drops
  -- sessions, changes that of its own caller with the generation kept, adds one where there is
  -- room, or gives its caller a model together with the next token.
  pub step-Moves :
      (op : Op M) (m : Manager M)
      → IsValid cfg m
      → Moves cfg (key_of op) m (step digest resolve cfg op m)
  unfolding step load_model reload_model clear_model clear_all
  step-Moves (load key now path loaded) m v =
      load_into_session-Moves key now path loaded false none m v
  step-Moves (reload key now path loaded g) m v =
      load_into_session-Moves key now path loaded true (some g) m v
  step-Moves (set key now model) m v = set_model-Moves cfg key now model m v
  step-Moves (rebind_to key now path g) m v = rebind_path-Moves cfg key now path g m
  step-Moves (edit key f) m v = edit_model-Moves cfg key f m
  step-Moves (pending_dir key now root link name g) m v =
      pending_files_dir-Moves cfg key now root link name g m
  step-Moves (begin key now path) m v = begin_save-Moves key now path m
  step-Moves (finish key path model writes) m v = finish_save-Moves key path model writes m
  step-Moves (get key now) m v = get_model_with_generation-Moves cfg key now m
  step-Moves (unsaved key now path) m v = unsaved_edits_for-Moves key now path m
  step-Moves (get_path key now) m v = get_model_path-Moves cfg key now m
  step-Moves (get_loaded key now) m v = get_model_if_loaded-Moves cfg key now m
  step-Moves (get_extra key now) m v = get_session_extra-Moves cfg key now m v
  step-Moves (clear key) m v = drop_session-Moves cfg key m
  step-Moves clear_every m v = drop_each-Moves cfg (Dict.keys m.sessions) m
