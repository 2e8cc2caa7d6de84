-- ===== src/Session/Refinement/Access.antt =====
-- The accessors of mcp_server/model_manager.py as moves of the table.
use openstudio_mcp.Base.{
  ℕ, ◌<◌, String, Bool, true, false, Option, none, some, ◌≡◌, refl, inl, inr, ◌==◌, string_eq, ℕ_eq,
  length, Option-cases, Bool-cases,
}
use openstudio_mcp.Base.Dict
use openstudio_mcp.Base.Dict.{Dict, NodupKeys}
use openstudio_mcp.Session.{
  Config, max_sessions, SessionState, Manager, sweep_idle, evict_if_needed, or_fresh, session_of,
  touch,
}
use openstudio_mcp.Session.Load.{set_model}
use openstudio_mcp.Session.Save.{rebind_loaded, rebind, rebind_path, edit_model}
use openstudio_mcp.Session.Access.{
  pending_in, pending_loaded, pending, is_replaced, pending_files_dir, got_loaded, got,
  get_model_with_generation, peek, get_model_path, get_model_if_loaded, get_session_extra,
}
use mathlib.Core.Option
use openstudio_mcp.Session.Moves.{Move, Moves, here, Moves-one, Moves-trans}
use openstudio_mcp.Session.Invariant.{IsValid, Moves-IsValid}
use openstudio_mcp.Session.Refinement.{sweep_idle-Moves, evict_if_needed-Moves, place, put-Moves}

module _ {M : Type 0} (cfg : Config) where
  pub touch-Moves :
      (key : String) (now : ℕ) (st : SessionState M) (m : Manager M)
      → Dict.lookup key m.sessions ≡ some st
      → Moves cfg key m (touch key now st m)
  unfolding touch
  touch-Moves key now st m there =
      put-Moves cfg key st _ m there (record { generation = refl; unloaded = λ n. n })

  pub set_model-Moves :
      (key : String) (now : ℕ) (model : M) (m : Manager M)
      → IsValid cfg m
      → Moves cfg key m (set_model cfg key now model m).1
  unfolding set_model
  set_model-Moves key now model m v =
      let swept = sweep_idle-Moves cfg now m in
      let m' = sweep_idle cfg now m in
      Moves-trans swept (
        Moves-trans (evict_if_needed-Moves cfg key m') (
          Moves-one
            (Move.install _ model refl (place cfg key m' (Moves-IsValid swept v)) refl refl refl)))

  rebind_loaded-Moves :
      (o : Option M) (st : SessionState M) (key : String) (now : ℕ) (path : String) (g : ℕ)
      (m : Manager M)
      → Dict.lookup key m.sessions ≡ some st
      → Moves cfg key m (rebind_loaded o st key now path g m).1
  unfolding rebind_loaded
  rebind_loaded-Moves none st key now path g m there = here
  rebind_loaded-Moves (some model) st key now path g m there =
      elim (Bool-cases (st.generation == g)) [
        | inl same ↦
            rw same
              (put-Moves cfg key st _ m there (record { generation = refl; unloaded = λ n. n }))
        | inr other ↦ rw other here
      ]

  pub rebind_path-Moves :
      (key : String) (now : ℕ) (path : String) (g : ℕ) (m : Manager M)
      → Moves cfg key m (rebind_path key now path g m).1
  unfolding rebind_path
  rebind_path-Moves key now path g m = elim (Option-cases (Dict.lookup key m.sessions)) [
    | inl absent ↦ rw (absent, rebind) here
    | inr (st, there) ↦ rw (there, rebind) (rebind_loaded-Moves st.model st key now path g m there)
  ]

  map-none : (f : M → M) (o : Option M) → o ≡ none → Option.map f o ≡ none
  map-none f none e = refl
  map-none f (some x) e = absurd (cc)

  pub edit_model-Moves :
      (key : String) (f : M → M) (m : Manager M) → Moves cfg key m (edit_model key f m)
  unfolding edit_model
  edit_model-Moves key f m = elim (Option-cases (Dict.lookup key m.sessions)) [
    | inl absent ↦ rw (absent, edit_model) here
    | inr (st, there) ↦
        rw (there, edit_model)
          (put-Moves cfg key st _ m there
            (record { generation = refl; unloaded = map-none f st.model }))
  ]

  pending_in-Moves :
      (w : Option String) (st : SessionState M) (key : String) (now : ℕ) (root : String)
      (link : Bool) (name : String) (m : Manager M)
      → Dict.lookup key m.sessions ≡ some st
      → Moves cfg key m (pending_in cfg w st key now root link name m).1
  unfolding pending_in
  pending_in-Moves (some ws) st key now root link name m there =
      put-Moves cfg key st _ m there (record { generation = refl; unloaded = λ n. n })
  pending_in-Moves none st key now root true name m there = here
  pending_in-Moves none st key now root false name m there =
      put-Moves cfg key st _ m there (record { generation = refl; unloaded = λ n. n })

  pending_loaded-Moves :
      (o : Option M) (st : SessionState M) (key : String) (now : ℕ) (root : String) (link : Bool)
      (name : String) (expected : Option ℕ) (m : Manager M)
      → Dict.lookup key m.sessions ≡ some st
      → Moves cfg key m (pending_loaded cfg o st key now root link name expected m).1
  unfolding pending_loaded
  pending_loaded-Moves none st key now root link name expected m there = here
  pending_loaded-Moves (some model) st key now root link name expected m there =
      elim (Bool-cases (is_replaced cfg expected st)) [
        | inl gone ↦ rw gone here
        | inr same ↦ rw same (pending_in-Moves st.workspace st key now root link name m there)
      ]

  pub pending_files_dir-Moves :
      (key : String) (now : ℕ) (root : String) (link : Bool) (name : String) (expected : Option ℕ)
      (m : Manager M)
      → Moves cfg key m (pending_files_dir cfg key now root link name expected m).1
  unfolding pending_files_dir
  pending_files_dir-Moves key now root link name expected m =
      let m' = sweep_idle cfg now m in
      Moves-trans (sweep_idle-Moves cfg now m) (elim (Option-cases (Dict.lookup key m'.sessions)) [
        | inl absent ↦ rw (absent, pending) here
        | inr (st, there) ↦
            rw (there, pending)
              (pending_loaded-Moves st.model st key now root link name expected m' there)
      ])

  got_loaded-Moves :
      (o : Option M) (st : SessionState M) (key : String) (now : ℕ) (m : Manager M)
      → Dict.lookup key m.sessions ≡ some st
      → Moves cfg key m (got_loaded cfg o st key now m).1
  unfolding got_loaded
  got_loaded-Moves none st key now m there = here
  got_loaded-Moves (some model) st key now m there = touch-Moves key now st m there

  pub get_model_with_generation-Moves :
      (key : String) (now : ℕ) (m : Manager M)
      → Moves cfg key m (get_model_with_generation cfg key now m).1
  unfolding get_model_with_generation
  get_model_with_generation-Moves key now m =
      let m' = sweep_idle cfg now m in
      Moves-trans (sweep_idle-Moves cfg now m) (elim (Option-cases (Dict.lookup key m'.sessions)) [
        | inl absent ↦ rw (absent, got) here
        | inr (st, there) ↦ rw (there, got) (got_loaded-Moves st.model st key now m' there)
      ])

  peek-Moves :
      {A : Type 0} (field : SessionState M → Option A) (key : String) (now : ℕ) (m : Manager M)
      → Moves cfg key m (peek cfg field key now m).1
  unfolding peek
  peek-Moves field key now m =
      let m' = sweep_idle cfg now m in
      Moves-trans (sweep_idle-Moves cfg now m) (elim (Option-cases (Dict.lookup key m'.sessions)) [
        | inl absent ↦ rw (absent, peek) here
        | inr (st, there) ↦ rw (there, peek) (touch-Moves key now st m' there)
      ])

  pub get_model_path-Moves :
      (key : String) (now : ℕ) (m : Manager M) → Moves cfg key m (get_model_path cfg key now m).1
  unfolding get_model_path
  get_model_path-Moves = peek-Moves (λ st. st.path)

  pub get_model_if_loaded-Moves :
      (key : String) (now : ℕ) (m : Manager M)
      → Moves cfg key m (get_model_if_loaded cfg key now m).1
  unfolding get_model_if_loaded
  get_model_if_loaded-Moves = peek-Moves (λ st. st.model)

  pub get_session_extra-Moves :
      (key : String) (now : ℕ) (m : Manager M)
      → IsValid cfg m
      → Moves cfg key m (get_session_extra cfg key now m).1
  unfolding get_session_extra session_of
  get_session_extra-Moves key now m v =
      let swept = sweep_idle-Moves cfg now m in
      let m' = sweep_idle cfg now m in
      let n = evict_if_needed key cfg m' in
      Moves-trans swept (
        Moves-trans (evict_if_needed-Moves cfg key m')
          (elim (Option-cases (Dict.lookup key n.sessions)) [
            | inr (st, there) ↦ rw (there, or_fresh) (touch-Moves key now st n there)
            | inl absent ↦
                let room : length n.sessions < max_sessions cfg =
                  elim (place cfg key m' (Moves-IsValid swept v)) [
                    | inl there ↦ absurd (there absent)
                    | inr r ↦ r
                  ] in
                rw (absent, or_fresh) (Moves-one (Move.create _ room refl refl refl refl))
          ]))
