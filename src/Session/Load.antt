-- ===== src/Session/Load.antt =====
-- Loads of mcp_server/model_manager.py: `load_model`, `reload_model`, `set_model` and the guard on
-- the generation. `digest` hashes a model's text and `resolve` is `Path.resolve`: neither is code
-- of this repository. What the SDK makes of a file is an argument.
use openstudio_mcp.Base.{
  ℕ, suc, String, Bool, true, false, not, Option, none, some, List, [], ◌++◌, ◌&&◌, ◌==◌, string_eq,
  ℕ_eq, if◌then◌else◌,
}
use openstudio_mcp.Base.Dict
use openstudio_mcp.Base.Dict.{Dict}
use openstudio_mcp.Session.{
  Config, SessionState, Manager, discarded, sweep_idle, evict_if_needed, session_of,
}

-- The exceptions that the operations raise.
pub data Error : Type 0 where
  load_failed no_model no_path write_failed workspace_symlink : Error
  replaced : Option ℕ → ℕ → Error

pub data Result {ℓ} (A : Type ℓ) : Type ℓ where
  ok : A → Result A
  err : Error → Result A

module _ {M : Type 0} where
  -- `model_generation`: it does not sweep.
  unfoldable pub generation_of : Option (SessionState M) → ℕ
  generation_of none = 0
  generation_of (some st) = st.generation

  unfoldable pub model_generation : String → Manager M → ℕ
  unfolding generation_of
  model_generation key m = generation_of (Dict.lookup key m.sessions)

  unfoldable pub ensure_generation_unchanged : String → ℕ → Manager M → Result (Unit {0})
  ensure_generation_unchanged key generation m =
      if model_generation key m == generation
      then ok tt
      else err (replaced (some generation) (model_generation key m))

  -- `current is None or current_generation != expected_generation`
  unfoldable pub is_stale : Option (SessionState M) → Option ℕ → Bool
  is_stale none expected = true
  is_stale (some st) none = true
  is_stale (some st) (some g) = not (st.generation == g)

module _ {M : Type 0} (cfg : Config) where
  unfoldable pub set_model : String → ℕ → M → Manager M → ℕ × Manager M
  set_model key now model m =
      let m' = evict_if_needed key cfg (sweep_idle cfg now m) in
      let st = session_of key m' in
      (
        m'.next_token,
        record m' {
          sessions =
              Dict.insert key
                (record {
                  model = some model;
                  path = none;
                  last_access = now;
                  generation = m'.next_token;
                  extra = st.extra;
                  clean = [];
                  workspace = none;
                })
                m'.sessions;
          next_token = suc m'.next_token;
          removed = m'.removed ++ discarded (some st);
        },
      )

module _ {M : Type 0} (digest : M → String) (resolve : String → String) (cfg : Config) where
  -- The clean paths after a load of `path`.
  unfoldable pub clean_after : Bool → String → M → Dict String → Dict String
  clean_after false path model clean = Dict.insert (resolve path) (digest model) []
  clean_after true path model clean = elim (Dict.lookup (resolve path) clean) [
    | some _ ↦ clean
    | none ↦ Dict.insert (resolve path) (digest model) clean
  ]

  -- The session that a load leaves, with the token that it drew.
  unfoldable pub adopted : Bool → String → M → ℕ → ℕ → SessionState M → SessionState M
  unfolding clean_after
  adopted keep_clean path model token now st = record {
    model = some model;
    path = if keep_clean then st.path else some path;
    last_access = now;
    generation = token;
    extra = st.extra;
    clean = clean_after keep_clean path model st.clean;
    workspace = if keep_clean then st.workspace else none;
  }

  -- The part of `_load_into_session` behind the check of the generation.
  unfoldable pub install : String → ℕ → Bool → String → M → Manager M → Result (M × ℕ) × Manager M
  unfolding adopted
  install key now keep_clean path model m =
      let m' = evict_if_needed key cfg m in
      let st = session_of key m' in
      let gone : List String = if keep_clean then [] else discarded (some st) in
      (
        ok (model, m'.next_token),
        record m' {
          sessions =
              Dict.insert key (adopted keep_clean path model m'.next_token now st) m'.sessions;
          next_token = suc m'.next_token;
          removed = m'.removed ++ gone;
        },
      )

  -- `loaded` is what the SDK made of the file: `none` for a refusal of either kind.
  unfoldable pub load_into_session :
      String → ℕ → String → Option M → Bool → Option ℕ → Manager M → Result (M × ℕ) × Manager M
  unfolding is_stale
  load_into_session key now path none keep_clean expected m = (err load_failed, m)
  load_into_session key now path (some model) keep_clean expected m =
      let m' = sweep_idle cfg now m in
      let current = Dict.lookup key m'.sessions in
      if keep_clean && is_stale current expected
      then (err (replaced expected (generation_of current)), m')
      else install key now keep_clean path model m'

  unfoldable pub load_model :
      String → ℕ → String → Option M → Manager M → Result (M × ℕ) × Manager M
  unfolding load_into_session
  load_model key now path loaded = load_into_session key now path loaded false none

  unfoldable pub reload_model :
      String → ℕ → String → Option M → ℕ → Manager M → Result (M × ℕ) × Manager M
  unfolding load_into_session
  reload_model key now path loaded expected =
      load_into_session key now path loaded true (some expected)
