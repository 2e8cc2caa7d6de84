-- ===== src/Session/Reload.antt =====
-- The internal reload of mcp_server/model_manager.py: what it keeps, and when it is refused.
use openstudio_mcp.Base.{
  ℕ, ◌<◌, ◌≡◌, ◌≢◌, String, true, some, refl, inl, inr, ==_refl, string_eq, ℕ_eq, arith,
  Option-cases,
}
use openstudio_mcp.Base.Dict
use openstudio_mcp.Base.Dict.{Dict, lookup-insert}
use openstudio_mcp.Session.{
  Config, SessionState, Manager, sweep_idle, evict_if_needed, session_of, or_fresh,
}
use openstudio_mcp.Session.Load.{
  err, replaced, clean_after, adopted, install, is_stale, reload_model, generation_of,
}
use openstudio_mcp.Session.Invariant.{IsValid, Moves-IsValid}
use openstudio_mcp.Session.Refinement.{sweep_idle-Moves}
use text.Mathlib.TextEquality.{eq_iff}

-- What a reload keeps of a session: the file that it points at, the user's clean entries, the
-- scratch dict and the pending files. The generation is a later one.
pub record IsReloaded {M : Type 0} (st st' : SessionState M) : Type 0 where
  pub path : st'.path ≡ st.path
  pub extra : st'.extra ≡ st.extra
  pub workspace : st'.workspace ≡ st.workspace
  pub later : st.generation < st'.generation
  pub clean : (p d : String) → Dict.lookup p st.clean ≡ some d → Dict.lookup p st'.clean ≡ some d

module _ {M : Type 0} (digest : M → String) (resolve : String → String) (cfg : Config) where
  clean_after-keeps :
      (path : String) (model : M) (clean : Dict String) (p d : String)
      → Dict.lookup p clean ≡ some d
      → Dict.lookup p (clean_after digest resolve cfg true path model clean) ≡ some d
  unfolding clean_after
  clean_after-keeps path model clean p d h =
      elim (Option-cases (Dict.lookup (resolve path) clean)) [
        | inr (x, there) ↦ rw (there, clean_after) h
        | inl absent ↦
            rw (absent, clean_after, lookup-insert) (ground (arith, eq_iff p (resolve path)))
      ]

  lookup-install :
      (key path : String) (now : ℕ) (model : M) (m : Manager M) (st : SessionState M)
      → Dict.lookup key m.sessions ≡ some st
      → Dict.lookup key (install digest resolve cfg key now true path model m).1.sessions
        ≡ some (adopted digest resolve cfg true path model m.next_token now st)
  unfolding install evict_if_needed session_of or_fresh
  lookup-install key path now model m st there =
      rw (lookup-insert, ==_refl key, there, evict_if_needed) (rw (there, or_fresh))

  -- A reload with the generation of a session that survives the sweep adopts the model and keeps
  -- the rest of the session.
  pub reload_model-keeps :
      (key path : String) (now : ℕ) (model : M) (m : Manager M) (st : SessionState M)
      → IsValid cfg m
      → Dict.lookup key (sweep_idle cfg now m).sessions ≡ some st
      → (st' : SessionState M) × (Dict.lookup key
            (reload_model digest resolve cfg key now path (some model) st.generation m).1.sessions
          ≡ some st')
        × (st'.model ≡ some model)
        × IsReloaded st st'
  unfolding reload_model adopted
  reload_model-keeps key path now model m st v there =
      let v' = Moves-IsValid (sweep_idle-Moves cfg {key = key} now m) v in
      (
        adopted digest resolve cfg true path model (sweep_idle cfg now m).next_token now st,
        rw (there, is_stale, ==_refl st.generation)
            (lookup-install key path now model (sweep_idle cfg now m) st there),
        refl,
        record {
          path = refl;
          extra = refl;
          workspace = refl;
          later = v'.drawn key st there;
          clean = clean_after-keeps path model st.clean;
        },
      )

  -- A reload with a generation that is not the session's (0 for one that has gone) is refused, with
  -- both generations, and nothing of any session changes but for the idle sweep.
  pub reload_model-refused :
      (key path : String) (now : ℕ) (model : M) (expected : ℕ) (m : Manager M)
      → generation_of (Dict.lookup key (sweep_idle cfg now m).sessions) ≢ expected
      → reload_model digest resolve cfg key now path (some model) expected m ≡ (
        err (
            replaced
              (some expected)
              (generation_of (Dict.lookup key (sweep_idle cfg now m).sessions))),
        sweep_idle cfg now m,
      )
  unfolding reload_model generation_of
  reload_model-refused key path now model expected m h = ground arith
