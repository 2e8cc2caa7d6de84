-- ===== src/Session/Clean.antt =====
-- The warning of mcp_server/model_manager.py that a file is behind the session's model.
use openstudio_mcp.Base.{
  ℕ, ◌≡◌, String, true, not, some, refl, ◌==◌, ==_refl, string_eq, ℕ_eq, arith,
}
use openstudio_mcp.Base.Dict
use openstudio_mcp.Base.Dict.{Dict, lookup-insert, insert-NodupKeys}
use openstudio_mcp.Session.{Config, SessionState, Manager, sweep_idle, put_session}
use openstudio_mcp.Session.Save.{
  publish_save, finish_save, edited, edited_loaded, unsaved_edits_for,
}
use openstudio_mcp.Session.Eviction.{lookup-sweep_idle}
use openstudio_mcp.Session.Invariant.{IsValid}

module _ {M : Type 0} (digest : M → String) (resolve : String → String) (cfg : Config) where
  -- The session behind a save that went through.
  saved : String → M → SessionState M → SessionState M
  saved p model st = record st { clean = Dict.insert (resolve p) (digest model) st.clean }

  lookup-finish_save :
      (key p : String) (model : M) (m : Manager M) (st : SessionState M)
      → Dict.lookup key m.sessions ≡ some st
      → (finish_save digest resolve cfg key p model true m).1.sessions
        ≡ Dict.insert key (saved p model st) m.sessions
  unfolding finish_save put_session saved
  lookup-finish_save key p model m st there = rw (there, publish_save)

  lookup-swept :
      (now : ℕ) (key : String) (m n : Manager M) (st st' : SessionState M)
      → IsValid cfg m
      → Dict.lookup key m.sessions ≡ some st
      → st'.last_access ≡ st.last_access
      → n.sessions ≡ Dict.insert key st' m.sessions
      → Dict.lookup key (sweep_idle cfg now m).sessions ≡ some st
      → Dict.lookup key (sweep_idle cfg now n).sessions ≡ some st'
  lookup-swept now key m n st st' v there access e live =
      let u = insert-NodupKeys key st' m.sessions v.nodup in
      rw (lookup-sweep_idle cfg now key n (rw e u), e, lookup-insert, ==_refl key)
        (ground (arith, lookup-sweep_idle cfg now key m v.nodup))

  -- After a save of `model` went through, the check of the saved path by a session that is still
  -- live warns exactly when the digest of the session's model `current` is not that of `model`.
  pub unsaved_edits_for-finish_save :
      (key p : String) (now : ℕ) (model current : M) (m : Manager M) (st : SessionState M)
      → IsValid cfg m
      → Dict.lookup key m.sessions ≡ some st
      → st.model ≡ some current
      → Dict.lookup key (sweep_idle cfg now m).sessions ≡ some st
      → (unsaved_edits_for digest resolve cfg key now p
          (finish_save digest resolve cfg key p model true m).1).0
        ≡ not (digest current == digest model)
  unfolding unsaved_edits_for saved
  unsaved_edits_for-finish_save key p now model current m st v there holds live =
      let n = (finish_save digest resolve cfg key p model true m).1 in
      let e = lookup-finish_save key p model m st there in
      rw (lookup-swept now key m n st (saved p model st) v there refl e live, edited)
        (rw (holds, lookup-insert, ==_refl (resolve p), edited_loaded))
