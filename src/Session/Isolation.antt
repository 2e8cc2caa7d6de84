-- ===== src/Session/Isolation.antt =====
-- What a call of mcp_server/model_manager.py does to the sessions of other keys.
use openstudio_mcp.Base.{ℕ, String, none, some, ◌≡◌, ◌≢◌, ◌⊎◌, inr, refl, string_eq, arith}
use openstudio_mcp.Base.Dict
use openstudio_mcp.Base.Dict.{Dict, lookup-insert, lookup-erase}
use openstudio_mcp.Session.{Config, SessionState, Manager, sweep_idle, evict_if_needed}
use openstudio_mcp.Session.Load.{install, load_model}
use openstudio_mcp.Session.Moves.{
  Move, same, drop, update, create, install as installs, Moves, here, next,
}
use openstudio_mcp.Session.Invariant.{IsValid}
use openstudio_mcp.Session.Steps.{Op, step, key_of}
use openstudio_mcp.Session.Refinement.Documents.{step-Moves}
use text.Mathlib.TextEquality.{eq_iff}

-- The session of `j` is as it was, or gone.
abbrev pub IsLeft : {M : Type 0} → String → Manager M → Manager M → Type 0
IsLeft j m m' =
    (Dict.lookup j m'.sessions ≡ none) ⊎ (Dict.lookup j m'.sessions ≡ Dict.lookup j m.sessions)

IsLeft-trans :
    {M : Type 0} (m n p : Manager M) (j : String) → IsLeft j m n → IsLeft j n p → IsLeft j m p
IsLeft-trans m n p j a b = ground arith

module _ {M : Type 0} {cfg : Config} where
  Move-IsLeft :
      {key : String} {m m' : Manager M} (j : String) → j ≢ key → Move cfg key m m' → IsLeft j m m'
  Move-IsLeft {m = m} j ne (same e t) = rw e (inr refl)
  Move-IsLeft {m = m} j ne (drop k e t) = rw (e, lookup-erase) (ground arith)
  Move-IsLeft {key = key} {m = m} j ne (update st st' there u e t) =
      rw (e, lookup-insert) (ground (arith, eq_iff j key))
  Move-IsLeft {key = key} {m = m} j ne (create st' room z n e t) =
      rw (e, lookup-insert) (ground (arith, eq_iff j key))
  Move-IsLeft {key = key} {m = m} j ne (installs st' model has room d e t) =
      rw (e, lookup-insert) (ground (arith, eq_iff j key))

  Moves-IsLeft :
      {key : String} {m m' : Manager M} (j : String) → j ≢ key → Moves cfg key m m' → IsLeft j m m'
  Moves-IsLeft j ne here = inr refl
  Moves-IsLeft {m = m} {m' = p} j ne (next {n = n} mv r) =
      IsLeft-trans m n p j (Move-IsLeft j ne mv) (Moves-IsLeft j ne r)

module _ {M : Type 0} (digest : M → String) (resolve : String → String) (cfg : Config) where
  -- A call of one session never changes another: it leaves it alone or takes it out whole.
  pub step-IsLeft :
      (op : Op M) (m : Manager M) (j : String)
      → IsValid cfg m
      → j ≢ key_of op
      → IsLeft j m (step digest resolve cfg op m)
  step-IsLeft op m j v ne = Moves-IsLeft j ne (step-Moves digest resolve cfg op m v)

  -- A load into a session that survives the sweep takes out no other session: after it every other
  -- key has what the idle sweep alone leaves, however full the table is.
  pub load_model-evicts_none :
      (key j path : String) (now : ℕ) (model : M) (m : Manager M) (st : SessionState M)
      → Dict.lookup key (sweep_idle cfg now m).sessions ≡ some st
      → j ≢ key
      → Dict.lookup j (load_model digest resolve cfg key now path (some model) m).1.sessions
        ≡ Dict.lookup j (sweep_idle cfg now m).sessions
  unfolding load_model install evict_if_needed
  load_model-evicts_none key j path now model m st there ne =
      rw (lookup-insert, there, evict_if_needed) (ground (arith, eq_iff j key))
