-- ===== src/Session/Generations.antt =====
-- The invariant over any run of mcp_server/model_manager.py, and the guard on generations.
use openstudio_mcp.Base.{
  ℕ, ◌<◌, String, List, [], ◌∷◌, ◌≡◌, ◌≢◌, ◌==◌, string_eq, ℕ_eq, arith, inl, inr, Bool-cases,
}
use openstudio_mcp.Base.Dict
use openstudio_mcp.Base.Dict.{Dict, lookup-insert, lookup-erase}
use openstudio_mcp.Session.{Config, Manager}
use openstudio_mcp.Session.Load.{ok, generation_of, model_generation, ensure_generation_unchanged}
use openstudio_mcp.Session.Moves.{Move, same, drop, update, create, install, Moves, here, next}
use openstudio_mcp.Session.Invariant.{IsValid, Moves-IsValid}
use openstudio_mcp.Session.Steps.{Op, step, run}
use openstudio_mcp.Session.Refinement.Documents.{step-Moves}
use text.Mathlib.TextEquality.{eq_iff}

-- The session of `k` is not at generation `g`, and `g` will not be drawn again.
record IsPast {M : Type 0} (k : String) (g : ℕ) (m : Manager M) : Type 0 where
  old : g < m.next_token
  other : generation_of (Dict.lookup k m.sessions) ≢ g

module _ {M : Type 0} {cfg : Config} where
  Move-IsPast :
      {key : String} {m m' : Manager M} (k : String) (g : ℕ)
      → 0 < g
      → Move cfg key m m'
      → IsPast k g m
      → IsPast k g m'
  unfolding generation_of
  Move-IsPast k g pos (same e t) p = record { old = rw t p.old; other = rw e p.other }
  Move-IsPast {m = m} k g pos (drop j e t) p = record {
    old = rw t p.old;
    other = rw (e, lookup-erase) (ground (arith, p.other));
  }
  Move-IsPast {key = key} {m = m} k g pos (update st st' there u e t) p = record {
    old = rw t p.old;
    other = rw (e, lookup-insert) (ground (arith, p.other, there, u.generation, eq_iff k key));
  }
  Move-IsPast {m = m} k g pos (create st' room z n e t) p = record {
    old = rw t p.old;
    other = rw (e, lookup-insert) (ground (arith, p.other));
  }
  Move-IsPast {m = m} k g pos (install st' model has room d e t) p = record {
    old = rw t (omega (arith, p.old));
    other = rw (e, lookup-insert) (ground (arith, p.other, p.old));
  }

  Moves-IsPast :
      {key : String} {m m' : Manager M} (k : String) (g : ℕ)
      → 0 < g
      → Moves cfg key m m'
      → IsPast k g m
      → IsPast k g m'
  Moves-IsPast k g pos here p = p
  Moves-IsPast k g pos (next mv r) p = Moves-IsPast k g pos r (Move-IsPast k g pos mv p)

module _ {M : Type 0} (digest : M → String) (resolve : String → String) (cfg : Config) where
  -- The invariant holds after any sequence of calls from any sessions.
  pub run-IsValid :
      (ops : List (Op M)) (m : Manager M)
      → IsValid cfg m
      → IsValid cfg (run digest resolve cfg ops m)
  unfolding run
  run-IsValid [] m v = v
  run-IsValid (op ∷ ops) m v =
      run-IsValid ops (step digest resolve cfg op m)
        (Moves-IsValid (step-Moves digest resolve cfg op m v) v)

  run-IsPast :
      (k : String) (g : ℕ) (ops : List (Op M)) (m : Manager M)
      → 0 < g
      → IsValid cfg m
      → IsPast k g m
      → IsPast k g (run digest resolve cfg ops m)
  unfolding run
  run-IsPast k g [] m pos v p = p
  run-IsPast k g (op ∷ ops) m pos v p =
      let moved = step-Moves digest resolve cfg op m v in
      run-IsPast k g ops (step digest resolve cfg op m) pos (Moves-IsValid moved v)
        (Moves-IsPast k g pos moved p)

  -- Where the guard passes after further calls, it passed before them: a token that was drawn
  -- comes back to no session, so the model was not replaced and put back in between.
  pub ensure_generation_unchanged-run :
      (k : String) (g : ℕ) (ops : List (Op M)) (m : Manager M)
      → IsValid cfg m
      → 0 < g
      → g < m.next_token
      → ensure_generation_unchanged k g (run digest resolve cfg ops m) ≡ ok tt
      → model_generation k m ≡ g
  unfolding ensure_generation_unchanged model_generation
  ensure_generation_unchanged-run k g ops m v pos drawn passed =
      elim (Bool-cases (model_generation k m == g)) [
        | inl e ↦ ground arith
        | inr ne ↦
            let past = run-IsPast k g ops m pos v (record { old = drawn; other = ground arith }) in
            absurd (ground (arith, past.other))
      ]
