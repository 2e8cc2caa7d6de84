-- ===== src/Session/Tests.antt =====
-- Runs of the session manager at concrete calls, and its theorems there. A model is its text, the
-- digest of a text is the text, and paths are resolved already.
use openstudio_mcp.Base.{
  ℕ, ◌<◌, ◌≡◌, ◌≢◌, String, none, some, List, [], ◌∷◌, refl, string_eq, ℕ_eq, arith,
}
use openstudio_mcp.Base.Dict
use openstudio_mcp.Session.{
  Config, SessionState, Manager, init, sweep_idle, evict_if_needed, session_of,
}
use openstudio_mcp.Session.Load.{
  ok, install, model_generation, ensure_generation_unchanged, load_model,
}
use openstudio_mcp.Session.Invariant.{IsValid, init-IsValid}
use openstudio_mcp.Session.Moves.{Moves}
use openstudio_mcp.Session.Refinement.Documents.{step-Moves}
use openstudio_mcp.Session.Generations.{run-IsValid, ensure_generation_unchanged-run}
use openstudio_mcp.Session.Isolation.{IsLeft, step-IsLeft, load_model-evicts_none}
use openstudio_mcp.Session.Steps.{Op, load, edit, step, run}
use text.Mathlib.TextEquality.{eq_iff}

abbrev same : String → String
same s = s

-- Two sessions at most, dropped after 100 ticks of idleness.
abbrev small : Config
small = record { raw_max_sessions = 2; ttl = 100 }

abbrev calls : List (Op String)
calls = load "a" 10 "a.osm" (some "A") ∷ load "b" 20 "b.osm" (some "B") ∷ []

-- To unfold this is to unfold what the calls of the tests compute with.
state : Manager String
unfolding run load_model install sweep_idle evict_if_needed session_of Dict.insert Dict.lookup
    Dict.erase
state = run same same small calls init

abbrev session : String → String → ℕ → ℕ → SessionState String
session path model now generation = record {
  model = some model;
  path = some path;
  last_access = now;
  generation = generation;
  extra = [];
  clean = (path, model) ∷ [];
  workspace = none;
}

two_loaded : state.sessions ≡ ("a", session "a.osm" "A" 10 1) ∷ ("b", session "b.osm" "B" 20 2) ∷ []
unfolding state
two_loaded = refl

-- A third load takes the place of the session that was used first.
third_load :
    (load_model same same small "c" 30 "c.osm" (some "C") state).1.sessions
    ≡ ("b", session "b.osm" "B" 20 2) ∷ ("c", session "c.osm" "C" 30 3) ∷ []
unfolding state
third_load = refl

state-IsValid : IsValid small state
unfolding state
state-IsValid = run-IsValid same same small calls init init-IsValid

step-Moves_example :
    Moves small "c" state (step same same small (load "c" 30 "c.osm" (some "C")) state)
step-Moves_example = step-Moves same same small (load "c" 30 "c.osm" (some "C")) state state-IsValid

run-IsValid_example : IsValid small (run same same small calls init)
run-IsValid_example = run-IsValid same same small calls init init-IsValid

a_there : Dict.lookup "a" state.sessions ≡ some (session "a.osm" "A" 10 1)
unfolding state
a_there = refl

a_live : Dict.lookup "a" (sweep_idle small 30 state).sessions ≡ some (session "a.osm" "A" 10 1)
unfolding state
a_live = refl

ensure_generation_unchanged-run_example : model_generation "b" state ≡ 2
ensure_generation_unchanged-run_example =
    ensure_generation_unchanged-run same same small "b" 2 (load "c" 30 "c.osm" (some "C") ∷ [])
      state state-IsValid (omega arith) drawn passed
  where
    drawn : 2 < state.next_token
    drawn = unfold state in (omega arith)

    passed :
        ensure_generation_unchanged "b" 2
          (run same same small (load "c" 30 "c.osm" (some "C") ∷ []) state)
        ≡ ok tt
    passed = unfold state ensure_generation_unchanged model_generation in refl

a_not_b : ◌≢◌ {A = String} "a" "b"
a_not_b = ground (arith, eq_iff "a" "b")

step-IsLeft_example : IsLeft "a" state (step same same small (edit "b" (λ x. "new")) state)
step-IsLeft_example =
    step-IsLeft same same small (edit "b" (λ x. "new")) state "a" state-IsValid a_not_b

load_model-evicts_none_example :
    Dict.lookup "b" (load_model same same small "a" 30 "d.osm" (some "D") state).1.sessions
    ≡ Dict.lookup "b" (sweep_idle small 30 state).sessions
load_model-evicts_none_example =
    load_model-evicts_none same same small "a" "b" "d.osm" 30 "D" state (session "a.osm" "A" 10 1)
      a_live (λ e. a_not_b (ground (arith, e)))
