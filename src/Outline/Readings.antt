-- ===== src/Outline/Readings.antt =====
-- What `_trace_with_pairing` of mcp_server/skills/geometry/edge_topology.py gives.
use openstudio_mcp.Base.{
  ℕ, suc, ◌+◌, some, List, [], ◌∷◌, ◌++◌, ◌≡◌, inl, inr, sym, ap, ◌∙◌, subst, length, contains,
  get_elem?, ◌==◌, ==_sound, ℕ_eq, arith, Bool-cases, Option-cases,
}
use mathlib.Core.Option.{some_inj}
use openstudio_mcp.Outline.{Edge, Walk, drop_last}
use openstudio_mcp.Outline.Branch.{close_walk, trace_from, trace_with_pairing}
use openstudio_mcp.Outline.Trails.{
  sets_out, Loops, no_loops, one_more, PairsTouch, close_walk-Trail,
}

-- Closed walks that take every edge once.
abbrev pub TakesAll : List Edge → List (List ℕ) → Type 0
TakesAll es loops = (used : List ℕ) × Loops es used loops × (length used ≡ length es)

-- The edges from an index on.
abbrev pub IsFrom : List Edge → ℕ → List Edge → Type 0
IsFrom es i rest = (j : ℕ) → get_elem? rest j ≡ get_elem? es (i + j)

pub IsFrom-head :
    (es rest : List Edge) (i : ℕ) (x : Edge) → IsFrom es i (x ∷ rest) → get_elem? es i ≡ some x
IsFrom-head es rest i x h = subst (λ k. get_elem? es k ≡ some x) (omega arith) (sym (h 0))

pub IsFrom-tail :
    (es rest : List Edge) (i : ℕ) (x : Edge) → IsFrom es i (x ∷ rest) → IsFrom es (suc i) rest
IsFrom-tail es rest i x h j = h (suc j) ∙ ap (get_elem? es) (omega arith)

trace_from-TakesAll :
    (es : List Edge) (branch : ℕ) (pairing : List (ℕ × ℕ)) (i : ℕ) (rest : List Edge)
    (used : List ℕ) (loops out : List (List ℕ))
    → PairsTouch es branch pairing
    → IsFrom es i rest
    → Loops es used loops
    → trace_from es branch pairing i rest used loops ≡ some out
    → TakesAll es out
unfolding trace_from
trace_from-TakesAll es branch pairing i [] used loops out h from so_far found =
    elim (Bool-cases (length used == length es)) [
      | inl y ↦ (
        used,
        subst (Loops es used) (some_inj.0 (rw (y, trace_from) at found)) so_far,
        ==_sound (length used) (length es) y,
      )
      | inr n ↦ absurd (ground (arith, rw (n, trace_from) at found))
    ]
trace_from-TakesAll es branch pairing i ((s, e) ∷ rest) used loops out h from so_far found =
    elim (Bool-cases (contains used i)) [
      | inl y ↦
          trace_from-TakesAll es branch pairing (suc i) rest used loops out h
            (IsFrom-tail es rest i (s, e) from) so_far (rw (y, trace_from) at found)
      | inr n ↦
          let w : Walk = record {
            used = i ∷ used;
            ordered = s ∷ (e ∷ []);
            current = e;
            prev = i;
          } in
          elim (Option-cases (close_walk es branch pairing s (suc (length es)) w)) [
            | inl opened ↦ absurd (ground (arith, rw (n, opened, trace_from) at found))
            | inr (w', closed) ↦
                trace_from-TakesAll es branch pairing (suc i) rest w'.used
                  (loops ++ (drop_last w'.ordered ∷ [])) out h (IsFrom-tail es rest i (s, e) from)
                  (one_more used w'.used w'.ordered loops s so_far (
                    close_walk-Trail es branch pairing s (suc (length es)) used w w' h
                      (sets_out i e (inl (IsFrom-head es rest i (s, e) from)) n) closed))
                  (rw (n, closed, trace_from) at found)
          ]
    ]

pub trace_with_pairing-TakesAll :
    (es : List Edge) (branch : ℕ) (pairing : List (ℕ × ℕ)) (loops : List (List ℕ))
    → PairsTouch es branch pairing
    → trace_with_pairing es branch pairing ≡ some loops
    → TakesAll es loops
unfolding trace_with_pairing
trace_with_pairing-TakesAll es branch pairing loops h found =
    trace_from-TakesAll es branch pairing 0 es [] [] loops h (λ j. ap (get_elem? es) (omega arith))
      no_loops found
