-- ===== src/Outline/Tests.antt =====
-- Outlines on small edge lists, and the theorem at one of them.
use openstudio_mcp.Base.{Bool, ◌≤◌, ℕ, leb, length, List, [], ◌∷◌, ◌≡◌, refl}
use openstudio_mcp.Outline.Resolve.{Resolved, resolve_component, resolved, skipped, branch_points}
use openstudio_mcp.Outline.Good.{IsGood}
use openstudio_mcp.Outline.Sound.{resolve_component-IsGood}
use openstudio_mcp.Outline.{Edge, loop_of, no_loop, trace_simple_loop}
use openstudio_mcp.Outline.Ends.{Outcome, start_of, trace_simple_loop-Outcome}

-- A triangle whose edges point in different ways.
abbrev triangle : List Edge
triangle = (1, 2) ∷ ((1, 3) ∷ ((3, 2) ∷ []))

-- Two triangles that share no point.
abbrev two_triangles : List Edge
two_triangles = (1, 2) ∷ ((2, 3) ∷ ((3, 1) ∷ ((4, 5) ∷ ((5, 6) ∷ ((6, 4) ∷ [])))))

-- Two triangles that share a point.
abbrev pinched : List Edge
pinched = (1, 2) ∷ ((2, 3) ∷ ((3, 1) ∷ ((1, 5) ∷ ((5, 6) ∷ ((6, 1) ∷ [])))))

triangle_traced : trace_simple_loop triangle ≡ loop_of (1 ∷ (2 ∷ (3 ∷ [])))
unfolding trace_simple_loop
triangle_traced = refl

two_not_traced : trace_simple_loop two_triangles ≡ no_loop
unfolding trace_simple_loop
two_not_traced = refl

pinched_not_traced : trace_simple_loop pinched ≡ no_loop
unfolding trace_simple_loop
pinched_not_traced = refl

open_not_traced : trace_simple_loop ((1, 2) ∷ ((2, 3) ∷ [])) ≡ no_loop
unfolding trace_simple_loop
open_not_traced = refl

doubled_traced : trace_simple_loop ((1, 2) ∷ ((2, 1) ∷ [])) ≡ loop_of (1 ∷ (2 ∷ []))
unfolding trace_simple_loop
doubled_traced = refl

trace_simple_loop-Outcome_example :
    Outcome triangle (start_of triangle) (trace_simple_loop triangle)
trace_simple_loop-Outcome_example = trace_simple_loop-Outcome triangle

abbrev is_triangle : List ℕ → Bool
is_triangle ps = leb (length ps) 3

-- Two readings of the pinched outline are looked at.
abbrev pinched_answer : Resolved
pinched_answer = resolve_component is_triangle pinched

pinched_resolved : pinched_answer ≡ resolved ((1 ∷ (2 ∷ (3 ∷ []))) ∷ ((1 ∷ (5 ∷ (6 ∷ []))) ∷ [])) 2
unfolding resolve_component
pinched_resolved = refl

-- Two points at which four edges meet.
two_branches_skipped :
    resolve_component is_triangle
      ((1, 2) ∷ ((1, 2) ∷ ((1, 3) ∷ ((1, 3) ∷ ((2, 4) ∷ ((2, 4) ∷ []))))))
    ≡ skipped (branch_points 2) 0
unfolding resolve_component
two_branches_skipped = refl

resolve_component-IsGood_example :
    IsGood (λ p. p ≤ 6) is_triangle pinched (resolve_component is_triangle pinched)
resolve_component-IsGood_example = resolve_component-IsGood (λ p. p ≤ 6) is_triangle pinched
