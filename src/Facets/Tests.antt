-- ===== src/Facets/Tests.antt =====
-- The cuts of a few outlines, and the theorem there. Points are numbers, and some lie in a plane if there
-- are three of them, or they are on one side of ten.
use openstudio_mcp.Base.{
  ℕ, Bool, true, List, [], ◌∷◌, ◌≡◌, ◌<◌, refl, length, leb, ◌==◌, ◌||◌, ◌&&◌, ℕ_eq,
}
use openstudio_mcp.Facets.{cut, uncut, exceeded, facets_for_loops}
use openstudio_mcp.Facets.Planar.{Sound, facets_for_loops-Sound}

below : List ℕ → Bool
below [] = true
below (p ∷ ps) = let rest = below ps in leb p 10 && rest

above : List ℕ → Bool
above [] = true
above (p ∷ ps) = let rest = above ps in leb 10 p && rest

is_planar : List ℕ → Bool
unfolding below above facets_for_loops
is_planar ps = leb 3 (length ps) && (length ps == 3 || below ps || above ps)

-- Two walls that meet at an edge of two points.
corner : List (List ℕ)
corner = (1 ∷ 2 ∷ 10 ∷ 11 ∷ 12 ∷ 10 ∷ []) ∷ []

two_walls :
    facets_for_loops is_planar corner 5000
    ≡ (cut ((10 ∷ 11 ∷ 12 ∷ 10 ∷ []) ∷ (10 ∷ 1 ∷ 2 ∷ 10 ∷ []) ∷ []), 4995)
unfolding is_planar corner
two_walls = refl

no_budget : facets_for_loops is_planar corner 0 ≡ (exceeded, 0)
unfolding is_planar corner
no_budget = refl

line : facets_for_loops is_planar ((1 ∷ 2 ∷ []) ∷ []) 5 ≡ (uncut, 5)
unfolding is_planar
line = refl

facets_for_loops-Sound_example :
    Sound (λ p. p < 20) is_planar corner 5000 (facets_for_loops is_planar corner 5000)
facets_for_loops-Sound_example = facets_for_loops-Sound (λ p. p < 20) is_planar corner 5000
