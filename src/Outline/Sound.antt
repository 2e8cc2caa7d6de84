-- ===== src/Outline/Sound.antt =====
-- What `resolve_component` of mcp_server/skills/geometry/edge_topology.py answers.
use openstudio_mcp.Base.{
  ℕ, ◌+◌, ◌%◌, ◌≤◌, Bool, List, [], ◌∷◌, inl, inr, refl, length, ltb, leb, ◌==◌, ℕ_eq, arith,
  Bool-cases, All,
}
use openstudio_mcp.Facets.{Split, cut, uncut, exceeded, facets_for_loops, max_candidates}
use openstudio_mcp.Facets.Planar.{Sound, facets_for_loops-Sound}
use openstudio_mcp.Outline.{Edge, Traced, degree, drop_last, trace_simple_loop}
use openstudio_mcp.Outline.Ends.{Outcome, start_of, trace_simple_loop-Outcome}
use openstudio_mcp.Outline.Branch.{all_pairings, trace_with_pairing}
use openstudio_mcp.Outline.Trails.{Track-Trail, no_loops, one_more, PairsTouch, Touches}
use openstudio_mcp.Outline.Readings.{TakesAll, trace_with_pairing-TakesAll}
use openstudio_mcp.Outline.Matchings.{pairings_count-le, length-all_pairings, all_pairings-kept}
use openstudio_mcp.Outline.Incident.{incident-Touches, length-incident}
use openstudio_mcp.Outline.Resolve.{
  Search, counted, try_pairings, fresh_search, try_branch_at, only_branch, branches,
  try_branch_decomposition, simple_facets, simple_outline, has_branch, resolve_component, incident,
  max_pairings, max_branch_degree,
}
use openstudio_mcp.Outline.Good.{
  IsReading-cut, IsGood, FirstIsGood, NextIsGood, after_all-IsGood, evaluate-IsGood,
}

module _ (Q : ℕ → Type 0) (is_planar : List ℕ → Bool) where
  try_pairings-IsGood :
      (es : List Edge) (branch d : ℕ) (ps : List (List (ℕ × ℕ))) (st : Search)
      → All (PairsTouch es branch) ps
      → FirstIsGood Q is_planar es st.first_facets st.valid_count
      → st.evaluated + length ps ≤ max_pairings
      → IsGood Q is_planar es (try_pairings is_planar es branch d ps st)
  unfolding try_pairings counted NextIsGood
  try_pairings-IsGood es branch d [] st touch h le =
      after_all-IsGood Q is_planar es d st.first_facets st.valid_count st.evaluated st.budget h
  try_pairings-IsGood es branch d (p ∷ ps) st (touch, rest) h le =
      elim (Bool-cases (leb max_pairings st.evaluated)) [
        | inl full ↦ absurd (ground (arith, full, le))
        | inr room ↦
            rw (room, try_pairings)
              (evaluate-IsGood Q is_planar es (length ps) (try_pairings is_planar es branch d ps)
                (trace_with_pairing es branch p) (counted is_planar st)
                (λ st' h' le'. try_pairings-IsGood es branch d ps st' rest h' le') h
                (omega (arith, le))
                (λ loops traced. trace_with_pairing-TakesAll es branch p loops touch traced))
      ]

  try_branch_at-IsGood :
      (es : List Edge) (branch : ℕ)
      → IsGood Q is_planar es (try_branch_at is_planar es branch (degree branch es))
  unfolding try_branch_at FirstIsGood
  try_branch_at-IsGood es branch = elim (Bool-cases (degree branch es % 2 == 0)) [
    | inr odd ↦ rw odd (refl, λ d' e. cc)
    | inl even ↦ elim (Bool-cases (ltb max_branch_degree (degree branch es))) [
      | inl over ↦ rw (even, over) (refl, λ d' e. cc)
      | inr within ↦
          let few : length (incident es branch) ≤ 8 =
            ground (arith, within, length-incident es branch) in
          rw (even, within)
            (try_pairings-IsGood es branch (degree branch es) (all_pairings (incident es branch))
              (fresh_search is_planar)
              (all_pairings-kept (Touches es branch) (incident es branch)
                (incident-Touches es branch))
              refl
              (omega (
                arith,
                length-all_pairings (incident es branch),
                pairings_count-le (length (incident es branch)) few,
              )))
    ]
  ]

  only_branch-IsGood :
      (es : List Edge) (ks : List ℕ) → IsGood Q is_planar es (only_branch is_planar es ks)
  unfolding only_branch
  only_branch-IsGood es [] = (refl, λ d' e. cc)
  only_branch-IsGood es (k ∷ []) = try_branch_at-IsGood es k
  only_branch-IsGood es (k ∷ (l ∷ ks)) = (refl, λ d' e. cc)

  simple_facets-IsGood :
      (es : List Edge) (loop : List ℕ) (budget : ℕ) (r : Split ℕ × ℕ)
      → TakesAll es (loop ∷ [])
      → Sound Q is_planar (loop ∷ []) budget r
      → IsGood Q is_planar es (simple_facets is_planar loop r)
  unfolding simple_facets Sound
  simple_facets-IsGood es loop budget (cut fs, left) takes (c, _) =
      (IsReading-cut Q is_planar es (loop ∷ []) fs takes c, omega arith, omega arith)
  simple_facets-IsGood es loop budget (uncut, left) takes c = (refl, λ d' e. cc)
  simple_facets-IsGood es loop budget (exceeded, left) takes c = (refl, λ d' e. cc)

  simple_outline-IsGood :
      (es : List Edge) (t : Traced)
      → Outcome es (start_of es) t
      → IsGood Q is_planar es (simple_outline is_planar es t)
  unfolding simple_outline
  simple_outline-IsGood es t (inl none_found) = rw none_found (refl, λ d' e. cc)
  simple_outline-IsGood es t (inr (used, ordered, track, all, traced, _)) =
      let loop = drop_last ordered in
      rw traced (
        simple_facets-IsGood es loop max_candidates
          (facets_for_loops is_planar (loop ∷ []) max_candidates)
          (used, one_more [] used ordered [] (start_of es) no_loops (Track-Trail track), all)
          (facets_for_loops-Sound Q is_planar (loop ∷ []) max_candidates))

  -- Whatever the edges and the test of planarity: facets that a component is resolved to are cut out of
  -- closed walks that take every edge once, with as many points in all as edges, and are planar; they
  -- make up as many triangles as the walks and have no other points, and one or two readings are
  -- reported. A component that is skipped had no reading, and is never skipped for too many pairings.
  pub resolve_component-IsGood :
      (es : List Edge) → IsGood Q is_planar es (resolve_component is_planar es)
  unfolding resolve_component try_branch_decomposition
  resolve_component-IsGood es = elim (Bool-cases (has_branch is_planar es)) [
    | inl branching ↦ rw branching (only_branch-IsGood es (branches es))
    | inr simple ↦
        rw simple (simple_outline-IsGood es (trace_simple_loop es) (trace_simple_loop-Outcome es))
  ]
