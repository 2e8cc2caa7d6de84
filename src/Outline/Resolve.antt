-- ===== src/Outline/Resolve.antt =====
-- The facets of one component of unpaired edges, of mcp_server/skills/geometry/edge_topology.py.
use openstudio_mcp.Base.{
  ℕ, suc, ◌%◌, Bool, true, false, not, Option, none, some, List, [], ◌∷◌, ◌++◌, ◌&&◌, ◌||◌, length,
  contains, if◌then◌else◌, ltb, leb, ◌==◌, ℕ_eq, keep, any, map,
}
use openstudio_mcp.Outline.{Edge, Traced, loop_of, no_loop, out_of_fuel, degree, trace_simple_loop}
use openstudio_mcp.Outline.Branch.{all_pairings, trace_with_pairing}
use openstudio_mcp.Facets.{Split, cut, uncut, exceeded, max_candidates, facets_for_loops}

-- MAX_BRANCH_DEGREE and MAX_PAIRING_CANDIDATES.
abbrev pub max_branch_degree : ℕ
max_branch_degree = 8

abbrev pub max_pairings : ℕ
max_pairings = 500

-- Why a component is skipped.
pub data Reason : Type 0 where
  branch_points odd_degree over_degree too_many_pairings no_pairing not_a_loop not_planar :
      ℕ → Reason
  budget_spent : Reason

-- The facets with the number of readings, or the reason with it.
pub data Resolved : Type 0 where
  resolved : List (List ℕ) → ℕ → Resolved
  skipped : Reason → ℕ → Resolved

-- `deg`'s keys, in the order in which they come in.
unfoldable pub put_key : ℕ → List ℕ → List ℕ
put_key k ks = if contains ks k then ks else ks ++ (k ∷ [])

unfoldable pub keys_from : List ℕ → List Edge → List ℕ
unfolding put_key
keys_from ks [] = ks
keys_from ks ((s, e) ∷ es) = keys_from (put_key e (put_key s ks)) es

unfoldable pub branches : List Edge → List ℕ
unfolding keys_from degree keep
branches es = keep (λ k. ltb 2 (degree k es)) (keys_from [] es)

-- The edges at a point with their indices, from one on.
unfoldable pub edges_at : ℕ → ℕ → List Edge → List (ℕ × Edge)
edges_at k i [] = []
edges_at k i ((s, e) ∷ es) =
    let rest = edges_at k (suc i) es in if s == k || e == k then (i, (s, e)) ∷ rest else rest

unfoldable pub is_before : Edge → Edge → Bool
is_before (s, e) (s', e') = ltb s s' || s == s' && ltb e e'

unfoldable pub insert_edge : ℕ × Edge → List (ℕ × Edge) → List (ℕ × Edge)
unfolding is_before
insert_edge x [] = x ∷ []
insert_edge x (y ∷ ys) = if is_before y.1 x.1 then y ∷ insert_edge x ys else x ∷ (y ∷ ys)

unfoldable pub sort_edges : List (ℕ × Edge) → List (ℕ × Edge)
unfolding insert_edge
sort_edges [] = []
sort_edges (x ∷ xs) = insert_edge x (sort_edges xs)

unfoldable pub incident : List Edge → ℕ → List ℕ
unfolding edges_at sort_edges
incident es branch = map (λ (i, edge). i) (sort_edges (edges_at branch 0 es))

-- The variables of the loop over the pairings.
pub record Search : Type 0 where
  pub first_facets : Option (List (List ℕ))
  pub valid_count : ℕ
  pub evaluated : ℕ
  pub budget : ℕ

unfoldable pub after_all : ℕ → Search → Resolved
after_all d st = elim st.first_facets [
  | none ↦ skipped (no_pairing d) 0
  | some fs ↦ resolved fs st.valid_count
]

unfoldable pub spent : Search → Resolved
spent st = elim st.first_facets [
  | none ↦ skipped budget_spent st.valid_count
  | some fs ↦ resolved fs st.valid_count
]

-- One more reading: the first goes on, a second is enough.
unfoldable pub add_reading : (Search → Resolved) → List (List ℕ) → Search → Resolved
add_reading next fs st = elim st.first_facets [
  | none ↦ next (record st { first_facets = some fs; valid_count = suc st.valid_count })
  | some first ↦ resolved first (suc st.valid_count)
]

unfoldable pub weigh : (Search → Resolved) → Search → Split ℕ × ℕ → Resolved
unfolding add_reading spent
weigh next st (cut fs, left) = add_reading next fs (record st { budget = left })
weigh next st (uncut, left) = next (record st { budget = left })
weigh next st (exceeded, left) = spent st

module _ (is_planar : List ℕ → Bool) where
  unfoldable pub evaluate : (Search → Resolved) → Option (List (List ℕ)) → Search → Resolved
  unfolding weigh facets_for_loops
  evaluate next none st = next st
  evaluate next (some loops) st = weigh next st (facets_for_loops is_planar loops st.budget)

  unfoldable pub counted : Search → Search
  counted st = record st { evaluated = suc st.evaluated }

  unfoldable pub try_pairings : List Edge → ℕ → ℕ → List (List (ℕ × ℕ)) → Search → Resolved
  unfolding after_all evaluate counted trace_with_pairing
  try_pairings es branch d [] st = after_all d st
  try_pairings es branch d (p ∷ ps) st = elim (leb max_pairings st.evaluated) [
    | true ↦ skipped (too_many_pairings d) st.valid_count
    | false ↦ evaluate (try_pairings es branch d ps) (trace_with_pairing es branch p) (counted st)
  ]

  abbrev pub fresh_search : Search
  fresh_search = record {
    first_facets = none;
    valid_count = 0;
    evaluated = 0;
    budget = max_candidates;
  }

  unfoldable pub try_branch_at : List Edge → ℕ → ℕ → Resolved
  unfolding try_pairings all_pairings incident
  try_branch_at es branch d =
      if not (d % 2 == 0)
      then skipped (odd_degree d) 0
      else if ltb max_branch_degree d
      then skipped (over_degree d) 0
      else try_pairings es branch d (all_pairings (incident es branch)) fresh_search

  unfoldable pub only_branch : List Edge → List ℕ → Resolved
  unfolding try_branch_at degree
  only_branch es [] = skipped (branch_points 0) 0
  only_branch es (k ∷ []) = try_branch_at es k (degree k es)
  only_branch es (k ∷ (l ∷ ks)) = skipped (branch_points (length (k ∷ (l ∷ ks)))) 0

  unfoldable pub try_branch_decomposition : List Edge → Resolved
  unfolding only_branch branches
  try_branch_decomposition es = only_branch es (branches es)

  unfoldable pub simple_facets : List ℕ → Split ℕ × ℕ → Resolved
  simple_facets loop (cut fs, left) = resolved fs 1
  simple_facets loop (uncut, left) = skipped (not_planar (length loop)) 0
  simple_facets loop (exceeded, left) = skipped budget_spent 0

  unfoldable pub simple_outline : List Edge → Traced → Resolved
  unfolding simple_facets facets_for_loops
  simple_outline es (loop_of ps) =
      simple_facets ps (facets_for_loops is_planar (ps ∷ []) max_candidates)
  simple_outline es no_loop = skipped (not_a_loop (length es)) 0
  simple_outline es out_of_fuel = skipped (not_a_loop (length es)) 0

  -- `any(d > 2 for d in deg.values())`
  unfoldable pub has_branch : List Edge → Bool
  unfolding degree keys_from
  has_branch es = any (λ k. ltb 2 (degree k es)) (keys_from [] es)

  unfoldable pub resolve_component : List Edge → Resolved
  unfolding try_branch_decomposition simple_outline trace_simple_loop has_branch
  resolve_component es =
      if has_branch es
      then try_branch_decomposition es
      else simple_outline es (trace_simple_loop es)
