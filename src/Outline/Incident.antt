-- ===== src/Outline/Incident.antt =====
-- The edges at a branch point, of `_try_branch_decomposition` of
-- mcp_server/skills/geometry/edge_topology.py.
use openstudio_mcp.Base.{
  ℕ, suc, ◌≤◌, List, [], ◌∷◌, map, some, ◌≡◌, ◌⊎◌, inl, inr, refl, ap, length, get_elem?, ◌==◌,
  ==_sound, ℕ_eq, arith, Bool-cases, All,
}
use openstudio_mcp.Outline.{Edge, degree}
use openstudio_mcp.Outline.Resolve.{edges_at, is_before, insert_edge, sort_edges, incident}
use openstudio_mcp.Outline.Readings.{IsFrom, IsFrom-head, IsFrom-tail}
use openstudio_mcp.Outline.Trails.{Touches}

-- An edge of the list, with its index, at a point.
abbrev StandsAt : List Edge → ℕ → ℕ × Edge → Type 0
StandsAt es k (i, (s, e)) = (get_elem? es i ≡ some (s, e)) × ((s ≡ k) ⊎ (e ≡ k))

edges_at-All :
    (es : List Edge) (k i : ℕ) (rest : List Edge)
    → IsFrom es i rest
    → All (StandsAt es k) (edges_at k i rest)
unfolding edges_at
edges_at-All es k i [] from = tt
edges_at-All es k i ((s, e) ∷ rest) from =
    let later = edges_at-All es k (suc i) rest (IsFrom-tail es rest i (s, e) from) in
    let here = IsFrom-head es rest i (s, e) from in
    elim (Bool-cases (s == k)) [
      | inl at_start ↦ rw at_start ((here, inl (==_sound s k at_start)), later)
      | inr other ↦ elim (Bool-cases (e == k)) [
        | inl at_end ↦ rw (other, at_end) ((here, inr (==_sound e k at_end)), later)
        | inr neither ↦ rw (other, neither) later
      ]
    ]

length-edges_at : (k i : ℕ) (es : List Edge) → length (edges_at k i es) ≤ degree k es
unfolding edges_at degree
length-edges_at k i [] = omega arith
length-edges_at k i ((s, e) ∷ es) = elim (Bool-cases (s == k)) [
  | inl at_start ↦ rw at_start (omega (arith, length-edges_at k (suc i) es))
  | inr other ↦ elim (Bool-cases (e == k)) [
    | inl at_end ↦ rw (other, at_end) (omega (arith, length-edges_at k (suc i) es))
    | inr neither ↦ rw (other, neither) (omega (arith, length-edges_at k (suc i) es))
  ]
]

insert_edge-All :
    (Q : ℕ × Edge → Type 0) (x : ℕ × Edge) (ys : List (ℕ × Edge))
    → Q x
    → All Q ys
    → All Q (insert_edge x ys)
unfolding insert_edge
insert_edge-All Q x [] q h = (q, tt)
insert_edge-All Q x (y ∷ ys) q (qy, h) = elim (Bool-cases (is_before y.1 x.1)) [
  | inl before ↦ rw before (qy, insert_edge-All Q x ys q h)
  | inr after ↦ rw after (q, (qy, h))
]

sort_edges-All : (Q : ℕ × Edge → Type 0) (xs : List (ℕ × Edge)) → All Q xs → All Q (sort_edges xs)
unfolding sort_edges
sort_edges-All Q [] h = tt
sort_edges-All Q (x ∷ xs) (q, h) = insert_edge-All Q x (sort_edges xs) q (sort_edges-All Q xs h)

length-insert_edge :
    (x : ℕ × Edge) (ys : List (ℕ × Edge)) → length (insert_edge x ys) ≡ suc (length ys)
unfolding insert_edge
length-insert_edge x [] = refl
length-insert_edge x (y ∷ ys) = elim (Bool-cases (is_before y.1 x.1)) [
  | inl before ↦ rw before (omega (arith, length-insert_edge x ys))
  | inr after ↦ rw after refl
]

length-sort_edges : (xs : List (ℕ × Edge)) → length (sort_edges xs) ≡ length xs
unfolding sort_edges
length-sort_edges [] = refl
length-sort_edges (x ∷ xs) =
    omega (arith, length-insert_edge x (sort_edges xs), length-sort_edges xs)

indices : List (ℕ × Edge) → List ℕ
indices xs = map (λ (i, edge). i) xs

indices-Touches :
    (es : List Edge) (k : ℕ) (xs : List (ℕ × Edge))
    → All (StandsAt es k) xs
    → All (Touches es k) (indices xs)
unfolding indices
indices-Touches es k [] h = tt
indices-Touches es k ((i, (s, e)) ∷ xs) ((at, ends), h) =
    ((s, e, at, ends), indices-Touches es k xs h)

length-indices : (xs : List (ℕ × Edge)) → length (indices xs) ≡ length xs
unfolding indices
length-indices [] = refl
length-indices (x ∷ xs) = omega (arith, length-indices xs)

pub incident-Touches : (es : List Edge) (k : ℕ) → All (Touches es k) (incident es k)
unfolding incident indices
incident-Touches es k = indices-Touches es k (sort_edges (edges_at k 0 es)) (
    sort_edges-All (StandsAt es k) (edges_at k 0 es)
      (edges_at-All es k 0 es (λ j. ap (get_elem? es) (omega arith))))

pub length-incident : (es : List Edge) (k : ℕ) → length (incident es k) ≤ degree k es
unfolding incident indices
length-incident es k = omega (
  arith,
  length-indices (sort_edges (edges_at k 0 es)),
  length-sort_edges (edges_at k 0 es),
  length-edges_at k 0 es,
)
