-- ===== src/Outline/Branch.antt =====
-- The loops that a pairing at a branch point makes, of mcp_server/skills/geometry/edge_topology.py.
use openstudio_mcp.Base.{
  ℕ, zero, suc, true, false, Option, none, some, List, [], ◌∷◌, ◌++◌, length, contains,
  if◌then◌else◌, ◌==◌, ℕ_eq, map,
}
use openstudio_mcp.Outline.{Edge, Walk, drop_last, next_edge, step_to}

module _ {ℓ} {A : Type ℓ} where
  -- Each element `rest[k]`, with `rest[:k] + rest[k + 1:]`.
  unfoldable pub picks : List A → List (A × List A)
  picks [] = []
  picks (x ∷ xs) = (x, xs) ∷ map (λ (y, ys). (y, x ∷ ys)) (picks xs)

  -- `[pair, *sub]` for each of them.
  unfoldable pub with_pair : A × A → List (List (A × A)) → List (List (A × A))
  with_pair p [] = []
  with_pair p (sub ∷ subs) = (p ∷ sub) ∷ with_pair p subs

  -- The loop over `k`, where `rec` is the recursion.
  unfoldable pub pair_first :
      A → (List A → List (List (A × A))) → List (A × List A) → List (List (A × A))
  unfolding with_pair
  pair_first x rec [] = []
  pair_first x rec ((y, ys) ∷ ks) = with_pair (x, y) (rec ys) ++ pair_first x rec ks

  -- `_all_pairings`, on as much fuel as there are items.
  unfoldable pub pairings_of : ℕ → List A → List (List (A × A))
  unfolding picks pair_first
  pairings_of fuel [] = [] ∷ []
  pairings_of zero (x ∷ xs) = []
  pairings_of (suc fuel) (x ∷ xs) = pair_first x (pairings_of fuel) (picks xs)

  unfoldable pub all_pairings : List A → List (List (A × A))
  unfolding pairings_of
  all_pairings items = pairings_of (length items) items

-- `partner.get(i)`, where what is put last counts.
unfoldable pub partner_of : List (ℕ × ℕ) → ℕ → Option ℕ
partner_of [] i = none
partner_of ((a, b) ∷ pairs) i = elim (partner_of pairs i) [
  | some p ↦ some p
  | none ↦ if i == b then some a else if i == a then some b else none
]

unfoldable pub if_unused : List ℕ → Option ℕ → Option ℕ
if_unused used none = none
if_unused used (some i) = if contains used i then none else some i

-- Where the walk goes on: at the branch point to the partner, else to the other edge.
unfoldable pub paired_edge : List Edge → ℕ → List (ℕ × ℕ) → Walk → Option ℕ
unfolding next_edge if_unused partner_of
paired_edge es branch pairing w =
    if w.current == branch then if_unused w.used (partner_of pairing w.prev) else next_edge es w

-- The rounds `for _ in range(n + 1)`: the walk that is closed, if it closes.
unfoldable pub close_walk : List Edge → ℕ → List (ℕ × ℕ) → ℕ → ℕ → Walk → Option Walk
unfolding paired_edge step_to
close_walk es branch pairing start zero w = none
close_walk es branch pairing start (suc rounds) w = elim (w.current == start) [
  | true ↦ some w
  | false ↦ elim (step_to es w (paired_edge es branch pairing w)) [
    | none ↦ none
    | some w' ↦ close_walk es branch pairing start rounds w'
  ]
]

-- The loop over `start_i`, from one on.
unfoldable pub trace_from :
    List Edge → ℕ → List (ℕ × ℕ) → ℕ → List Edge → List ℕ → List (List ℕ) → Option (List (List ℕ))
unfolding close_walk drop_last
trace_from es branch pairing i [] used loops = if length used == length es then some loops else none
trace_from es branch pairing i ((s, e) ∷ rest) used loops = elim (contains used i) [
  | true ↦ trace_from es branch pairing (suc i) rest used loops
  | false ↦
      elim (close_walk es branch pairing s (suc (length es))
        (record { used = i ∷ used; ordered = s ∷ (e ∷ []); current = e; prev = i })) [
          | none ↦ none
          | some w ↦
              trace_from es branch pairing (suc i) rest w.used (loops ++ (drop_last w.ordered ∷ []))
        ]
]

unfoldable pub trace_with_pairing : List Edge → ℕ → List (ℕ × ℕ) → Option (List (List ℕ))
unfolding trace_from
trace_with_pairing es branch pairing = trace_from es branch pairing 0 es [] []
