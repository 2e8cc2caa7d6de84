-- ===== src/Outline.antt =====
-- The outlines that unpaired edges trace, of mcp_server/skills/geometry/edge_topology.py. A point stands
-- as a number, equal and ordered as its key is; an edge is a pair of points.
pub mod Tracks
pub mod Ends
pub mod Branch
pub mod Trails
pub mod Readings
pub mod Matchings
pub mod Incident
pub mod Good
pub mod Sound
pub mod Resolve
mod Tests
use openstudio_mcp.Base.{
  ℕ, zero, suc, ◌+◌, Bool, true, false, not, Option, none, some, List, [], ◌∷◌, ◌++◌, ◌&&◌, ◌||◌,
  length, contains, get_elem?, if◌then◌else◌, ltb, leb, ◌==◌, ℕ_eq, keep, any, take, drop,
}

abbrev pub Edge : Type 0
Edge = ℕ × ℕ

-- `degree_map(pairs)[k]`
unfoldable pub degree : ℕ → List Edge → ℕ
degree k [] = 0
degree k ((s, e) ∷ es) = (if s == k then 1 else 0) + ((if e == k then 1 else 0) + degree k es)

-- `any(d != 2 for d in deg.values())`, over the ends of the edges.
unfoldable pub all_two : List Edge → List Edge → Bool
unfolding degree
all_two es [] = true
all_two es ((s, e) ∷ rest) = degree s es == 2 && degree e es == 2 && all_two es rest

-- `adjacency[k]`, from the index `i` on: an edge from a point to itself stands twice.
unfoldable pub adjacency : ℕ → ℕ → List Edge → List ℕ
adjacency k i [] = []
adjacency k i ((s, e) ∷ es) =
    (if s == k then i ∷ [] else []) ++ ((if e == k then i ∷ [] else []) ++ adjacency k (suc i) es)

-- The walk: the used edges, latest first, the points in order, and where it is.
pub record Walk : Type 0 where
  pub used : List ℕ
  pub ordered : List ℕ
  pub current : ℕ
  pub prev : ℕ

pub data Traced : Type 0 where
  loop_of : List ℕ → Traced
  no_loop out_of_fuel : Traced

-- `ordered[:-1]`
unfoldable pub drop_last : List ℕ → List ℕ
drop_last [] = []
drop_last (p ∷ []) = []
drop_last (p ∷ (q ∷ ps)) = p ∷ drop_last (q ∷ ps)

-- The end of the walk.
unfoldable pub close : List Edge → Walk → Traced
unfolding drop_last
close es w = if length w.used == length es then loop_of (drop_last w.ordered) else no_loop

unfoldable pub other_end : ℕ → Edge → ℕ
other_end k (s, e) = if s == k then e else s

unfoldable pub follow : ℕ → Walk → Edge → Walk
unfolding other_end
follow i w edge = record {
  used = i ∷ w.used;
  ordered = w.ordered ++ (other_end w.current edge ∷ []);
  current = other_end w.current edge;
  prev = i;
}

-- The one edge that goes on from here, if it is one and not used.
unfoldable pub only_unused : List ℕ → List ℕ → Option ℕ
only_unused used [] = none
only_unused used (i ∷ []) = if contains used i then none else some i
only_unused used (i ∷ (j ∷ is)) = none

unfoldable pub next_edge : List Edge → Walk → Option ℕ
unfolding only_unused adjacency keep
next_edge es w = only_unused w.used (keep (λ i. not (i == w.prev)) (adjacency w.current 0 es))

-- The edge of an index; there is one, as the indices come from `adjacency`.
unfoldable pub step_to : List Edge → Walk → Option ℕ → Option Walk
unfolding follow
step_to es w none = none
step_to es w (some i) = elim (get_elem? es i) [ none ↦ none | some edge ↦ some (follow i w edge) ]

-- One round of the `while` loop: the walk is over, or goes on.
pub data Round : Type 0 where
  ended : Traced → Round
  goes_on : Walk → Round

unfoldable pub onward : Option Walk → Round
onward none = ended no_loop
onward (some w) = goes_on w

unfoldable pub walk_round : List Edge → ℕ → Walk → Round
unfolding close next_edge step_to onward
walk_round es start w =
    if w.current == start
    then ended (close es w)
    else if leb (length es) (length w.used)
    then ended no_loop
    else onward (step_to es w (next_edge es w))

-- The loop on fuel.
unfoldable pub walk_edges : List Edge → ℕ → ℕ → Walk → Traced
unfolding walk_round
walk_edges es start zero w = elim (walk_round es start w) [ ended t ↦ t | goes_on w' ↦ out_of_fuel ]
walk_edges es start (suc fuel) w = elim (walk_round es start w) [
  | ended t ↦ t
  | goes_on w' ↦ walk_edges es start fuel w'
]

-- `_trace_simple_loop`
unfoldable pub trace_simple_loop : List Edge → Traced
unfolding walk_edges all_two
trace_simple_loop [] = no_loop
trace_simple_loop ((s, e) ∷ es) =
    if all_two ((s, e) ∷ es) ((s, e) ∷ es)
    then walk_edges ((s, e) ∷ es) s (length es)
        (record { used = 0 ∷ []; ordered = s ∷ (e ∷ []); current = e; prev = 0 })
    else no_loop
