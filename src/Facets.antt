-- ===== src/Facets.antt =====
-- The cut of an outline into planar pieces, of mcp_server/skills/geometry/planar_facets.py. Points are
-- of any type, and whether some of them lie in a plane is a function.
pub mod Cuts
pub mod Planar
mod Tests
use openstudio_mcp.Base.{
  ℕ, zero, suc, ◌+◌, ◌-◌, Bool, true, false, not, Option, none, some, List, [], ◌∷◌, ◌++◌, ◌&&◌,
  ◌||◌, length, take, drop, if◌then◌else◌, ltb, leb, ◌==◌, ℕ_eq,
}

-- `max_split_depth` and `max_candidates` are MAX_SPLIT_DEPTH and MAX_FACET_SPLIT_CANDIDATES.
abbrev pub max_split_depth : ℕ
max_split_depth = 4

abbrev pub max_candidates : ℕ
max_candidates = 5000

-- What a search comes to: the facets, none, or SearchBudgetExceeded.
pub data Split {ℓ} (P : Type ℓ) : Type ℓ where
  cut : List (List P) → Split P
  uncut exceeded : Split P

module _ {ℓ} {P : Type ℓ} where
  -- `loop[i:j + 1]` and `loop[j:] + loop[:i + 1]`
  unfoldable pub arc1_of : ℕ → ℕ → List P → List P
  arc1_of i j loop = take (suc j - i) (drop i loop)

  unfoldable pub arc2_of : ℕ → ℕ → List P → List P
  arc2_of i j loop = drop j loop ++ take (suc i) loop

  -- The tests of the loops over `i` and `j`.
  unfoldable pub is_candidate : ℕ → ℕ → List P → Bool
  unfolding arc1_of arc2_of
  is_candidate i j loop =
      not (i == 0 && j == length loop - 1)
      && not (ltb (length (arc1_of i j loop)) 3 || ltb (length (arc2_of i j loop)) 3)

  -- `for j in range(j, j + count)`
  unfoldable pub from_i : ℕ → ℕ → ℕ → List P → List (List P × List P)
  unfolding is_candidate
  from_i i j zero loop = []
  from_i i j (suc count) loop =
      let rest = from_i i (suc j) count loop in
      if is_candidate i j loop then (arc1_of i j loop, arc2_of i j loop) ∷ rest else rest

  -- `for i in range(i, i + count)`
  unfoldable pub from_all : ℕ → ℕ → List P → List (List P × List P)
  unfolding from_i
  from_all i zero loop = []
  from_all i (suc count) loop =
      from_i i (i + 2) (length loop - (i + 2)) loop ++ from_all (suc i) count loop

  -- `sort(key=lambda pair: len(pair[0]), reverse=True)`, which keeps the order of equals.
  unfoldable pub insert_arc : List P × List P → List (List P × List P) → List (List P × List P)
  insert_arc c [] = c ∷ []
  insert_arc c (d ∷ ds) =
      if ltb (length c.0) (length d.0) then d ∷ insert_arc c ds else c ∷ (d ∷ ds)

  unfoldable pub sort_arcs : List (List P × List P) → List (List P × List P)
  unfolding insert_arc
  sort_arcs [] = []
  sort_arcs (c ∷ cs) = insert_arc c (sort_arcs cs)

  unfoldable pub candidates : List P → List (List P × List P)
  unfolding sort_arcs from_all
  candidates loop = sort_arcs (from_all 0 (length loop) loop)

  module _ (is_planar : List P → Bool) where
    -- `[arc1, *rest]`, or the next candidate.
    unfoldable pub joined : List P → Split P × ℕ → Split P × ℕ → Split P × ℕ
    joined arc (cut fs, left) next = (cut (arc ∷ fs), left)
    joined arc (exceeded, left) next = (exceeded, left)
    joined arc (uncut, left) next = next

    -- What is left of the budget after the recursion on the rest.
    unfoldable pub left_of : Split P × ℕ → ℕ
    left_of (r, left) = left

    -- The loop over the candidates, where `rec` is the recursion one level down.
    unfoldable pub search : (List P → ℕ → Split P × ℕ) → List (List P × List P) → ℕ → Split P × ℕ
    unfolding joined left_of
    search rec [] budget = (uncut, budget)
    search rec ((arc1, arc2) ∷ cs) zero = (exceeded, zero)
    search rec ((arc1, arc2) ∷ cs) (suc budget) =
        let skipped = search rec cs budget in
        let tried = rec arc2 budget in
        let next = search rec cs (left_of tried) in
        if is_planar arc1 then joined arc1 tried next else skipped

    -- `split_planar_facets`, with the levels that are left.
    unfoldable pub split_facets : ℕ → List P → ℕ → Split P × ℕ
    unfolding search candidates
    split_facets zero loop budget =
        if is_planar loop then (cut (loop ∷ []), budget) else (uncut, budget)
    split_facets (suc levels) loop budget =
        if is_planar loop
        then (cut (loop ∷ []), budget)
        else if ltb (length loop) 4
        then (uncut, budget)
        else search (split_facets levels) (candidates loop) budget

    -- `facets.extend(split)`, and the loops after it on the budget that is left.
    unfoldable pub extended : List (List P) → Split P × ℕ → Split P × ℕ
    extended fs (cut gs, left) = (cut (fs ++ gs), left)
    extended fs (uncut, left) = (uncut, left)
    extended fs (exceeded, left) = (exceeded, left)

    unfoldable pub and_then : Split P × ℕ → (ℕ → Split P × ℕ) → Split P × ℕ
    unfolding extended
    and_then (cut fs, left) rest = extended fs (rest left)
    and_then (uncut, left) rest = (uncut, left)
    and_then (exceeded, left) rest = (exceeded, left)

    unfoldable pub facets_for_loops : List (List P) → ℕ → Split P × ℕ
    unfolding split_facets and_then
    facets_for_loops [] budget = (cut [], budget)
    facets_for_loops (loop ∷ loops) budget =
        and_then (split_facets max_split_depth loop budget) (facets_for_loops loops)
