-- ===== src/Outline/Good.antt =====
-- What counts as a good answer of the search over the pairings of
-- mcp_server/skills/geometry/edge_topology.py, and the ends of the search that give one.
use openstudio_mcp.Base.{
  ℕ, suc, ◌+◌, ◌≤◌, Bool, Option, none, some, List, ◌≡◌, ◌≢◌, refl, ◌∙◌, length, ℕ_eq, arith,
}
use openstudio_mcp.Facets.{Split, cut, uncut, exceeded, facets_for_loops}
use openstudio_mcp.Facets.Planar.{IsCut, Sound, facets_for_loops-Sound}
use openstudio_mcp.Outline.{Edge}
use openstudio_mcp.Outline.Trails.{points, points-Loops}
use openstudio_mcp.Outline.Readings.{TakesAll}
use openstudio_mcp.Outline.Resolve.{
  too_many_pairings, Resolved, resolved, skipped, Search, after_all, spent, add_reading, weigh,
  evaluate, max_pairings,
}

module _ (Q : ℕ → Type 0) (is_planar : List ℕ → Bool) where
  -- Facets that are cut out of closed walks over all the edges.
  pub record IsReading (es : List Edge) (fs : List (List ℕ)) : Type 0 where
    pub loops : List (List ℕ)
    pub takes : TakesAll es loops
    pub whole : points loops ≡ length es
    pub facets : IsCut Q is_planar loops fs

  pub IsReading-cut :
      (es : List Edge) (loops fs : List (List ℕ))
      → TakesAll es loops
      → IsCut Q is_planar loops fs
      → IsReading es fs
  IsReading-cut es loops fs (used, h, all) c = record {
    loops = loops;
    takes = (used, h, all);
    whole = points-Loops h ∙ all;
    facets = c;
  }

  -- A component is skipped with no reading, and never for too many pairings.
  abbrev pub IsGood : List Edge → Resolved → Type 0
  IsGood es (resolved fs count) = IsReading es fs × (1 ≤ count) × (count ≤ 2)
  IsGood es (skipped why count) = (count ≡ 0) × ((d : ℕ) → why ≢ too_many_pairings d)

  -- The first facets with the number of readings so far.
  unfoldable pub FirstIsGood : List Edge → Option (List (List ℕ)) → ℕ → Type 0
  FirstIsGood es none count = count ≡ 0
  FirstIsGood es (some fs) count = IsReading es fs × (count ≡ 1)

  -- What is asked of the rest of the search, with room for so many pairings.
  unfoldable pub NextIsGood : List Edge → ℕ → (Search → Resolved) → Type 0
  NextIsGood es room next =
      (st : Search)
      → FirstIsGood es st.first_facets st.valid_count
      → st.evaluated + room ≤ max_pairings
      → IsGood es (next st)

  pub after_all-IsGood :
      (es : List Edge) (d : ℕ) (first : Option (List (List ℕ))) (count evaluated budget : ℕ)
      → FirstIsGood es first count
      → IsGood es (
          after_all d (record {
            first_facets = first;
            valid_count = count;
            evaluated = evaluated;
            budget = budget;
          }))
  unfolding after_all FirstIsGood
  after_all-IsGood es d none count evaluated budget h = (refl, λ d' e. cc)
  after_all-IsGood es d (some fs) count evaluated budget (r, one) =
      (r, omega (arith, one), omega (arith, one))

  spent-IsGood :
      (es : List Edge) (first : Option (List (List ℕ))) (count evaluated budget : ℕ)
      → FirstIsGood es first count
      → IsGood es (
          spent (record {
            first_facets = first;
            valid_count = count;
            evaluated = evaluated;
            budget = budget;
          }))
  unfolding spent FirstIsGood
  spent-IsGood es none count evaluated budget h = (h, λ d' e. cc)
  spent-IsGood es (some fs) count evaluated budget (r, one) =
      (r, omega (arith, one), omega (arith, one))

  weigh-IsGood :
      (es : List Edge) (room : ℕ) (next : Search → Resolved) (loops : List (List ℕ))
      (first : Option (List (List ℕ))) (count evaluated budget : ℕ) (r : Split ℕ × ℕ)
      → NextIsGood es room next
      → FirstIsGood es first count
      → evaluated + room ≤ max_pairings
      → TakesAll es loops
      → Sound Q is_planar loops budget r
      → IsGood es (
          weigh next
            (record {
              first_facets = first;
              valid_count = count;
              evaluated = evaluated;
              budget = budget;
            })
            r)
  unfolding weigh add_reading FirstIsGood Sound NextIsGood
  weigh-IsGood es room next loops none count evaluated budget (cut fs, left) ok h le takes (c, _) =
      ok
        (record {
          first_facets = some fs;
          valid_count = suc count;
          evaluated = evaluated;
          budget = left;
        })
        (IsReading-cut es loops fs takes c, omega (arith, h)) le
  weigh-IsGood es room next loops (some gs) count evaluated budget (cut fs, left) ok (r, one) le
        takes c =
      (r, omega (arith, one), omega (arith, one))
  weigh-IsGood es room next loops first count evaluated budget (uncut, left) ok h le takes c =
      ok
        (record { first_facets = first; valid_count = count; evaluated = evaluated; budget = left })
        h le
  weigh-IsGood es room next loops first count evaluated budget (exceeded, left) ok h le takes c =
      spent-IsGood es first count evaluated budget h

  pub evaluate-IsGood :
      (es : List Edge) (room : ℕ) (next : Search → Resolved) (traced : Option (List (List ℕ)))
      (st : Search)
      → NextIsGood es room next
      → FirstIsGood es st.first_facets st.valid_count
      → st.evaluated + room ≤ max_pairings
      → ((loops : List (List ℕ)) → traced ≡ some loops → TakesAll es loops)
      → IsGood es (evaluate is_planar next traced st)
  unfolding evaluate NextIsGood
  evaluate-IsGood es room next none st ok h le takes = ok st h le
  evaluate-IsGood es room next (some loops) st ok h le takes =
      weigh-IsGood es room next loops st.first_facets st.valid_count st.evaluated st.budget
        (facets_for_loops is_planar loops st.budget) ok h le (takes loops refl)
        (facets_for_loops-Sound Q is_planar loops st.budget)
