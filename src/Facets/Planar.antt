-- ===== src/Facets/Planar.antt =====
-- What the search of mcp_server/skills/geometry/planar_facets.py finds.
use openstudio_mcp.Base.{
  ℕ, zero, suc, ◌+◌, ◌-◌, ◌≤◌, Bool, true, List, [], ◌∷◌, ◌++◌, ◌≡◌, inl, inr, refl, length, ltb,
  ℕ_eq, All, arith, Bool-cases,
}
use openstudio_mcp.Facets.{
  Split, cut, uncut, exceeded, candidates, joined, left_of, search, split_facets, extended,
  and_then, facets_for_loops, max_split_depth,
}
use openstudio_mcp.Facets.Cuts.{All-append, IsChord, candidates-IsChord}

-- How many triangles make up an outline, and how many make up some.
unfoldable pub triangles {ℓ} : {P : Type ℓ} → List (List P) → ℕ
triangles [] = 0
triangles (f ∷ fs) = (length f - 2) + triangles fs

triangles-append {ℓ} :
    {P : Type ℓ} (fs gs : List (List P)) → triangles (fs ++ gs) ≡ triangles fs + triangles gs
unfolding triangles
triangles-append [] gs = omega arith
triangles-append (f ∷ fs) gs = omega (arith, triangles-append fs gs)

le_refl : (n : ℕ) → n ≤ n
le_refl n = omega arith

module _ {ℓ} {P : Type ℓ} (Q : P → Type 0) (is_planar : List P → Bool) where
  -- Planar facets that a cut along chords makes of some outlines: as many triangles as before, and no
  -- point that was not there.
  pub record IsCut (loops : List (List P)) (fs : List (List P)) : Type 0 where
    pub planar : All (λ f. is_planar f ≡ true) fs
    pub whole : triangles fs ≡ triangles loops
    pub kept : All (All Q) loops → All (All Q) fs

  -- What holds of an answer with the budget that is left of one.
  unfoldable pub Sound : List (List P) → ℕ → Split P × ℕ → Type 0
  Sound loops budget (cut fs, left) = IsCut loops fs × (left ≤ budget)
  Sound loops budget (uncut, left) = left ≤ budget
  Sound loops budget (exceeded, left) = (left ≡ 0) × (left ≤ budget)

  left_of-le :
      (loops : List (List P)) (budget : ℕ) (r : Split P × ℕ)
      → Sound loops budget r
      → left_of is_planar r ≤ budget
  unfolding Sound left_of
  left_of-le loops budget (cut fs, left) (h, le) = le
  left_of-le loops budget (uncut, left) le = le
  left_of-le loops budget (exceeded, left) (z, le) = le

  Sound-weaken :
      (loops : List (List P)) (a b : ℕ) (r : Split P × ℕ)
      → a ≤ b
      → Sound loops a r
      → Sound loops b r
  unfolding Sound
  Sound-weaken loops a b (cut fs, left) ab (h, le) = (h, omega (arith, ab, le))
  Sound-weaken loops a b (uncut, left) ab le = omega (arith, ab, le)
  Sound-weaken loops a b (exceeded, left) ab (z, le) = (z, omega (arith, ab, le))

  joined-Sound :
      (loop arc1 arc2 : List P) (budget : ℕ) (tried next : Split P × ℕ)
      → IsChord Q loop (arc1, arc2)
      → is_planar arc1 ≡ true
      → Sound (arc2 ∷ []) budget tried
      → Sound (loop ∷ []) (left_of is_planar tried) next
      → Sound (loop ∷ []) (suc budget) (joined is_planar arc1 tried next)
  unfolding joined Sound left_of triangles
  joined-Sound loop arc1 arc2 budget (cut fs, left) next c flat (h, le) g = (
    record {
      planar = (flat, h.planar);
      whole = omega (arith, h.whole, c.sides, c.wide, c.wide_rest);
      kept = λ (q, _). ((c.kept q).0, h.kept ((c.kept q).1, tt));
    },
    omega (arith, le),
  )
  joined-Sound loop arc1 arc2 budget (exceeded, left) next c flat (z, le) g = (z, omega (arith, le))
  joined-Sound loop arc1 arc2 budget (uncut, left) next c flat le g =
      Sound-weaken (loop ∷ []) left (suc budget) next (omega (arith, le)) g

  search-Sound :
      (rec : List P → ℕ → Split P × ℕ)
      → ((arc : List P) (b : ℕ) → Sound (arc ∷ []) b (rec arc b))
      → (loop : List P) (cs : List (List P × List P)) (budget : ℕ) → All (IsChord Q loop) cs
      → Sound (loop ∷ []) budget (search is_planar rec cs budget)
  unfolding search Sound
  search-Sound rec ok loop [] budget h = omega arith
  search-Sound rec ok loop ((arc1, arc2) ∷ cs) zero h = (refl, omega arith)
  search-Sound rec ok loop ((arc1, arc2) ∷ cs) (suc budget) (c, h) =
      let next = search-Sound rec ok loop cs (left_of is_planar (rec arc2 budget)) h in
      elim (Bool-cases (is_planar arc1)) [
        | inl flat ↦ rw flat (
            joined-Sound loop arc1 arc2 budget (rec arc2 budget)
              (search is_planar rec cs (left_of is_planar (rec arc2 budget))) c flat
              (ok arc2 budget) next)
        | inr bent ↦ rw bent (
            Sound-weaken (loop ∷ []) budget (suc budget) (search is_planar rec cs budget)
              (omega arith) (search-Sound rec ok loop cs budget h))
      ]

  flat_itself :
      (loop : List P) (budget : ℕ)
      → is_planar loop ≡ true
      → Sound (loop ∷ []) budget (cut (loop ∷ []), budget)
  unfolding Sound
  flat_itself loop budget flat =
      (record { planar = (flat, tt); whole = refl; kept = λ q. q }, omega arith)

  split_facets-Sound :
      (levels : ℕ) (loop : List P) (budget : ℕ)
      → Sound (loop ∷ []) budget (split_facets is_planar levels loop budget)
  unfolding split_facets Sound
  split_facets-Sound zero loop budget = elim (Bool-cases (is_planar loop)) [
    | inl flat ↦ rw flat (flat_itself loop budget flat)
    | inr bent ↦ rw bent (le_refl budget)
  ]
  split_facets-Sound (suc levels) loop budget = elim (Bool-cases (is_planar loop)) [
    | inl flat ↦ rw flat (flat_itself loop budget flat)
    | inr bent ↦ elim (Bool-cases (ltb (length loop) 4)) [
      | inl few ↦ rw (bent, few) (le_refl budget)
      | inr many ↦
          rw (bent, many)
            (search-Sound (split_facets is_planar levels) (split_facets-Sound levels) loop
              (candidates loop) budget (candidates-IsChord Q loop))
    ]
  ]

  extended-Sound :
      (loop : List P) (loops fs : List (List P)) (budget : ℕ) (r : Split P × ℕ)
      → IsCut (loop ∷ []) fs
      → Sound loops budget r
      → Sound (loop ∷ loops) budget (extended is_planar fs r)
  unfolding extended Sound triangles
  extended-Sound loop loops fs budget (cut gs, left) h (g, le) = (
    record {
      planar = All-append (λ f. is_planar f ≡ true) fs gs h.planar g.planar;
      whole = omega (arith, triangles-append fs gs, h.whole, g.whole);
      kept = λ (q, qs). All-append (All Q) fs gs (h.kept (q, tt)) (g.kept qs);
    },
    le,
  )
  extended-Sound loop loops fs budget (uncut, left) h le = le
  extended-Sound loop loops fs budget (exceeded, left) h le = le

  and_then-Sound :
      (loop : List P) (loops : List (List P)) (budget : ℕ) (r : Split P × ℕ)
      (rest : ℕ → Split P × ℕ)
      → Sound (loop ∷ []) budget r
      → ((b : ℕ) → Sound loops b (rest b))
      → Sound (loop ∷ loops) budget (and_then is_planar r rest)
  unfolding and_then Sound
  and_then-Sound loop loops budget (cut fs, left) rest (h, le) ok =
      Sound-weaken (loop ∷ loops) left budget (extended is_planar fs (rest left)) le
        (extended-Sound loop loops fs left (rest left) h (ok left))
  and_then-Sound loop loops budget (uncut, left) rest le ok = le
  and_then-Sound loop loops budget (exceeded, left) rest le ok = le

  -- Whatever the outlines and the test of planarity: the search comes to an answer, with no more of
  -- the budget left than it was given, and gives up only when nothing is left of it. What it finds are
  -- planar facets, whose points have every property that all those of the outlines have, and which
  -- make up as many triangles in all as the outlines.
  pub facets_for_loops-Sound :
      (loops : List (List P)) (budget : ℕ)
      → Sound loops budget (facets_for_loops is_planar loops budget)
  unfolding facets_for_loops Sound
  facets_for_loops-Sound [] budget =
      (record { planar = tt; whole = refl; kept = λ q. tt }, omega arith)
  facets_for_loops-Sound (loop ∷ loops) budget =
      and_then-Sound loop loops budget (split_facets is_planar max_split_depth loop budget)
        (facets_for_loops is_planar loops) (split_facets-Sound max_split_depth loop budget)
        (facets_for_loops-Sound loops)
