-- ===== src/Facets/Cuts.antt =====
-- The chords of an outline, of mcp_server/skills/geometry/planar_facets.py.
use openstudio_mcp.Base.{
  ℕ, zero, suc, ◌+◌, ◌-◌, ◌≤◌, ◌<◌, true, List, [], ◌∷◌, ◌++◌, ◌≡◌, inl, inr, length, length-append,
  length-take, length-drop, take, drop, ltb, ℕ_eq, All, arith, Bool-cases,
}
use openstudio_mcp.Facets.{
  arc1_of, arc2_of, is_candidate, from_i, from_all, insert_arc, sort_arcs, candidates,
}

nothing : (a b : ℕ) → ltb a b ≡ true → a - b ≡ 0
nothing a b h = ground arith

pub All-append {ℓ κ} :
    {A : Type ℓ} (R : A → Type κ) (xs ys : List A) → All R xs → All R ys → All R (xs ++ ys)
All-append R [] ys h g = g
All-append R (x ∷ xs) ys (q, h) g = (q, All-append R xs ys h g)

module _ {ℓ} {P : Type ℓ} (Q : P → Type 0) where
  All-take : (n : ℕ) (xs : List P) → All Q xs → All Q (take n xs)
  All-take zero xs h = tt
  All-take (suc n) [] h = tt
  All-take (suc n) (x ∷ xs) (q, h) = (q, All-take n xs h)

  All-drop : (n : ℕ) (xs : List P) → All Q xs → All Q (drop n xs)
  All-drop zero xs h = h
  All-drop (suc n) [] h = tt
  All-drop (suc n) (x ∷ xs) (q, h) = All-drop n xs h

  -- Two arcs that a chord makes of an outline: it is a side of both, and each has a side more.
  pub record IsChord (loop : List P) (c : List P × List P) : Type ℓ where
    pub sides : length c.0 + length c.1 ≡ length loop + 2
    pub wide : 3 ≤ length c.0
    pub wide_rest : 3 ≤ length c.1
    pub kept : All Q loop → All Q c.0 × All Q c.1

  arcs_IsChord :
      (i j : ℕ) (loop : List P)
      → i < j
      → j < length loop
      → is_candidate i j loop ≡ true
      → IsChord loop (arc1_of i j loop, arc2_of i j loop)
  unfolding is_candidate arc1_of arc2_of
  arcs_IsChord i j loop lt end h =
      let one = length-take (suc j - i) (drop i loop) in
      let two = length-drop i loop in
      let both = length-append (drop j loop) (take (suc i) loop) in
      let three = length-drop j loop in
      let four = length-take (suc i) loop in
      record {
        sides = omega arith;
        wide = ground arith;
        wide_rest = ground arith;
        kept = λ q. (
          All-take (suc j - i) (drop i loop) (All-drop i loop q),
          All-append Q (drop j loop) (take (suc i) loop) (All-drop j loop q)
              (All-take (suc i) loop q),
        );
      }

  from_i-IsChord :
      (i j count : ℕ) (loop : List P)
      → i < j
      → j + count ≤ length loop
      → All (IsChord loop) (from_i i j count loop)
  unfolding from_i
  from_i-IsChord i j zero loop lt end = tt
  from_i-IsChord i j (suc count) loop lt end =
      let rest = from_i-IsChord i (suc j) count loop (omega arith) (omega arith) in
      elim (Bool-cases (is_candidate i j loop)) [
        | inl y ↦ rw y (arcs_IsChord i j loop lt (omega arith) y, rest)
        | inr n ↦ rw n rest
      ]

  row-IsChord :
      (i : ℕ) (loop : List P) → All (IsChord loop) (from_i i (i + 2) (length loop - (i + 2)) loop)
  unfolding from_i
  row-IsChord i loop = elim (Bool-cases (ltb (length loop) (i + 2))) [
    | inl y ↦ rw (nothing (length loop) (i + 2) y) tt
    | inr n ↦
        from_i-IsChord i (i + 2) (length loop - (i + 2)) loop (omega arith) (ground (arith, n))
  ]

  from_all-IsChord : (i count : ℕ) (loop : List P) → All (IsChord loop) (from_all i count loop)
  unfolding from_all
  from_all-IsChord i zero loop = tt
  from_all-IsChord i (suc count) loop =
      All-append (IsChord loop) (from_i i (i + 2) (length loop - (i + 2)) loop)
        (from_all (suc i) count loop) (row-IsChord i loop) (from_all-IsChord (suc i) count loop)

  insert_arc-IsChord :
      (loop : List P) (c : List P × List P) (cs : List (List P × List P))
      → IsChord loop c
      → All (IsChord loop) cs
      → All (IsChord loop) (insert_arc c cs)
  unfolding insert_arc
  insert_arc-IsChord loop c [] h hs = (h, tt)
  insert_arc-IsChord loop c (d ∷ ds) h (g, hs) = elim (Bool-cases (ltb (length c.0) (length d.0))) [
    | inl y ↦ rw y (g, insert_arc-IsChord loop c ds h hs)
    | inr n ↦ rw n (h, (g, hs))
  ]

  sort_arcs-IsChord :
      (loop : List P) (cs : List (List P × List P))
      → All (IsChord loop) cs
      → All (IsChord loop) (sort_arcs cs)
  unfolding sort_arcs
  sort_arcs-IsChord loop [] h = tt
  sort_arcs-IsChord loop (c ∷ cs) (h, hs) =
      insert_arc-IsChord loop c (sort_arcs cs) h (sort_arcs-IsChord loop cs hs)

  pub candidates-IsChord : (loop : List P) → All (IsChord loop) (candidates loop)
  unfolding candidates
  candidates-IsChord loop =
      sort_arcs-IsChord loop (from_all 0 (length loop) loop) (from_all-IsChord 0 (length loop) loop)
