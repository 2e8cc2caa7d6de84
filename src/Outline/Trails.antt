-- ===== src/Outline/Trails.antt =====
-- What the walks of `_trace_with_pairing` of mcp_server/skills/geometry/edge_topology.py are.
use openstudio_mcp.Base.{
  ℕ, zero, suc, ◌+◌, ◌≤◌, false, Option, none, some, List, [], ◌∷◌, ◌++◌, ◌≡◌, ◌⊎◌, inl, inr, refl,
  sym, ap, ◌∙◌, subst, length, length-append, contains, get_elem?, ◌==◌, ==_sound, ℕ_eq, arith,
  Bool-cases, All, Option-cases,
}
use mathlib.Core.Option.{some_inj}
use openstudio_mcp.Outline.{Edge, Walk, drop_last, other_end, follow, step_to}
use openstudio_mcp.Outline.Tracks.{
  Track, begins, extends, Joins, Joins-other_end, next_edge-ends, length-drop_last,
}
use openstudio_mcp.Outline.Branch.{partner_of, if_unused, paired_edge, close_walk}

-- The edge of that index ends at that point.
abbrev pub Touches : List Edge → ℕ → ℕ → Type 0
Touches es k i = (s : ℕ) × (e : ℕ) × (get_elem? es i ≡ some (s, e)) × ((s ≡ k) ⊎ (e ≡ k))

-- A walk from a point, by edges that are not among the old ones and each of them new.
pub data Trail (es : List Edge) (start : ℕ) (old : List ℕ) : List ℕ → List ℕ → ℕ → Type 0 where
  sets_out :
      (i e : ℕ)
      → Joins es i start e
      → contains old i ≡ false
      → Trail es start old (i ∷ old) (start ∷ (e ∷ [])) e
  goes :
      (used ordered : List ℕ) (c i d : ℕ)
      → Trail es start old used ordered c
      → Joins es i c d
      → contains used i ≡ false
      → Trail es start old (i ∷ used) (ordered ++ (d ∷ [])) d

pub Track-Trail :
    {es : List Edge} {start : ℕ} {used ordered : List ℕ} {c : ℕ}
    → Track es start used ordered c
    → Trail es start [] used ordered c
Track-Trail (begins e j) = sets_out 0 e j refl
Track-Trail (extends used ordered c i d t j fresh) = goes used ordered c i d (Track-Trail t) j fresh

-- Closed walks one after the other, with the edges that they use in all.
pub data Loops (es : List Edge) : List ℕ → List (List ℕ) → Type 0 where
  no_loops : Loops es [] []
  one_more :
      (old used ordered : List ℕ) (loops : List (List ℕ)) (start : ℕ)
      → Loops es old loops
      → Trail es start old used ordered start
      → Loops es used (loops ++ (drop_last ordered ∷ []))

length-Trail :
    {es : List Edge} {start : ℕ} {old used ordered : List ℕ} {c : ℕ}
    → Trail es start old used ordered c
    → length used + 1 ≡ length ordered + length old
length-Trail (sets_out i e j fresh) = omega arith
length-Trail (goes used ordered c i d t j fresh) =
    omega (arith, length-append ordered (d ∷ []), length-Trail t)

-- How many points some outlines have in all.
unfoldable pub points : List (List ℕ) → ℕ
points [] = 0
points (l ∷ ls) = length l + points ls

points-append : (ls ms : List (List ℕ)) → points (ls ++ ms) ≡ points ls + points ms
unfolding points
points-append [] ms = omega arith
points-append (l ∷ ls) ms = omega (arith, points-append ls ms)

Trail-pos :
    {es : List Edge} {start : ℕ} {old used ordered : List ℕ} {c : ℕ}
    → Trail es start old used ordered c
    → 2 ≤ length ordered
Trail-pos (sets_out i e j fresh) = omega arith
Trail-pos (goes used ordered c i d t j fresh) =
    omega (arith, length-append ordered (d ∷ []), Trail-pos t)

pub points-Loops :
    {es : List Edge} {used : List ℕ} {loops : List (List ℕ)}
    → Loops es used loops
    → points loops ≡ length used
unfolding points
points-Loops no_loops = refl
points-Loops (one_more old used ordered loops start h t) = omega (
  arith,
  points-append loops (drop_last ordered ∷ []),
  length-drop_last ordered,
  length-Trail t,
  Trail-pos t,
  points-Loops h,
)

-- Both edges of each pair end at the point.
abbrev pub PairsTouch : List Edge → ℕ → List (ℕ × ℕ) → Type 0
PairsTouch es k pairing = All (λ (a, b). Touches es k a × Touches es k b) pairing

partner_of-Touches :
    (es : List Edge) (k i p : ℕ) (pairing : List (ℕ × ℕ))
    → PairsTouch es k pairing
    → partner_of pairing i ≡ some p
    → Touches es k p
unfolding partner_of
partner_of-Touches es k i p [] h found = absurd (ground (arith, found))
partner_of-Touches es k i p ((a, b) ∷ pairing) ((ta, tb), h) found =
    elim (Option-cases (partner_of pairing i)) [
      | inr (q, later) ↦ partner_of-Touches es k i p pairing h (later ∙ (rw later at found))
      | inl missing ↦ elim (Bool-cases (i == b)) [
        | inl at_b ↦ subst (Touches es k) (some_inj.0 (rw (missing, at_b) at found)) ta
        | inr not_b ↦ elim (Bool-cases (i == a)) [
          | inl at_a ↦ subst (Touches es k) (some_inj.0 (rw (missing, not_b, at_a) at found)) tb
          | inr not_a ↦ absurd (ground (arith, missing, not_b, not_a, found))
        ]
      ]
    ]

if_unused-some :
    (used : List ℕ) (o : Option ℕ) (i : ℕ)
    → if_unused used o ≡ some i
    → (contains used i ≡ false) × (o ≡ some i)
unfolding if_unused
if_unused-some used none i h = absurd (ground (arith, h))
if_unused-some used (some j) i h = elim (Bool-cases (contains used j)) [
  | inl y ↦ absurd (ground (arith, y, h))
  | inr n ↦
      let same = some_inj.0 (rw n at h) in
      (subst (λ x. contains used x ≡ false) same n, ap some same)
]

paired_edge-ends :
    (es : List Edge) (branch : ℕ) (pairing : List (ℕ × ℕ)) (w : Walk) (i : ℕ)
    → PairsTouch es branch pairing
    → paired_edge es branch pairing w ≡ some i
    → (contains w.used i ≡ false) × Touches es w.current i
unfolding paired_edge
paired_edge-ends es branch pairing w i h found = elim (Bool-cases (w.current == branch)) [
  | inl y ↦
      let (fresh, partner) = if_unused-some w.used (partner_of pairing w.prev) i (rw y at found) in
      (
        fresh,
        subst (λ k. Touches es k i) (sym (==_sound w.current branch y))
            (partner_of-Touches es branch w.prev i pairing h partner),
      )
  | inr n ↦
      let (fresh, s, e, at, ends) = next_edge-ends es w i (rw n at found) in
      (fresh, (s, e, at, ends))
]

-- A walk as the loop has it.
abbrev pub OnTrail : List Edge → ℕ → List ℕ → Walk → Type 0
OnTrail es start old w = Trail es start old w.used w.ordered w.current

step_to-OnTrail :
    (es : List Edge) (start : ℕ) (old : List ℕ) (w w' : Walk) (o : Option ℕ)
    → ((i : ℕ) → o ≡ some i → (contains w.used i ≡ false) × Touches es w.current i)
    → OnTrail es start old w
    → step_to es w o ≡ some w'
    → OnTrail es start old w'
unfolding step_to follow
step_to-OnTrail es start old w w' none ends on h = absurd (ground (arith, h))
step_to-OnTrail es start old w w' (some i) ends on h =
    let (fresh, (s, e, at, touch)) = ends i refl in
    let step : some (follow i w (s, e)) ≡ some w' = rw (at, step_to) at h in
    subst (OnTrail es start old) (some_inj.0 step) (
      goes w.used w.ordered w.current i (other_end w.current (s, e)) on
        (Joins-other_end es i w.current s e at touch) fresh)

-- Where the walk closes, it is a walk from the start back to it.
pub close_walk-Trail :
    (es : List Edge) (branch : ℕ) (pairing : List (ℕ × ℕ)) (start rounds : ℕ) (old : List ℕ)
    (w w' : Walk)
    → PairsTouch es branch pairing
    → OnTrail es start old w
    → close_walk es branch pairing start rounds w ≡ some w'
    → Trail es start old w'.used w'.ordered start
unfolding close_walk
close_walk-Trail es branch pairing start zero old w w' h on closed = absurd (ground (arith, closed))
close_walk-Trail es branch pairing start (suc rounds) old w w' h on closed =
    elim (Bool-cases (w.current == start)) [
      | inl home ↦
          let same = some_inj.0 (rw (home, close_walk) at closed) in
          subst (λ w'. Trail es start old w'.used w'.ordered start) same
            (subst (Trail es start old w.used w.ordered) (==_sound w.current start home) on)
      | inr away ↦
          let next = paired_edge es branch pairing w in
          elim (Option-cases (step_to es w next)) [
            | inl stuck ↦ absurd (ground (arith, rw (away, stuck, close_walk) at closed))
            | inr (w'', step) ↦
                close_walk-Trail es branch pairing start rounds old w'' w' h
                  (step_to-OnTrail es start old w w'' next
                    (λ i. paired_edge-ends es branch pairing w i h) on step)
                  (rw (away, step, close_walk) at closed)
          ]
    ]
