-- ===== src/Outline/Ends.antt =====
-- How the loop of `_trace_simple_loop` of mcp_server/skills/geometry/edge_topology.py ends.
use openstudio_mcp.Base.{
  ℕ, zero, suc, ◌+◌, ◌≤◌, ◌<◌, Option, none, some, List, [], ◌∷◌, ◌≡◌, ◌⊎◌, inl, inr, refl, subst,
  length, leb, ◌==◌, ==_sound, ℕ_eq, arith, Bool-cases,
}
use openstudio_mcp.Outline.{
  Edge, all_two, Walk, Traced, loop_of, no_loop, out_of_fuel, drop_last, close, next_edge, step_to,
  Round, ended, goes_on, onward, walk_round, walk_edges, trace_simple_loop,
}
use openstudio_mcp.Outline.Tracks.{Track, begins, On, length-Track, length-drop_last, step_to-On}

-- What the loop's end makes of a walk.
abbrev pub Outcome : List Edge → ℕ → Traced → Type 0
Outcome es start t =
    (t ≡ no_loop)
    ⊎ ((used : List ℕ) × (ordered : List ℕ) × Track es start used ordered start
        × (length used ≡ length es)
        × (t ≡ loop_of (drop_last ordered))
        × (length (drop_last ordered) ≡ length es))

close-Outcome :
    (es : List Edge) (start : ℕ) (w : Walk)
    → w.current ≡ start
    → On es start w
    → Outcome es start (close es w)
unfolding close
close-Outcome es start w home on = elim (Bool-cases (length w.used == length es)) [
  | inl y ↦
      let full = ==_sound (length w.used) (length es) y in
      inr (
        w.used,
        w.ordered,
        subst (λ c. Track es start w.used w.ordered c) home on,
        full,
        rw y refl,
        omega (arith, length-drop_last w.ordered, length-Track on, full),
      )
  | inr n ↦ inl (rw n refl)
]

-- What one round leaves: the loop's outcome, or a walk that is one edge longer.
RoundIsGood : List Edge → ℕ → Walk → Round → Type 0
RoundIsGood es start w (ended t) = Outcome es start t
RoundIsGood es start w (goes_on w') =
    On es start w' × (length w'.used ≡ suc (length w.used)) × (length w.used < length es)

onward-RoundIsGood :
    (es : List Edge) (start : ℕ) (w : Walk) (o : Option Walk)
    → ((w' : Walk) → o ≡ some w' → On es start w' × (length w'.used ≡ suc (length w.used)))
    → length w.used < length es
    → RoundIsGood es start w (onward o)
unfolding onward RoundIsGood
onward-RoundIsGood es start w none step room = inl refl
onward-RoundIsGood es start w (some w') step room =
    let (on, longer) = step w' refl in (on, longer, room)

walk_round-RoundIsGood :
    (es : List Edge) (start : ℕ) (w : Walk)
    → On es start w
    → RoundIsGood es start w (walk_round es start w)
unfolding walk_round RoundIsGood
walk_round-RoundIsGood es start w on = elim (Bool-cases (w.current == start)) [
  | inl home ↦ rw home (close-Outcome es start w (==_sound w.current start home) on)
  | inr away ↦ elim (Bool-cases (leb (length es) (length w.used))) [
    | inl all_used ↦ rw (away, all_used) (inl refl)
    | inr room ↦
        rw (away, room)
          (onward-RoundIsGood es start w (step_to es w (next_edge es w))
            (λ w'. step_to-On es start w w' (next_edge es w) refl on) (ground (arith, room)))
  ]
]

last_round :
    (es : List Edge) (start : ℕ) (w : Walk) (r : Round)
    → RoundIsGood es start w r
    → length es ≤ length w.used
    → Outcome es start (elim r [ ended t ↦ t | goes_on w' ↦ out_of_fuel ])
unfolding RoundIsGood
last_round es start w (ended t) good full = good
last_round es start w (goes_on w') (on, longer, room) full = absurd (omega (arith, room, full))

more_rounds :
    (es : List Edge) (start fuel : ℕ) (w : Walk) (r : Round)
    → ((w' : Walk)
        → On es start w'
        → length es ≤ fuel + length w'.used
        → Outcome es start (walk_edges es start fuel w'))
    → RoundIsGood es start w r
    → length es ≤ suc (fuel + length w.used)
    → Outcome es start (elim r [ ended t ↦ t | goes_on w' ↦ walk_edges es start fuel w' ])
unfolding RoundIsGood
more_rounds es start fuel w (ended t) rest good enough = good
more_rounds es start fuel w (goes_on w') rest (on, longer, room) enough =
    rest w' on (omega (arith, longer, enough))

walk_edges-Outcome :
    (es : List Edge) (start fuel : ℕ) (w : Walk)
    → On es start w
    → length es ≤ fuel + length w.used
    → Outcome es start (walk_edges es start fuel w)
unfolding walk_edges
walk_edges-Outcome es start zero w on enough =
    last_round es start w (walk_round es start w) (walk_round-RoundIsGood es start w on)
      (omega (arith, enough))
walk_edges-Outcome es start (suc fuel) w on enough =
    more_rounds es start fuel w (walk_round es start w) (walk_edges-Outcome es start fuel)
      (walk_round-RoundIsGood es start w on) (omega (arith, enough))

-- `start_of pairs` is `pairs[0][0]`.
abbrev pub start_of : List Edge → ℕ
start_of [] = 0
start_of ((s, e) ∷ es) = s

-- The loop always ends, on as much fuel as there are edges. It gives nothing, or the points of a walk
-- from the first edge's start back to it that takes every edge once: as many points as edges.
pub trace_simple_loop-Outcome : (es : List Edge) → Outcome es (start_of es) (trace_simple_loop es)
unfolding trace_simple_loop
trace_simple_loop-Outcome [] = inl refl
trace_simple_loop-Outcome ((s, e) ∷ es) = elim (Bool-cases (all_two ((s, e) ∷ es) ((s, e) ∷ es))) [
  | inl even ↦ rw even (
      walk_edges-Outcome ((s, e) ∷ es) s (length es)
        (record { used = 0 ∷ []; ordered = s ∷ (e ∷ []); current = e; prev = 0 })
        (begins e (inl refl)) (omega arith))
  | inr odd ↦ inl (rw odd refl)
]
