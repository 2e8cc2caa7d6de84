-- ===== src/Outline/Tracks.antt =====
-- What `_trace_simple_loop` of mcp_server/skills/geometry/edge_topology.py walks.
use openstudio_mcp.Base.{
  ℕ, suc, ◌-◌, ◌≤◌, true, false, not, Option, none, some, List, [], ◌∷◌, ◌++◌, ◌≡◌, ◌⊎◌, inl, inr,
  refl, ap, ◌∙◌, subst, length, length-append, contains, contains-keep, get_elem?, ◌==◌, ==_refl,
  ==_sound, ℕ_eq, keep, arith, Bool-cases,
}
use mathlib.Core.Option.{some_inj}
use openstudio_mcp.Outline.{
  Edge, adjacency, Walk, drop_last, other_end, follow, only_unused, next_edge, step_to,
}

-- The edge of that index joins two points.
abbrev pub Joins : List Edge → ℕ → ℕ → ℕ → Type 0
Joins es i a b = (get_elem? es i ≡ some (a, b)) ⊎ (get_elem? es i ≡ some (b, a))

-- A walk from a point over edges, each of them new: the edges, latest first, the points, and the last
-- of these.
pub data Track (es : List Edge) (start : ℕ) : List ℕ → List ℕ → ℕ → Type 0 where
  begins : (e : ℕ) → Joins es 0 start e → Track es start (0 ∷ []) (start ∷ (e ∷ [])) e
  extends :
      (used ordered : List ℕ) (c i d : ℕ)
      → Track es start used ordered c
      → Joins es i c d
      → contains used i ≡ false
      → Track es start (i ∷ used) (ordered ++ (d ∷ [])) d

pub length-Track :
    {es : List Edge} {start c : ℕ} {used ordered : List ℕ}
    → Track es start used ordered c
    → length ordered ≡ suc (length used)
length-Track (begins e j) = refl
length-Track (extends used ordered c i d t j fresh) =
    omega (arith, length-append ordered (d ∷ []), length-Track t)

suc_of : (i b : ℕ) → suc b ≤ i → i - b ≡ suc (i - suc b)
suc_of i b h = omega arith

none_of : (i b : ℕ) → i ≡ b → i - b ≡ 0
none_of i b h = omega arith

pub length-drop_last : (ps : List ℕ) → suc (length (drop_last ps)) ≡ suc (length ps - 1)
unfolding drop_last
length-drop_last [] = omega arith
length-drop_last (p ∷ []) = omega arith
length-drop_last (p ∷ (q ∷ ps)) = omega (arith, length-drop_last (q ∷ ps))

later_elem :
    (i b : ℕ) (x : Edge) (es : List Edge)
    → suc b ≤ i
    → get_elem? (x ∷ es) (i - b) ≡ get_elem? es (i - suc b)
later_elem i b x es h = ap (get_elem? (x ∷ es)) (suc_of i b h)

here_elem : (i b : ℕ) (x : Edge) (es : List Edge) → i ≡ b → get_elem? (x ∷ es) (i - b) ≡ some x
here_elem i b x es h = ap (get_elem? (x ∷ es)) (none_of i b h)

-- An index that `adjacency` lists is of an edge that ends there.
adjacency-end :
    (k b i : ℕ) (es : List Edge)
    → contains (adjacency k b es) i ≡ true
    → (b ≤ i) × (s : ℕ) × (e : ℕ) × (get_elem? es (i - b) ≡ some (s, e)) × ((s ≡ k) ⊎ (e ≡ k))
unfolding adjacency
adjacency-end k b i [] h = absurd (ground arith)
adjacency-end k b i ((s, e) ∷ es) h = elim (Bool-cases (contains (adjacency k (suc b) es) i)) [
  | inl later ↦
      let (le, s', e', found, ends) = adjacency-end k (suc b) i es later in
      (omega arith, s', e', later_elem i b (s, e) es le ∙ found, ends)
  | inr not_later ↦ elim (Bool-cases (s == k)) [
    | inl at_start ↦
        let same : i ≡ b = ground (arith, at_start, not_later, h) in
        (omega (arith, same), s, e, here_elem i b (s, e) es same, inl (==_sound s k at_start))
    | inr other ↦ elim (Bool-cases (e == k)) [
      | inl at_end ↦
          let same : i ≡ b = ground (arith, other, at_end, not_later, h) in
          (omega (arith, same), s, e, here_elem i b (s, e) es same, inr (==_sound e k at_end))
      | inr neither ↦ absurd (ground (arith, other, neither, not_later))
    ]
  ]
]

only_unused-some :
    (used is : List ℕ) (i : ℕ)
    → only_unused used is ≡ some i
    → (contains is i ≡ true) × (contains used i ≡ false)
unfolding only_unused
only_unused-some used [] i h = absurd (ground arith)
only_unused-some used (j ∷ (k ∷ is)) i h = absurd (ground arith)
only_unused-some used (j ∷ []) i h = elim (Bool-cases (contains used j)) [
  | inl y ↦ absurd (ground (arith, y))
  | inr n ↦
      let same = some_inj.0 (rw n at h) in
      (ground (arith, ==_refl i, same), subst (λ x. contains used x ≡ false) same n)
]

pub next_edge-ends :
    (es : List Edge) (w : Walk) (i : ℕ)
    → next_edge es w ≡ some i
    → (contains w.used i ≡ false)
      × (s : ℕ) × (e : ℕ) × (get_elem? es i ≡ some (s, e))
      × ((s ≡ w.current) ⊎ (e ≡ w.current))
unfolding next_edge
next_edge-ends es w i h =
    let all = adjacency w.current 0 es in
    let (one, fresh) = only_unused-some w.used (keep (λ i. not (i == w.prev)) all) i h in
    let (_, s, e, found, ends) =
      adjacency-end w.current 0 i es
        (ground (arith, contains-keep (λ i. not (i == w.prev)) all i, one)) in
    (fresh, s, e, ap (get_elem? es) (omega arith) ∙ found, ends)

Joins-from_start :
    (es : List Edge) (i k s e : ℕ) → get_elem? es i ≡ some (s, e) → s ≡ k → Joins es i k e
Joins-from_start es i k s e found same = inl (subst (λ x. get_elem? es i ≡ some (x, e)) same found)

Joins-from_end :
    (es : List Edge) (i k s e : ℕ) → get_elem? es i ≡ some (s, e) → e ≡ k → Joins es i k s
Joins-from_end es i k s e found same = inr (subst (λ x. get_elem? es i ≡ some (s, x)) same found)

at_end : (k s e : ℕ) → (s == k) ≡ false → (s ≡ k) ⊎ (e ≡ k) → e ≡ k
at_end k s e n (inl same) = absurd (ground (arith, n, same, ==_refl k))
at_end k s e n (inr same) = same

pub Joins-other_end :
    (es : List Edge) (i k s e : ℕ)
    → get_elem? es i ≡ some (s, e)
    → (s ≡ k) ⊎ (e ≡ k)
    → Joins es i k (other_end k (s, e))
unfolding other_end
Joins-other_end es i k s e found ends = elim (Bool-cases (s == k)) [
  | inl y ↦ rw y (Joins-from_start es i k s e found (==_sound s k y))
  | inr n ↦ rw n (Joins-from_end es i k s e found (at_end k s e n ends))
]

-- A walk from a point as the loop has it.
abbrev pub On : List Edge → ℕ → Walk → Type 0
On es start w = Track es start w.used w.ordered w.current

pub step_to-On :
    (es : List Edge) (start : ℕ) (w w' : Walk) (o : Option ℕ)
    → next_edge es w ≡ o
    → On es start w
    → step_to es w o ≡ some w'
    → On es start w' × (length w'.used ≡ suc (length w.used))
unfolding step_to follow
step_to-On es start w w' none none_next on h = absurd (ground (arith, h))
step_to-On es start w w' (some i) found on h =
    let (fresh, s, e, at, ends) = next_edge-ends es w i found in
    let step : some (follow i w (s, e)) ≡ some w' = rw (at, step_to) at h in
    subst (λ w'. On es start w' × (length w'.used ≡ suc (length w.used))) (some_inj.0 step)
      (
        extends w.used w.ordered w.current i (other_end w.current (s, e)) on
            (Joins-other_end es i w.current s e at ends) fresh,
        refl,
      )
