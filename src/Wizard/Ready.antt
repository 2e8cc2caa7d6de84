-- ===== src/Wizard/Ready.antt =====
-- What a batch of the wizard in mcp_server/skills/space_type_assignment/operations.py keeps.
use openstudio_mcp.Base.{
  ℕ, ◌≤◌, String, Bool, true, false, Option, none, some, List, [], ◌∷◌, ◌≡◌, inl, inr, refl, ap,
  length, contains, if◌then◌else◌, ==_refl, ==_sound, string_eq, ℕ_eq, arith, Bool-cases,
  Option-cases,
}
use openstudio_mcp.Wizard.{Row, State, find}
use openstudio_mcp.Wizard.Batches.{
  dedupe, find_fault, check_indices, resolve_row, resolve_rest, resolve_indices, assign_one,
}
use openstudio_mcp.Wizard.Covering.{
  count_key, count_key-remove, find-count_key, Covers, Covers-assign_one,
}

-- The indices of a batch that came past the tests: pending, and each once.
unfoldable pub Ready : State → List ℕ → Type 0
Ready s [] = Unit
Ready s (i ∷ is) = (1 ≤ count_key i s.pending) × ((contains is i ≡ false) × Ready s is)

unfoldable pub Pending : State → List ℕ → Type 0
Pending s [] = Unit
Pending s (i ∷ is) = (1 ≤ count_key i s.pending) × Pending s is

unfoldable pub Distinct : List ℕ → Type 0
Distinct [] = Unit
Distinct (i ∷ is) = (contains is i ≡ false) × Distinct is

contains-dedupe :
    (seen is : List ℕ) (i : ℕ) → contains seen i ≡ true → contains (dedupe seen is) i ≡ false
unfolding dedupe
contains-dedupe seen [] i h = refl
contains-dedupe seen (j ∷ is) i h = elim (Bool-cases (contains seen j)) [
  | inl y ↦ rw y (contains-dedupe seen is i h)
  | inr n ↦
      rw n (ground (arith, contains-dedupe (j ∷ seen) is i (ground (arith, h)), h, n, ==_sound i j))
]

pub dedupe-Distinct : (seen is : List ℕ) → Distinct (dedupe seen is)
unfolding dedupe Distinct
dedupe-Distinct seen [] = tt
dedupe-Distinct seen (i ∷ is) = elim (Bool-cases (contains seen i)) [
  | inl y ↦ rw y (dedupe-Distinct seen is)
  | inr n ↦
      rw n
        (contains-dedupe (i ∷ seen) is i (ground (arith, ==_refl i)), dedupe-Distinct (i ∷ seen) is)
]

find_fault-none :
    (s : State) (i : ℕ) (a : Option String) (p : Option Row)
    → find_fault s i a p ≡ none
    → (r : Row) × (p ≡ some r)
unfolding find_fault
find_fault-none s i (some a) p h = absurd (ground arith)
find_fault-none s i none none h = absurd (ground arith)
find_fault-none s i none (some r) h = (r, refl)

pub check_indices-Pending : (s : State) (is : List ℕ) → check_indices s is ≡ none → Pending s is
unfolding check_indices Pending
check_indices-Pending s [] h = tt
check_indices-Pending s (i ∷ is) h =
    elim (Option-cases (find_fault s i (find i s.assigned) (find i s.pending))) [
      | inr (f, bad) ↦ absurd (ground (arith, bad))
      | inl good ↦
          let (r, here) = find_fault-none s i (find i s.assigned) (find i s.pending) good in
          (
            find-count_key i s.pending r here,
            check_indices-Pending s is (rw (check_indices, good) at h),
          )
    ]

pub Ready-both : (s : State) (is : List ℕ) → Pending s is → Distinct is → Ready s is
unfolding Ready Pending Distinct
Ready-both s [] p d = tt
Ready-both s (i ∷ is) (p, ps) (d, ds) = (p, (d, Ready-both s is ps ds))

Ready-assign_one :
    (name : String) (s : State) (i : ℕ) (is : List ℕ)
    → contains is i ≡ false
    → Ready s is
    → Ready (assign_one name i s) is
unfolding Ready assign_one
Ready-assign_one name s i [] h r = tt
Ready-assign_one name s i (j ∷ is) h (p, (d, rs)) = (
  ground (arith, count_key-remove j i s.pending, h, p),
  (d, Ready-assign_one name s i is (ground (arith, h)) rs),
)

-- The indices of what was resolved.
unfoldable pub indices_of : List (ℕ × String) → List ℕ
indices_of [] = []
indices_of ((i, h) ∷ xs) = i ∷ indices_of xs

pub length-indices_of : (xs : List (ℕ × String)) → length (indices_of xs) ≡ length xs
unfolding indices_of
length-indices_of [] = refl
length-indices_of ((i, h) ∷ xs) = omega (arith, length-indices_of xs)

-- The batch as far as no `setSpaceType` raises, and what it makes of the wizard.
unfoldable pub ran : (String → Bool) → List (ℕ × String) → List (ℕ × String)
ran sets [] = []
ran sets ((i, h) ∷ xs) = let rest = ran sets xs in if sets h then (i, h) ∷ rest else []

unfoldable pub assign_each : String → List (ℕ × String) → State → State
assign_each name [] s = s
assign_each name ((i, h) ∷ xs) s = assign_each name xs (assign_one name i s)

contains-ran :
    (sets : String → Bool) (xs : List (ℕ × String)) (i : ℕ)
    → contains (indices_of xs) i ≡ false
    → contains (indices_of (ran sets xs)) i ≡ false
unfolding ran indices_of
contains-ran sets [] i h = refl
contains-ran sets ((j, k) ∷ xs) i h = elim (Bool-cases (sets k)) [
  | inl y ↦ rw y (ground (arith, contains-ran sets xs i, h))
  | inr n ↦ rw n refl
]

pub Ready-ran :
    (sets : String → Bool) (xs : List (ℕ × String)) (s : State)
    → Ready s (indices_of xs)
    → Ready s (indices_of (ran sets xs))
unfolding ran indices_of Ready
Ready-ran sets [] s r = tt
Ready-ran sets ((j, k) ∷ xs) s (p, (d, rs)) = elim (Bool-cases (sets k)) [
  | inl y ↦ rw y (p, (contains-ran sets xs j d, Ready-ran sets xs s rs))
  | inr n ↦ rw n tt
]

pub assign_each-Covers :
    (n : ℕ) (name : String) (xs : List (ℕ × String)) (s : State)
    → Ready s (indices_of xs)
    → Covers n s
    → Covers n (assign_each name xs s)
unfolding assign_each indices_of Ready
assign_each-Covers n name [] s r h = h
assign_each-Covers n name ((i, k) ∷ xs) s (p, (d, rs)) h =
    assign_each-Covers n name xs (assign_one name i s)
      (Ready-assign_one name s i (indices_of xs) d rs) (Covers-assign_one n name i s h p)

pub resolve_indices-all :
    (has_space : String → Bool) (s : State) (is : List ℕ)
    → (resolve_indices has_space s is).1 ≡ none
    → indices_of (resolve_indices has_space s is).0 ≡ is
unfolding resolve_indices resolve_rest resolve_row indices_of
resolve_indices-all has_space s [] h = refl
resolve_indices-all has_space s (i ∷ is) h = elim (Option-cases (find i s.pending)) [
  | inl gone ↦ absurd (ground (arith, gone))
  | inr (r, here) ↦ elim (Bool-cases (has_space r.handle)) [
    | inr lost ↦ absurd (ground (arith, here, lost))
    | inl there ↦
        rw (here, resolve_row, there, resolve_rest)
          (ap (λ xs. i ∷ xs)
            (resolve_indices-all has_space s is (rw (here, resolve_row, there, resolve_rest) at h)))
  ]
]
