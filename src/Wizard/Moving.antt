-- ===== src/Wizard/Moving.antt =====
-- What a batch of the wizard in mcp_server/skills/space_type_assignment/operations.py moves.
use openstudio_mcp.Base.{
  ℕ, String, Bool, true, Option, none, some, List, [], ◌∷◌, ◌++◌, ◌≡◌, inl, inr, refl, ap, ◌∙◌,
  contains, if◌then◌else◌, ◌==◌, ==_refl, ==_sound, string_eq, ℕ_eq, arith, Bool-cases,
  Option-cases, All,
}
use openstudio_mcp.Wizard.{Row, State, World, find, remove, set}
use openstudio_mcp.Wizard.Batches.{
  assign_one, assign_all, resolve_row, resolve_rest, resolve_indices,
}
use openstudio_mcp.Wizard.Ready.{indices_of, ran, assign_each}

-- The space types that are set, by the handles.
unfoldable pub typed_of : String → List (ℕ × String) → List (String × String)
typed_of name [] = []
typed_of name ((i, h) ∷ xs) = (h, name) ∷ typed_of name xs

abbrev handle_of : Option Row → Option String
handle_of none = none
handle_of (some r) = some r.handle

-- Each of the spaces is the one of its index in the table.
abbrev pub HaveHandles : State → List (ℕ × String) → Type 0
HaveHandles s xs = All (λ (i, h). handle_of (find i s.pending) ≡ some h) xs

-- Exactly these spaces, by index and handle, went from pending to assigned and got the type of that
-- name in the model.
pub record Moved (w : World) (name : String) (xs : List (ℕ × String)) (after : World) : Type 0 where
  pub before : State
  pub now : State
  pub had : w.wizard ≡ some before
  pub has : after.wizard ≡ some now
  pub typed : after.typed ≡ w.typed ++ typed_of name xs
  pub handles : HaveHandles before xs
  pub pending :
      (i : ℕ)
      → find i now.pending ≡ (if contains (indices_of xs) i then none else find i before.pending)
  pub assigned :
      (i : ℕ)
      → find i now.assigned
        ≡ (if contains (indices_of xs) i then some name else find i before.assigned)

module _ {V : Type 0} where
  find-remove :
      (i j : ℕ) (d : List (ℕ × V)) → find i (remove j d) ≡ (if i == j then none else find i d)
  unfolding find remove
  find-remove i j [] = ground arith
  find-remove i j ((k, v) ∷ d) = ground (arith, find-remove i j d)

  find-set :
      (i j : ℕ) (v : V) (d : List (ℕ × V))
      → find i (set j v d) ≡ (if i == j then some v else find i d)
  unfolding find set
  find-set i j v [] = refl
  find-set i j v ((k, w) ∷ d) = ground (arith, find-set i j v d)

eq_sym : (i j : ℕ) → (i == j) ≡ (j == i)
eq_sym i j = ground (arith, ==_sound i j, ==_sound j i, ==_refl i)

assign_each-pending :
    (name : String) (i : ℕ) (xs : List (ℕ × String)) (s : State)
    → find i (assign_each name xs s).pending
      ≡ (if contains (indices_of xs) i then none else find i s.pending)
unfolding assign_each indices_of assign_one
assign_each-pending name i [] s = refl
assign_each-pending name i ((j, h) ∷ xs) s = ground (
  arith,
  assign_each-pending name i xs (assign_one name j s),
  find-remove i j s.pending,
  eq_sym i j,
)

assign_each-assigned :
    (name : String) (i : ℕ) (xs : List (ℕ × String)) (s : State)
    → find i (assign_each name xs s).assigned
      ≡ (if contains (indices_of xs) i then some name else find i s.assigned)
unfolding assign_each indices_of assign_one
assign_each-assigned name i [] s = refl
assign_each-assigned name i ((j, h) ∷ xs) s = ground (
  arith,
  assign_each-assigned name i xs (assign_one name j s),
  find-set i j name s.assigned,
  eq_sym i j,
)

append_assoc :
    (xs ys : List (String × String)) (y : String × String) → (xs ++ (y ∷ [])) ++ ys ≡ xs ++ (y ∷ ys)
append_assoc [] ys y = refl
append_assoc (x ∷ xs) ys y = ap (λ zs. x ∷ zs) (append_assoc xs ys y)

append-nil : (xs : List (String × String)) → xs ≡ xs ++ []
append-nil [] = refl
append-nil (x ∷ xs) = ap (λ zs. x ∷ zs) (append-nil xs)

pub assign_all-typed :
    (sets : String → Bool) (name : String) (xs : List (ℕ × String)) (w : World) (s : State)
    → (assign_all sets name xs (w, s)).1.typed ≡ w.typed ++ typed_of name (ran sets xs)
unfolding assign_all typed_of ran
assign_all-typed sets name [] w s = append-nil w.typed
assign_all-typed sets name ((i, h) ∷ xs) w s = elim (Bool-cases (sets h)) [
  | inr n ↦ rw (n, assign_all) (append-nil w.typed)
  | inl y ↦
      rw (y, assign_all)
        (assign_all-typed sets name xs (record w { typed = w.typed ++ ((h, name) ∷ []) })
            (assign_one name i s)
          ∙ append_assoc w.typed (typed_of name (ran sets xs)) (h, name))
]

pub assign_all-ran :
    (sets : String → Bool) (name : String) (xs : List (ℕ × String)) (w : World) (s : State)
    → (assign_all sets name xs (w, s)).2 ≡ assign_each name (ran sets xs) s
unfolding assign_all assign_each ran
assign_all-ran sets name [] w s = refl
assign_all-ran sets name ((i, h) ∷ xs) w s = elim (Bool-cases (sets h)) [
  | inr n ↦ rw (n, assign_all) refl
  | inl y ↦
      rw (y, assign_all)
        (assign_all-ran sets name xs (record w { typed = w.typed ++ ((h, name) ∷ []) })
          (assign_one name i s))
]

pub assign_all-true :
    (sets : String → Bool) (name : String) (xs : List (ℕ × String)) (w : World) (s : State)
    → (assign_all sets name xs (w, s)).0 ≡ true
    → ran sets xs ≡ xs
unfolding assign_all ran
assign_all-true sets name [] w s h = refl
assign_all-true sets name ((i, k) ∷ xs) w s h = elim (Bool-cases (sets k)) [
  | inr n ↦ absurd (ground (arith, rw (n, assign_all) at h))
  | inl y ↦ rw y (
      ap (λ zs. (i, k) ∷ zs)
        (assign_all-true sets name xs (record w { typed = w.typed ++ ((k, name) ∷ []) })
          (assign_one name i s) (rw (y, assign_all) at h)))
]

ran-HaveHandles :
    (sets : String → Bool) (s : State) (xs : List (ℕ × String))
    → HaveHandles s xs
    → HaveHandles s (ran sets xs)
unfolding ran
ran-HaveHandles sets s [] h = tt
ran-HaveHandles sets s ((i, k) ∷ xs) (e, h) = elim (Bool-cases (sets k)) [
  | inl y ↦ rw y (e, ran-HaveHandles sets s xs h)
  | inr n ↦ rw n tt
]

pub resolve_indices-HaveHandles :
    (has_space : String → Bool) (s : State) (is : List ℕ)
    → HaveHandles s (resolve_indices has_space s is).0
unfolding resolve_indices resolve_rest resolve_row
resolve_indices-HaveHandles has_space s [] = tt
resolve_indices-HaveHandles has_space s (i ∷ is) = elim (Option-cases (find i s.pending)) [
  | inl gone ↦ rw (gone, resolve_row, resolve_rest) tt
  | inr (r, here) ↦ elim (Bool-cases (has_space r.handle)) [
    | inr lost ↦ rw (here, resolve_row, lost, resolve_rest) tt
    | inl there ↦
        rw (here, resolve_row, there, resolve_rest)
          (ap handle_of here, resolve_indices-HaveHandles has_space s is)
  ]
]

-- The third loop moves the spaces that it came to.
pub assign_all-Moved :
    (sets : String → Bool) (name : String) (xs : List (ℕ × String)) (w : World) (s : State)
    → w.wizard ≡ some s
    → HaveHandles s xs
    → let r = assign_all sets name xs (w, s) in
      Moved w name (ran sets xs) (record r.1 { wizard = some r.2 })
assign_all-Moved sets name xs w s here handles =
    let e = assign_all-ran sets name xs w s in
    record {
      before = s;
      now = (assign_all sets name xs (w, s)).2;
      had = here;
      has = refl;
      typed = assign_all-typed sets name xs w s;
      handles = ran-HaveHandles sets s xs handles;
      pending = λ i. ap (λ t. find i t.pending) e ∙ assign_each-pending name i (ran sets xs) s;
      assigned = λ i. ap (λ t. find i t.assigned) e ∙ assign_each-assigned name i (ran sets xs) s;
    }

pub typed_nil : (xs : List (String × String)) (name : String) → xs ≡ xs ++ typed_of name []
unfolding typed_of
typed_nil xs name = append-nil xs
