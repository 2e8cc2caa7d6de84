-- ===== src/Wizard/Batches.antt =====
-- `assign_space_type_batch` of mcp_server/skills/space_type_assignment/operations.py.
use openstudio_mcp.Base.{
  ℕ, String, Bool, true, false, Option, none, some, List, [], ◌∷◌, ◌++◌, length, contains,
  if◌then◌else◌, string_eq, ℕ_eq,
}
use openstudio_mcp.Wizard.{
  Row, Combo, State, Model, World, find, remove, set, Failure, none_given, choose_first,
  invalid_combo, already_assigned, not_pending, no_space, not_created, raised, Answer, failed,
  assigned_batch,
}
use openstudio_mcp.Wizard.Assign.{on_wizard, put_state, has_combo}

-- `dict.fromkeys(...)`: the first of each, in order.
unfoldable pub dedupe : List ℕ → List ℕ → List ℕ
dedupe seen [] = []
dedupe seen (i ∷ is) =
    let rest = dedupe (i ∷ seen) is in
    let same = dedupe seen is in if contains seen i then same else i ∷ rest

-- The first loop: the indices are pending.
unfoldable pub find_fault : State → ℕ → Option String → Option Row → Option Failure
find_fault s i (some name) row = some (already_assigned i name)
find_fault s i none none = some (not_pending i)
find_fault s i none (some row) = none

unfoldable pub check_indices : State → List ℕ → Option Failure
unfolding find_fault find
check_indices s [] = none
check_indices s (i ∷ is) =
    let rest = check_indices s is in
    elim (find_fault s i (find i s.assigned) (find i s.pending)) [ none ↦ rest | some f ↦ some f ]

-- The second loop: the spaces are in the model. The index is pending, so its row is there.
unfoldable pub resolve_row : (String → Bool) → ℕ → Option Row → Option (String × Option Failure)
resolve_row has_space i none = none
resolve_row has_space i (some r) =
    some (r.handle, if has_space r.handle then none else some (no_space i))

unfoldable pub resolve_rest :
    ℕ
    → Option (String × Option Failure)
    → List (ℕ × String) × Option Failure
    → List (ℕ × String) × Option Failure
resolve_rest i none rest = ([], some (not_pending i))
resolve_rest i (some (h, some f)) rest = ([], some f)
resolve_rest i (some (h, none)) (xs, f) = ((i, h) ∷ xs, f)

unfoldable pub resolve_indices :
    (String → Bool) → State → List ℕ → List (ℕ × String) × Option Failure
unfolding resolve_rest resolve_row find
resolve_indices has_space s [] = ([], none)
resolve_indices has_space s (i ∷ is) =
    let rest = resolve_indices has_space s is in
    resolve_rest i (resolve_row has_space i (find i s.pending)) rest

-- The third loop: each space gets its type.
unfoldable pub assign_one : String → ℕ → State → State
unfolding remove set
assign_one name i s = record s { pending = remove i s.pending; assigned = set i name s.assigned }

-- It ends early where `setSpaceType` raises.
unfoldable pub assign_all :
    (String → Bool) → String → List (ℕ × String) → World × State → Bool × World × State
unfolding assign_one
assign_all sets name [] (w, s) = (true, w, s)
assign_all sets name ((i, handle) ∷ xs) (w, s) = elim (sets handle) [
  | true ↦
      assign_all sets name xs
        (record w { typed = w.typed ++ ((handle, name) ∷ []) }, assign_one name i s)
  | false ↦ (false, w, s)
]

-- What `_get_or_create_space_type` returns: the name and whether it was there. `sets` tells for which
-- spaces `setSpaceType` does not raise.
pub record Made : Type 0 where
  pub name : String
  pub reused : Bool
  pub sets : String → Bool

unfoldable pub batch_answer : Made → ℕ → Bool → State → Answer
batch_answer made n true s = assigned_batch made.name made.reused n (length s.pending)
batch_answer made n false s = failed raised

-- After the tests.
unfoldable pub apply_batch : World → State → ℕ → List (ℕ × String) → Option Made → Answer × World
unfolding assign_all put_state batch_answer
apply_batch w s n xs none = (failed not_created, w)
apply_batch w s n xs (some made) =
    let (all_set, w', s') = assign_all made.sets made.name xs (w, s) in
    (batch_answer made n all_set s', put_state w' s')

unfoldable pub resolved_batch :
    World → State → ℕ → Option Made → List (ℕ × String) × Option Failure → Answer × World
unfolding apply_batch
resolved_batch w s n made (xs, some f) = (failed f, w)
resolved_batch w s n made (xs, none) = apply_batch w s n xs made

unfoldable pub checked_batch :
    (String → Bool) → World → State → List ℕ → Option Made → Option Failure → Answer × World
unfolding resolved_batch resolve_indices
checked_batch has_space w s is made (some f) = (failed f, w)
checked_batch has_space w s is made none =
    resolved_batch w s (length is) made (resolve_indices has_space s is)

unfoldable pub indexed_batch :
    (String → Bool) → World → State → Option Made → List ℕ → Answer × World
unfolding checked_batch check_indices
indexed_batch has_space w s made [] = (failed none_given, w)
indexed_batch has_space w s made (i ∷ is) =
    checked_batch has_space w s (i ∷ is) made (check_indices s (i ∷ is))

unfoldable pub combo_batch :
    (String → Bool) → World → State → Combo → List ℕ → Option Made → List Combo → Answer × World
unfolding indexed_batch dedupe has_combo
combo_batch has_space w s combo is made [] = (failed choose_first, w)
combo_batch has_space w s combo is made (c ∷ cs) =
    if has_combo combo (c ∷ cs)
    then indexed_batch has_space w s made (dedupe [] is)
    else (failed invalid_combo, w)

unfoldable pub assign_space_type_batch :
    Model → (String → Bool) → Option Made → Combo → List ℕ → World → Answer × World
unfolding on_wizard combo_batch
assign_space_type_batch model has_space made combo is w =
    on_wizard model w (λ s. combo_batch has_space w s combo is made s.valid_combos)
