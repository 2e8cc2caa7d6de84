-- ===== src/Wizard/Tests.antt =====
-- A wizard of two spaces, and the theorems there.
use openstudio_mcp.Base.{
  ℕ, ◌<◌, String, Bool, true, false, Option, none, some, List, [], ◌∷◌, ◌≡◌, refl, ◌==◌, ◌||◌,
  string_eq, arith,
}
use openstudio_mcp.Wizard.{
  Row, Combo, State, Model, World, stale, none_given, already_assigned, not_pending, no_space,
  raised, choose_first, unassigned, failed, assigned_batch, finished,
}
use openstudio_mcp.Wizard.Batches.{Made}
use openstudio_mcp.Wizard.Assign.{finish_space_type_wizard}
use openstudio_mcp.Wizard.Covering.{Covers, count_key}
use openstudio_mcp.Wizard.Keeping.{Has}
use openstudio_mcp.Wizard.Completion.{run-Covers, finish_space_type_wizard-all, step-stale}
use openstudio_mcp.Wizard.Pages.{read_pages}
use openstudio_mcp.Wizard.Steps.{Call, starts, templates, types, assigns, finishes, step, run}

abbrev row : String → Row
row h = record { handle = h; name = h; figures = "" }

abbrev model : Model
model = record {
  is_loaded = true;
  generation = 7;
  spaces = row "a" ∷ row "b" ∷ [];
  all_templates = "t" ∷ [];
  building_types_of = λ t. some ("b" ∷ []);
  space_types_of = λ t b. some ("s" ∷ []);
}

abbrev empty : World
empty = record { wizard = none; typed = [] }

abbrev combo : Combo
combo = ("t", "b", "s")

abbrev made_for : (String → Bool) → Made
made_for sets = record { name = "t - b - s"; reused = false; sets = sets }

-- A batch, where the space "b" may be gone.
abbrev batch : Bool → List ℕ → Call
batch has_b is = assigns (λ h. has_b || h == "a") (some (made_for (λ h. true))) combo is

-- The wizard with its choices made. To unfold it is to unfold what the tests compute with.
ready : World
unfolding run
ready =
    run ((model, starts) ∷ (model, templates ("t" ∷ [])) ∷ (model, types ("b" ∷ []) 1 40) ∷ [])
      empty

one : (step model (batch true (1 ∷ 1 ∷ [])) ready).0 ≡ assigned_batch "t - b - s" false 1 1
unfolding ready
one = refl

-- A stale handle fails the whole batch.
half : step model (batch false (0 ∷ 1 ∷ [])) ready ≡ (failed (no_space 1), ready)
unfolding ready
half = refl

-- The type of "b" cannot be set: the exception comes when "a" has its own.
broken :
    let r =
      step model (assigns (λ h. true) (some (made_for (λ h. h == "a"))) combo (0 ∷ 1 ∷ [])) ready in
    (r.0 ≡ failed raised) × (r.1.typed ≡ ("a", "t - b - s") ∷ [])
unfolding ready
broken = (refl, refl)

elsewhere : (step model (batch true (0 ∷ 2 ∷ [])) ready).0 ≡ failed (not_pending 2)
unfolding ready
elsewhere = refl

twice :
    (step model (batch true (1 ∷ [])) (step model (batch true (1 ∷ [])) ready).1).0
    ≡ failed (already_assigned 1 "t - b - s")
unfolding ready
twice = refl

nothing : (step model (batch true []) ready).0 ≡ failed none_given
unfolding ready
nothing = refl

early : (step model (finishes (some "m.osm") false) ready).0 ≡ failed (unassigned 2)
unfolding ready
early = refl

unready : (step model (batch true (0 ∷ [])) (step model starts empty).1).0 ≡ failed choose_first
unfolding ready
unready = refl

-- Both spaces are assigned.
complete : World
unfolding ready
complete = (step model (batch true (0 ∷ 1 ∷ [])) ready).1

done : (finish_space_type_wizard model (some "m.osm") false complete).0 ≡ finished "m.osm" 2 0
unfolding complete ready
done = refl

abbrev other : Model
other = record model { generation = 8 }

empty-Has : Has 0 empty.wizard
unfolding Has
empty-Has = tt

run-Covers_example :
    (n : ℕ) × Has n (run ((model, starts) ∷ (model, batch true (0 ∷ [])) ∷ []) empty).wizard
run-Covers_example =
    run-Covers ((model, starts) ∷ (model, batch true (0 ∷ [])) ∷ []) empty 0 empty-Has

-- The wizard of `complete`, with the two spaces assigned.
abbrev assigned_both : State
assigned_both = record {
  model_generation = 7;
  pending = [];
  assigned = (0, "t - b - s") ∷ (1, "t - b - s") ∷ [];
  templates = "t" ∷ [];
  building_types = "b" ∷ [];
  valid_combos = combo ∷ [];
}

assigned_both-Covers : Covers 2 assigned_both
unfolding count_key
assigned_both-Covers = record { each = λ i. ground arith; sized = refl }

complete-Has : Has 2 complete.wizard
unfolding complete ready Has
complete-Has = assigned_both-Covers

finish_space_type_wizard-all_example :
    (◌≡◌ {A = ℕ} 2 2)
    × (◌≡◌ {A = ℕ} 0 0)
    × (◌≡◌ {A = Option String} (some "m.osm") (some "m.osm"))
    × ((s : State) × (complete.wizard ≡ some s) × ((i : ℕ) → i < 2 → count_key i s.assigned ≡ 1))
    × ((finish_space_type_wizard model (some "m.osm") false complete).1.wizard ≡ none)
finish_space_type_wizard-all_example =
    finish_space_type_wizard-all model complete 2 (some "m.osm") "m.osm" 2 0 complete-Has done

complete_wizard : complete.wizard ≡ some assigned_both
unfolding complete ready
complete_wizard = refl

step-stale_example : step other (batch true (0 ∷ [])) complete ≡ (failed stale, complete)
step-stale_example =
    step-stale other complete assigned_both (batch true (0 ∷ [])) tt refl complete_wizard
      (ground arith)

-- Three pending spaces in pages of two.
abbrev three : State
three = record assigned_both { pending = (4, row "e") ∷ (2, row "c") ∷ (3, row "d") ∷ [] }

pages : read_pages three 2 1 4 ≡ (2, row "c") ∷ (3, row "d") ∷ (4, row "e") ∷ []
unfolding read_pages
pages = refl

-- A size of nothing is one of one.
single_pages : read_pages three 0 1 4 ≡ (2, row "c") ∷ (3, row "d") ∷ (4, row "e") ∷ []
unfolding read_pages
single_pages = refl
