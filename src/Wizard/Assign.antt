-- ===== src/Wizard/Assign.antt =====
-- The tools of the wizard in mcp_server/skills/space_type_assignment/operations.py.
use openstudio_mcp.Base.{
  ℕ, String, Bool, false, Option, none, some, List, [], ◌∷◌, ◌++◌, ◌&&◌, ◌||◌, length,
  if◌then◌else◌, ◌==◌, string_eq, ℕ_eq,
}
use openstudio_mcp.Wizard.{
  Row, Combo, State, Model, World, enumerate, Failure, no_model, no_wizard, none_given,
  unknown_names, choose_first, unassigned, not_saved, raised, Answer, failed, started,
  chosen_templates, shows, finished, cleared, require_wizard, render_table_page, same_set,
  is_within, missing,
}

-- `start_space_type_wizard`
unfoldable pub start : Model → World → Answer × World
unfolding enumerate
start model w =
    if model.is_loaded
    then (
      started (length (enumerate 0 model.spaces)),
      record w {
        wizard = some (record {
          model_generation = model.generation;
          pending = enumerate 0 model.spaces;
          assigned = [];
          templates = [];
          building_types = [];
          valid_combos = [];
        });
      },
    )
    else (failed no_model, w)

-- A tool that needs the model and the wizard on it.
unfoldable pub with_state :
    Model → World → (State → Answer × World) → State × Option Failure → Answer × World
with_state model w tool (s, some f) = (failed f, w)
with_state model w tool (s, none) = tool s

unfoldable pub on_wizard : Model → World → (State → Answer × World) → Answer × World
unfolding with_state require_wizard
on_wizard model w tool =
    if model.is_loaded
    then with_state model w tool (require_wizard model w.wizard)
    else (failed no_model, w)

unfoldable pub put_state : World → State → World
put_state w s = record w { wizard = some s }

-- The clearing of the narrower choices, and the new templates.
unfoldable pub narrow : List String → State → State
unfolding is_within
narrow names s =
    if same_set names s.templates
    then record s { templates = names }
    else record s { templates = names; building_types = []; valid_combos = [] }

-- `available.update(...)` for each template, as a list; none where a look-up raises.
unfoldable pub both_lists : Option (List String) → Option (List String) → Option (List String)
both_lists none o = none
both_lists (some xs) none = none
both_lists (some xs) (some ys) = some (xs ++ ys)

unfoldable pub available_types : Model → List String → Option (List String)
unfolding both_lists
available_types model [] = some []
available_types model (t ∷ ts) = both_lists (model.building_types_of t) (available_types model ts)

-- The answer after the templates are set.
unfoldable pub templates_answer : List String → Option (List String) → Answer
templates_answer names none = failed raised
templates_answer names (some available) = chosen_templates names

unfoldable pub take_templates : Model → World → State → List String → List String → Answer × World
unfolding narrow put_state templates_answer available_types
take_templates model w s [] bad = (failed none_given, w)
take_templates model w s (t ∷ ts) [] =
    (templates_answer (t ∷ ts) (available_types model (t ∷ ts)), put_state w (narrow (t ∷ ts) s))
take_templates model w s (t ∷ ts) (b ∷ bad) = (failed (unknown_names (b ∷ bad)), w)

unfoldable pub choose_space_type_templates : Model → List String → World → Answer × World
unfolding on_wizard take_templates missing
choose_space_type_templates model names w =
    on_wizard model w (λ s. take_templates model w s names (missing model.all_templates names))

-- `combo in combos` and `combos.add(combo)`
unfoldable pub has_combo : Combo → List Combo → Bool
has_combo c [] = false
has_combo (a, b, c) ((x, y, z) ∷ cs) = (a == x && b == y && c == z) || has_combo (a, b, c) cs

unfoldable pub add_combos : String → String → List String → List Combo → List Combo
unfolding has_combo
add_combos t b [] cs = cs
add_combos t b (s ∷ ss) cs =
    add_combos t b ss (if has_combo (t, b, s) cs then cs else (t, b, s) ∷ cs)

-- The loops over the look-ups, where one may raise.
unfoldable pub combos_of_template : Model → String → List String → List Combo → Option (List Combo)
unfolding add_combos
combos_of_template model t [] cs = some cs
combos_of_template model t (b ∷ bs) cs = elim (model.space_types_of t b) [
  | none ↦ none
  | some ss ↦ combos_of_template model t bs (add_combos t b ss cs)
]

unfoldable pub combos_of : Model → List String → List String → List Combo → Option (List Combo)
unfolding combos_of_template
combos_of model [] bs cs = some cs
combos_of model (t ∷ ts) bs cs = elim (combos_of_template model t bs cs) [
  | none ↦ none
  | some cs' ↦ combos_of model ts bs cs'
]

-- After the building types are set, with the combinations.
unfoldable pub choose_types : ℕ → ℕ → World → State → Option (List Combo) → Answer × World
unfolding put_state render_table_page
choose_types page size w s none = (failed raised, put_state w s)
choose_types page size w s (some cs) = (
  shows (length cs) (render_table_page (record s { valid_combos = cs }) page size),
  put_state w (record s { valid_combos = cs }),
)

-- The names that are not available; none where a look-up raises.
unfoldable pub bad_types : List String → Option (List String) → Option (List String)
unfolding missing
bad_types names none = none
bad_types names (some available) = some (missing available names)

unfoldable pub take_types :
    Model
    → ℕ
    → ℕ
    → World
    → State
    → List String
    → List String
    → Option (List String)
    → Answer × World
unfolding choose_types combos_of
take_types model page size w s [] names bad = (failed choose_first, w)
take_types model page size w s (t ∷ ts) [] bad = (failed none_given, w)
take_types model page size w s (t ∷ ts) (n ∷ ns) none = (failed raised, w)
take_types model page size w s (t ∷ ts) (n ∷ ns) (some (b ∷ bad)) =
    (failed (unknown_names (b ∷ bad)), w)
take_types model page size w s (t ∷ ts) (n ∷ ns) (some []) =
    choose_types page size w (record s { building_types = n ∷ ns })
      (combos_of model (t ∷ ts) (n ∷ ns) [])

unfoldable pub choose_space_type_building_types :
    Model → List String → ℕ → ℕ → World → Answer × World
unfolding on_wizard take_types bad_types available_types
choose_space_type_building_types model names page size w = on_wizard model w (λ s.
    take_types model page size w s s.templates names
      (bad_types names (available_types model s.templates)))

unfoldable pub show_status : ℕ → ℕ → World → State → Answer × World
unfolding render_table_page
show_status page size w s = (shows (length s.valid_combos) (render_table_page s page size), w)

unfoldable pub get_space_type_wizard_status : Model → ℕ → ℕ → World → Answer × World
unfolding on_wizard show_status
get_space_type_wizard_status model page size w = on_wizard model w (show_status page size w)

-- What saving comes to: the path, or that it fails.
unfoldable pub finish_saved : World → State → Option String → Answer × World
finish_saved w s none = (failed not_saved, w)
finish_saved w s (some path) =
    (finished path (length s.assigned) (length s.pending), record w { wizard = none })

unfoldable pub finish_state : World → Option String → Bool → State → List (ℕ × Row) → Answer × World
unfolding finish_saved
finish_state w saved force s [] = finish_saved w s saved
finish_state w saved force s (r ∷ rs) =
    if force then finish_saved w s saved else (failed (unassigned (length (r ∷ rs))), w)

unfoldable pub finish_space_type_wizard : Model → Option String → Bool → World → Answer × World
unfolding on_wizard finish_state
finish_space_type_wizard model saved force w =
    on_wizard model w (λ s. finish_state w saved force s s.pending)

unfoldable pub cancel_state : World → Option State → Answer × World
cancel_state w none = (failed no_wizard, w)
cancel_state w (some s) = (cleared, record w { wizard = none })

unfoldable pub cancel_space_type_wizard : World → Answer × World
unfolding cancel_state
cancel_space_type_wizard w = cancel_state w w.wizard
