-- ===== src/Wizard/Steps.antt =====
-- Any sequence of the wizard's tools, each on the model that the session has at the time.
use openstudio_mcp.Base.{ℕ, String, Bool, Option, List, [], ◌∷◌}
use openstudio_mcp.Wizard.{Combo, Model, World, Answer}
use openstudio_mcp.Wizard.Assign.{
  start, choose_space_type_templates, choose_space_type_building_types,
  get_space_type_wizard_status, finish_space_type_wizard, cancel_space_type_wizard,
}
use openstudio_mcp.Wizard.Batches.{Made, assign_space_type_batch}

pub data Call : Type 0 where
  starts cancels : Call
  templates : List String → Call
  types : List String → ℕ → ℕ → Call
  shows_status : ℕ → ℕ → Call
  assigns : (String → Bool) → Option Made → Combo → List ℕ → Call
  finishes : Option String → Bool → Call

unfoldable pub step : Model → Call → World → Answer × World
unfolding start choose_space_type_templates choose_space_type_building_types
    get_space_type_wizard_status finish_space_type_wizard cancel_space_type_wizard
    assign_space_type_batch
step model starts w = start model w
step model cancels w = cancel_space_type_wizard w
step model (templates names) w = choose_space_type_templates model names w
step model (types names page size) w = choose_space_type_building_types model names page size w
step model (shows_status page size) w = get_space_type_wizard_status model page size w
step model (assigns has_space made combo is) w =
    assign_space_type_batch model has_space made combo is w
step model (finishes saved force) w = finish_space_type_wizard model saved force w

unfoldable pub run : List (Model × Call) → World → World
unfolding step
run [] w = w
run ((model, c) ∷ cs) w = run cs (step model c w).1
