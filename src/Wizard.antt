-- ===== src/Wizard.antt =====
-- The wizard that assigns space types, of mcp_server/skills/space_type_assignment: the state of
-- wizard_state.py and the tools of operations.py. What a tool reads of the model is a record; a row's
-- figures are its columns as they are printed.
pub mod Assign
pub mod Steps
pub mod Covering
pub mod Ready
pub mod Moving
pub mod Keeping
pub mod Invariant
pub mod Completion
pub mod Batches
pub mod Pages
mod Tests
use openstudio_mcp.Base.{
  ℕ, zero, suc, ◌+◌, ◌-◌, ◌*◌, String, Bool, true, false, not, Option, none, some, List, [], ◌∷◌,
  ◌++◌, ◌&&◌, ◌||◌, length, take, drop, contains, if◌then◌else◌, ltb, leb, max, ◌==◌, string_eq,
  ℕ_eq, HasTest,
}

pub record Row : Type 0 where
  pub handle : String
  pub name : String
  pub figures : String

-- A template, a building type and a space type.
abbrev pub Combo : Type 0
Combo = String × String × String

-- `WizardState`: two dicts by the index of a space, in insertion order, and the choices made.
pub record State : Type 0 where
  pub model_generation : ℕ
  pub pending : List (ℕ × Row)
  pub assigned : List (ℕ × String)
  pub templates : List String
  pub building_types : List String
  pub valid_combos : List Combo

-- What the model answers to a tool: whether there is one, its generation, its conditioned spaces by
-- name, and the standards that it knows, where the look-up may raise.
pub record Model : Type 0 where
  pub is_loaded : Bool
  pub generation : ℕ
  pub spaces : List Row
  pub all_templates : List String
  pub building_types_of : String → Option (List String)
  pub space_types_of : String → String → Option (List String)

-- The wizard of the session, and the space types that were set in the model, by the handles.
pub record World : Type 0 where
  pub wizard : Option State
  pub typed : List (String × String)

module _ {ℓ} {V : Type ℓ} where
  -- `d.get(i)`, `del d[i]` and `d[i] = v`
  unfoldable pub find : ℕ → List (ℕ × V) → Option V
  find i [] = none
  find i ((j, v) ∷ d) = if i == j then some v else find i d

  unfoldable pub remove : ℕ → List (ℕ × V) → List (ℕ × V)
  remove i [] = []
  remove i ((j, v) ∷ d) = let rest = remove i d in if i == j then rest else (j, v) ∷ rest

  unfoldable pub set : ℕ → V → List (ℕ × V) → List (ℕ × V)
  set i v [] = (i, v) ∷ []
  set i v ((j, w) ∷ d) = if i == j then (j, v) ∷ d else (j, w) ∷ set i v d

  -- `sorted(d.items())`, whose keys are distinct.
  unfoldable pub insert_item : ℕ → V → List (ℕ × V) → List (ℕ × V)
  insert_item i v [] = (i, v) ∷ []
  insert_item i v ((j, w) ∷ d) =
      if leb i j then (i, v) ∷ ((j, w) ∷ d) else (j, w) ∷ insert_item i v d

  unfoldable pub sort_items : List (ℕ × V) → List (ℕ × V)
  unfolding insert_item
  sort_items [] = []
  sort_items ((i, v) ∷ d) = insert_item i v (sort_items d)

-- `enumerate(...)`
unfoldable pub enumerate : ℕ → List Row → List (ℕ × Row)
enumerate n [] = []
enumerate n (r ∷ rs) = (n, r) ∷ enumerate (suc n) rs

pub data Failure : Type 0 where
  no_model no_wizard stale none_given : Failure
  unknown_names : List String → Failure
  choose_first : Failure
  invalid_combo : Failure
  already_assigned : ℕ → String → Failure
  not_pending : ℕ → Failure
  no_space : ℕ → Failure
  not_created : Failure
  unassigned : ℕ → Failure
  not_saved : Failure
  -- an exception, perhaps after changes
  raised : Failure

-- A page of the table: its rows, and whether there are more.
pub record Page : Type 0 where
  pub rows : List (ℕ × Row)
  pub remaining : ℕ
  pub has_more : Bool

-- What a tool answers.
pub data Answer : Type 0 where
  failed : Failure → Answer
  started : ℕ → Answer
  chosen_templates : List String → Answer
  shows : ℕ → Page → Answer
  assigned_batch : String → Bool → ℕ → ℕ → Answer
  finished : String → ℕ → ℕ → Answer
  cleared : Answer

-- `_require_wizard`
unfoldable pub require_wizard : Model → Option State → State × Option Failure
require_wizard model none = (
  record {
    model_generation = 0;
    pending = [];
    assigned = [];
    templates = [];
    building_types = [];
    valid_combos = [];
  },
  some no_wizard,
)
require_wizard model (some s) =
    (s, if s.model_generation == model.generation then none else some stale)

-- `_render_table_page`, for the page and the size as they are given.
unfoldable pub chunk : ℕ → ℕ → List (ℕ × Row) → List (ℕ × Row)
chunk page size items = take size (drop ((page - 1) * size) items)

unfoldable pub render_table_page : State → ℕ → ℕ → Page
unfolding chunk sort_items
render_table_page s page size = record {
  rows = chunk (max 1 page) (max 1 size) (sort_items s.pending);
  remaining = length (sort_items s.pending);
  has_more = ltb ((max 1 page - 1) * max 1 size + max 1 size) (length (sort_items s.pending));
}

-- `set(xs) == set(ys)`
unfoldable pub is_within : List String → List String → Bool
is_within [] ys = true
is_within (x ∷ xs) ys = contains ys x && is_within xs ys

abbrev pub same_set : List String → List String → Bool
same_set xs ys = is_within xs ys && is_within ys xs

-- `[x for x in xs if x not in ys]`
unfoldable pub missing : List String → List String → List String
missing ys [] = []
missing ys (x ∷ xs) = let rest = missing ys xs in if contains ys x then rest else x ∷ rest
