-- ===== src/Wizard/Completion.antt =====
-- Runs of the wizard of mcp_server/skills/space_type_assignment, and their end.
use openstudio_mcp.Base.{
  ℕ, ◌<◌, String, true, false, Option, none, some, List, [], ◌∷◌, ◌≡◌, ◌≢◌, ◌⊎◌, inl, inr, refl,
  sym, ap, ◌∙◌, subst, length, ◌==◌, ==_false, string_eq, ℕ_eq, arith, Bool-cases,
}
use mathlib.Core.Option.{some_inj}
use openstudio_mcp.Wizard.{
  Row, State, Model, World, Failure, stale, no_model, no_wizard, Answer, failed, finished,
  require_wizard, missing,
}
use openstudio_mcp.Wizard.Assign.{
  with_state, on_wizard, take_templates, take_types, bad_types, available_types, show_status,
  finish_saved, finish_state, finish_space_type_wizard, choose_space_type_templates,
  choose_space_type_building_types, get_space_type_wizard_status,
}
use openstudio_mcp.Wizard.Batches.{combo_batch, assign_space_type_batch}
use openstudio_mcp.Wizard.Covering.{Covers, count_key}
use openstudio_mcp.Wizard.Keeping.{Has}
use openstudio_mcp.Wizard.Invariant.{step-Covers}
use openstudio_mcp.Wizard.Steps.{
  Call, starts, cancels, templates, types, shows_status, assigns, finishes, step, run,
}

-- After any calls, on any models, from a session without a wizard: the wizard there is, if any, has each
-- of its spaces pending or assigned, once.
pub run-Covers :
    (calls : List (Model × Call)) (w : World) (n : ℕ)
    → Has n w.wizard
    → (m : ℕ) × Has m (run calls w).wizard
unfolding run
run-Covers [] w n h = (n, h)
run-Covers ((model, c) ∷ calls) w n h = elim (step-Covers n w h model c).1 [
  | inl kept ↦ run-Covers calls (step model c w).1 n kept
  | inr anew ↦ run-Covers calls (step model c w).1 (length model.spaces) anew
]

finish_state-finished :
    (w : World) (n : ℕ) (saved : Option String) (s : State) (rows : List (ℕ × Row)) (path : String)
    (a p : ℕ)
    → Covers n s
    → s.pending ≡ rows
    → (finish_state w saved false s rows).0 ≡ finished path a p
    → (a ≡ n)
      × (p ≡ 0)
      × (saved ≡ some path)
      × ((i : ℕ) → i < n → count_key i s.assigned ≡ 1)
      × ((finish_state w saved false s rows).1.wizard ≡ none)
unfolding finish_state finish_saved count_key
finish_state-finished w n none s [] path a p h e f = absurd (ground arith)
finish_state-finished w n (some x) s [] path a p h e f = (
  ground (arith, h.sized, ap length e),
  ground (arith, ap length e),
  ground arith,
  λ i lt. ground (arith, h.each i, ap (count_key i) e, lt),
  refl,
)
finish_state-finished w n saved s (r ∷ rs) path a p h e f = absurd (ground arith)

with_state-cases :
    (model : Model) (w : World) (tool : State → Answer × World) (o : Option State)
    → ((f : Failure) × (with_state model w tool (require_wizard model o) ≡ (failed f, w)))
      ⊎ ((s : State) × (o ≡ some s) × (with_state model w tool (require_wizard model o) ≡ tool s))
unfolding with_state require_wizard
with_state-cases model w tool none = inl (no_wizard, refl)
with_state-cases model w tool (some s) =
    elim (Bool-cases (s.model_generation == model.generation)) [
      | inr other ↦ inl (stale, rw other refl)
      | inl same ↦ inr (s, refl, rw same refl)
    ]

-- A tool on the wizard either fails at once, or there is a wizard on this model and it runs.
on_wizard-cases :
    (model : Model) (w : World) (tool : State → Answer × World)
    → ((f : Failure) × (on_wizard model w tool ≡ (failed f, w)))
      ⊎ ((s : State) × (w.wizard ≡ some s) × (on_wizard model w tool ≡ tool s))
unfolding on_wizard
on_wizard-cases model w tool = elim (Bool-cases model.is_loaded) [
  | inr no_ ↦ inl (no_model, rw no_ refl)
  | inl y ↦ elim (with_state-cases model w tool w.wizard) [
    | inl (f, e) ↦ inl (f, rw y e)
    | inr (s, here, e) ↦ inr (s, here, rw y e)
  ]
]

-- A wizard that finishes without force has assigned each of its spaces, once, and has saved; it reports
-- all of them as assigned and none as left, and is gone.
pub finish_space_type_wizard-all :
    (model : Model) (w : World) (n : ℕ) (saved : Option String) (path : String) (a p : ℕ)
    → Has n w.wizard
    → (finish_space_type_wizard model saved false w).0 ≡ finished path a p
    → (a ≡ n)
      × (p ≡ 0)
      × (saved ≡ some path)
      × ((s : State) × (w.wizard ≡ some s) × ((i : ℕ) → i < n → count_key i s.assigned ≡ 1))
      × ((finish_space_type_wizard model saved false w).1.wizard ≡ none)
unfolding finish_space_type_wizard Has
finish_space_type_wizard-all model w n saved path a p has f =
    let tool = λ (s : State). finish_state w saved false s s.pending in
    elim (on_wizard-cases model w tool) [
      | inl (failure, e) ↦ absurd (ground (arith, e, f))
      | inr (s, here, e) ↦
          let (all, left, path_ok, each, gone) =
            finish_state-finished w n saved s s.pending path a p (subst (Has n) here has) refl
              (ap (λ r. r.0) (sym e) ∙ f) in
          (all, left, path_ok, (s, here, each), ap (λ r. r.1.wizard) e ∙ gone)
    ]

with_state-stale :
    (model : Model) (w : World) (s : State) (tool : State → Answer × World) (o : Option State)
    → o ≡ some s
    → s.model_generation ≢ model.generation
    → with_state model w tool (require_wizard model o) ≡ (failed stale, w)
unfolding with_state require_wizard
with_state-stale model w s tool none here other = absurd (ground arith)
with_state-stale model w s tool (some t) here other =
    rw
      (==_false t.model_generation model.generation
        (λ e. other (ap (λ x. x.model_generation) (sym (some_inj.0 here)) ∙ e)))
      refl

on_wizard-stale :
    (model : Model) (w : World) (s : State) (tool : State → Answer × World)
    → model.is_loaded ≡ true
    → w.wizard ≡ some s
    → s.model_generation ≢ model.generation
    → on_wizard model w tool ≡ (failed stale, w)
unfolding on_wizard
on_wizard-stale model w s tool loaded here other =
    rw loaded (with_state-stale model w s tool w.wizard here other)

-- Not of the two calls that do without the wizard's model.
abbrev pub NeedsWizard : Call → Type 0
NeedsWizard starts = ⊥
NeedsWizard cancels = ⊥
NeedsWizard _ = Unit

-- Once the session's model was replaced, every tool but start and cancel is refused, and changes
-- nothing.
pub step-stale :
    (model : Model) (w : World) (s : State) (c : Call)
    → NeedsWizard c
    → model.is_loaded ≡ true
    → w.wizard ≡ some s
    → s.model_generation ≢ model.generation
    → step model c w ≡ (failed stale, w)
unfolding step choose_space_type_templates choose_space_type_building_types
    get_space_type_wizard_status finish_space_type_wizard assign_space_type_batch
step-stale model w s starts needs loaded here other = absurd needs
step-stale model w s cancels needs loaded here other = absurd needs
step-stale model w s (templates names) needs loaded here other =
    on_wizard-stale model w s
      (λ x. take_templates model w x names (missing model.all_templates names)) loaded here other
step-stale model w s (types names page size) needs loaded here other =
    on_wizard-stale model w s
      (λ x.
        take_types model page size w x x.templates names
          (bad_types names (available_types model x.templates)))
      loaded here other
step-stale model w s (shows_status page size) needs loaded here other =
    on_wizard-stale model w s (show_status page size w) loaded here other
step-stale model w s (assigns has_space made combo is) needs loaded here other =
    on_wizard-stale model w s (λ x. combo_batch has_space w x combo is made x.valid_combos) loaded
      here other
step-stale model w s (finishes saved force) needs loaded here other =
    on_wizard-stale model w s (λ x. finish_state w saved force x x.pending) loaded here other
