-- ===== src/Wizard/Invariant.antt =====
-- What every call of the wizard of mcp_server/skills/space_type_assignment keeps and does.
use openstudio_mcp.Base.{
  ℕ, String, Bool, Option, none, some, List, [], ◌∷◌, ◌≡◌, ◌⊎◌, inl, inr, true, false, ap, ◌∙◌,
  refl, sym, subst, length, string_eq, ℕ_eq, Bool-cases,
}
use openstudio_mcp.Wizard.{Combo, State, Model, World, Failure, Answer, missing}
use openstudio_mcp.Wizard.Assign.{
  start, on_wizard, put_state, take_templates, choose_space_type_templates, available_types,
  take_types, bad_types, choose_space_type_building_types, show_status,
  get_space_type_wizard_status, finish_state, finish_space_type_wizard, cancel_state,
  cancel_space_type_wizard, has_combo,
}
use openstudio_mcp.Wizard.Batches.{
  Made, assign_all, batch_answer, dedupe, check_indices, resolve_indices, apply_batch,
  resolved_batch, checked_batch, indexed_batch, combo_batch, assign_space_type_batch,
}
use openstudio_mcp.Wizard.Covering.{Covers, Covers-start}
use openstudio_mcp.Wizard.Ready.{
  Ready, Distinct, dedupe-Distinct, check_indices-Pending, Ready-both, indices_of,
  assign_each-Covers, ran, Ready-ran, length-indices_of, resolve_indices-all,
}
use openstudio_mcp.Wizard.Keeping.{
  stays, Has, Does, Keeps, on_wizard-Keeps, take_templates-Keeps, take_types-Keeps,
  finish_state-Keeps,
}
use openstudio_mcp.Wizard.Moving.{
  HaveHandles, assign_all-ran, assign_all-true, assign_all-Moved, resolve_indices-HaveHandles,
}
use openstudio_mcp.Wizard.Steps.{
  Call, starts, cancels, templates, types, shows_status, assigns, finishes, step,
}

module _ (n : ℕ) (w : World) (has : Has n w.wizard) where
  batch_answer-Does :
      (made : Made) (s : State) (k : ℕ) (xs : List (ℕ × String)) (all_set : Bool)
      → (assign_all made.sets made.name xs (w, s)).0 ≡ all_set
      → w.wizard ≡ some s
      → HaveHandles s xs
      → length xs ≡ k
      → let r = assign_all made.sets made.name xs (w, s) in
        Does w (batch_answer made k all_set r.2) (put_state r.1 r.2)
  unfolding batch_answer Does put_state
  batch_answer-Does made s k xs true e here handles sized =
      let all_ran = assign_all-true made.sets made.name xs w s e in
      (
        ran made.sets xs,
        assign_all-Moved made.sets made.name xs w s here handles,
        ap length all_ran ∙ sized,
        ((assign_all made.sets made.name xs (w, s)).2, refl, refl),
      )
  batch_answer-Does made s k xs false e here handles sized =
      inr (made.name, ran made.sets xs, assign_all-Moved made.sets made.name xs w s here handles)

  module _ (s : State) (here : w.wizard ≡ some s) (h : Covers n s) where
    apply_batch-Keeps :
        (k : ℕ) (xs : List (ℕ × String)) (made : Option Made)
        → Ready s (indices_of xs)
        → HaveHandles s xs
        → length xs ≡ k
        → Keeps n w (apply_batch w s k xs made)
    unfolding apply_batch put_state Has Does
    apply_batch-Keeps k xs none r handles sized = (has, refl)
    apply_batch-Keeps k xs (some made) r handles sized = (
      subst (Covers n) (sym (assign_all-ran made.sets made.name xs w s))
          (assign_each-Covers n made.name (ran made.sets xs) s (Ready-ran made.sets xs s r) h),
      batch_answer-Does made s k xs (assign_all made.sets made.name xs (w, s)).0 refl here handles
          sized,
    )

    resolved_batch-Keeps :
        (made : Option Made) (is : List ℕ) (r : List (ℕ × String) × Option Failure)
        → (r.1 ≡ none → indices_of r.0 ≡ is)
        → HaveHandles s r.0
        → Ready s is
        → Keeps n w (resolved_batch w s (length is) made r)
    unfolding resolved_batch
    resolved_batch-Keeps made is (xs, some f) e handles r = stays n w has f
    resolved_batch-Keeps made is (xs, none) e handles r =
        apply_batch-Keeps (length is) xs made (subst (Ready s) (sym (e refl)) r) handles
          (sym (length-indices_of xs) ∙ ap length (e refl))

    checked_batch-Keeps :
        (has_space : String → Bool) (is : List ℕ) (made : Option Made) (o : Option Failure)
        → (o ≡ none → Ready s is)
        → Keeps n w (checked_batch has_space w s is made o)
    unfolding checked_batch
    checked_batch-Keeps has_space is made (some f) r = stays n w has f
    checked_batch-Keeps has_space is made none r =
        resolved_batch-Keeps made is (resolve_indices has_space s is)
          (resolve_indices-all has_space s is) (resolve_indices-HaveHandles has_space s is) (r refl)

    indexed_batch-Keeps :
        (has_space : String → Bool) (made : Option Made) (is : List ℕ)
        → Distinct is
        → Keeps n w (indexed_batch has_space w s made is)
    unfolding indexed_batch Does
    indexed_batch-Keeps has_space made [] d = (has, refl)
    indexed_batch-Keeps has_space made (i ∷ is) d =
        checked_batch-Keeps has_space (i ∷ is) made (check_indices s (i ∷ is))
          (λ e. Ready-both s (i ∷ is) (check_indices-Pending s (i ∷ is) e) d)

    combo_batch-Keeps :
        (has_space : String → Bool) (combo : Combo) (is : List ℕ) (made : Option Made)
        (combos : List Combo)
        → Keeps n w (combo_batch has_space w s combo is made combos)
    unfolding combo_batch Does
    combo_batch-Keeps has_space combo is made [] = (has, refl)
    combo_batch-Keeps has_space combo is made (c ∷ cs) =
        elim (Bool-cases (has_combo combo (c ∷ cs))) [
          | inl known ↦
              rw known (indexed_batch-Keeps has_space made (dedupe [] is) (dedupe-Distinct [] is))
          | inr odd ↦ rw odd (has, refl)
        ]

  cancel_state-Keeps : (o : Option State) → Keeps n w (cancel_state w o)
  unfolding cancel_state Has Does
  cancel_state-Keeps none = (has, refl)
  cancel_state-Keeps (some s) = (tt, refl)

  start-Keeps :
      (model : Model)
      → let r = start model w in
        Does w r.0 r.1 × (Has n r.1.wizard ⊎ Has (length model.spaces) r.1.wizard)
  unfolding start Has Does
  start-Keeps model = elim (Bool-cases model.is_loaded) [
    | inl y ↦ rw y (refl, inr (Covers-start model.generation model.spaces))
    | inr no_ ↦ rw no_ (refl, inl has)
  ]

  showing : (page size : ℕ) (s : State) → Keeps n w (show_status page size w s)
  unfolding show_status Does
  showing page size s = (has, refl)

  kept :
      (r : Answer × World) (m : ℕ)
      → Keeps n w r
      → Does w r.0 r.1 × (Has n r.1.wizard ⊎ Has m r.1.wizard)
  kept r m (h, f) = (f, inl h)

  pub step-Covers :
      (model : Model) (c : Call)
      → let r = step model c w in
        Does w r.0 r.1 × (Has n r.1.wizard ⊎ Has (length model.spaces) r.1.wizard)
  unfolding step choose_space_type_templates choose_space_type_building_types
      get_space_type_wizard_status finish_space_type_wizard cancel_space_type_wizard
      assign_space_type_batch
  step-Covers model starts = start-Keeps model
  step-Covers model cancels =
      kept (cancel_state w w.wizard) (length model.spaces) (cancel_state-Keeps w.wizard)
  step-Covers model (templates names) =
      let bad = missing model.all_templates names in
      let tool = λ (s : State). take_templates model w s names bad in
      kept (on_wizard model w tool) (length model.spaces) (
        on_wizard-Keeps n w has model tool
          (λ s here h. take_templates-Keeps n w has model s names bad here h))
  step-Covers model (types names page size) =
      let tool = λ (s : State).
        take_types model page size w s s.templates names
          (bad_types names (available_types model s.templates)) in
      kept (on_wizard model w tool) (length model.spaces) (
        on_wizard-Keeps n w has model tool (λ s here h.
          take_types-Keeps n w has model page size s s.templates names
            (bad_types names (available_types model s.templates)) here h))
  step-Covers model (shows_status page size) =
      kept (on_wizard model w (show_status page size w)) (length model.spaces)
        (on_wizard-Keeps n w has model (show_status page size w) (λ s here h. showing page size s))
  step-Covers model (assigns has_space made combo is) =
      let tool = λ (s : State). combo_batch has_space w s combo is made s.valid_combos in
      kept (on_wizard model w tool) (length model.spaces) (
        on_wizard-Keeps n w has model tool
          (λ s here h. combo_batch-Keeps s here h has_space combo is made s.valid_combos))
  step-Covers model (finishes saved force) =
      let tool = λ (s : State). finish_state w saved force s s.pending in
      kept (on_wizard model w tool) (length model.spaces) (
        on_wizard-Keeps n w has model tool
          (λ s here h. finish_state-Keeps n w has saved force s s.pending))
