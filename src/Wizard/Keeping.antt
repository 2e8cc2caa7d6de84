-- ===== src/Wizard/Keeping.antt =====
-- What the tools of the wizard of mcp_server/skills/space_type_assignment keep, but for the batch.
use openstudio_mcp.Base.{
  ap, sym, length, ◌⊎◌, ℕ, String, Bool, true, false, Option, none, some, List, [], ◌∷◌, ◌≡◌, inl,
  inr, refl, ◌==◌, string_eq, ℕ_eq, Bool-cases,
}
use openstudio_mcp.Wizard.{
  Row, State, Model, World, Failure, raised, Combo, find, stale, no_model, no_wizard, Answer,
  failed, started, chosen_templates, shows, assigned_batch, finished, cleared, require_wizard,
  same_set,
}
use openstudio_mcp.Wizard.Assign.{
  with_state, on_wizard, put_state, narrow, take_templates, choose_types, take_types,
  templates_answer, available_types, combos_of, finish_saved, finish_state,
}
use openstudio_mcp.Wizard.Covering.{Covers}
use openstudio_mcp.Wizard.Ready.{indices_of}
use openstudio_mcp.Wizard.Moving.{Moved, typed_nil}

-- Of a wizard of `n` spaces, if there is one.
unfoldable pub Has : ℕ → Option State → Type 0
Has n none = Unit
Has n (some s) = Covers n s

-- What a call did, by its answer. Of the answers, only that of a batch goes with new space types in the
-- model. A call that fails changes nothing, but for an exception, which may leave the choices changed or
-- some spaces of a batch moved.
unfoldable pub Does : World → Answer → World → Type 0
Does w (failed raised) after =
    (after ≡ w) ⊎ ((name : String) × (xs : List (ℕ × String)) × Moved w name xs after)
Does w (failed f) after = after ≡ w
Does w (started n) after = after.typed ≡ w.typed
Does w (chosen_templates names) after = after.typed ≡ w.typed
Does w (shows n page) after = after.typed ≡ w.typed
Does w (assigned_batch name reused n m) after =
    (xs : List (ℕ × String)) × Moved w name xs after
    × (length xs ≡ n)
    × ((s : State) × (after.wizard ≡ some s) × (m ≡ length s.pending))
Does w (finished path n m) after = after.typed ≡ w.typed
Does w cleared after = after.typed ≡ w.typed

-- What a tool on the wizard keeps.
abbrev pub Keeps : ℕ → World → Answer × World → Type 0
Keeps n w r = Has n r.1.wizard × Does w r.0 r.1

module _ (n : ℕ) (w : World) (has : Has n w.wizard) where
  pub stays : (f : Failure) → Keeps n w (failed f, w)
  unfolding Does
  stays raised = (has, inl refl)
  stays _ = (has, refl)

  with_state-Keeps :
      (model : Model) (o : Option State) (tool : State → Answer × World)
      → o ≡ w.wizard
      → Has n o
      → ((s : State) → w.wizard ≡ some s → Covers n s → Keeps n w (tool s))
      → Keeps n w (with_state model w tool (require_wizard model o))
  unfolding with_state require_wizard Has
  with_state-Keeps model none tool e h keep = stays no_wizard
  with_state-Keeps model (some s) tool e h keep =
      elim (Bool-cases (s.model_generation == model.generation)) [
        | inl same ↦ rw same (keep s (sym e) h)
        | inr other ↦ rw other (stays stale)
      ]

  pub on_wizard-Keeps :
      (model : Model) (tool : State → Answer × World)
      → ((s : State) → w.wizard ≡ some s → Covers n s → Keeps n w (tool s))
      → Keeps n w (on_wizard model w tool)
  unfolding on_wizard
  on_wizard-Keeps model tool keep = elim (Bool-cases model.is_loaded) [
    | inl y ↦ rw y (with_state-Keeps model w.wizard tool refl has keep)
    | inr no_ ↦ rw no_ (stays no_model)
  ]

  -- Only the choices have changed.
  raised-Does :
      (s s' : State)
      → w.wizard ≡ some s
      → s'.pending ≡ s.pending
      → s'.assigned ≡ s.assigned
      → Does w (failed raised) (put_state w s')
  unfolding Does put_state indices_of find
  raised-Does s s' here p a = inr (
    "",
    [],
    record {
      before = s;
      now = s';
      had = here;
      has = refl;
      typed = typed_nil w.typed "";
      handles = tt;
      pending = λ i. ap (find i) p;
      assigned = λ i. ap (find i) a;
    },
  )

  narrow-same :
      (names : List String) (s : State)
      → ((narrow names s).pending ≡ s.pending) × ((narrow names s).assigned ≡ s.assigned)
  unfolding narrow
  narrow-same names s = elim (Bool-cases (same_set names s.templates)) [
    | inl y ↦ rw y (refl, refl)
    | inr no_ ↦ rw no_ (refl, refl)
  ]

  narrow-Covers : (names : List String) (s : State) → Covers n s → Covers n (narrow names s)
  unfolding narrow
  narrow-Covers names s h = elim (Bool-cases (same_set names s.templates)) [
    | inl y ↦ rw y (record { each = h.each; sized = h.sized })
    | inr no_ ↦ rw no_ (record { each = h.each; sized = h.sized })
  ]

  templates_answer-Does :
      (names : List String) (s : State) (o : Option (List String))
      → w.wizard ≡ some s
      → Does w (templates_answer names o) (put_state w (narrow names s))
  unfolding templates_answer Does put_state
  templates_answer-Does names s none here =
      raised-Does s (narrow names s) here (narrow-same names s).0 (narrow-same names s).1
  templates_answer-Does names s (some available) here = refl

  pub take_templates-Keeps :
      (model : Model) (s : State) (names bad : List String)
      → w.wizard ≡ some s
      → Covers n s
      → Keeps n w (take_templates model w s names bad)
  unfolding take_templates put_state Has Does
  take_templates-Keeps model s [] bad here h = (has, refl)
  take_templates-Keeps model s (t ∷ ts) [] here h = (
    narrow-Covers (t ∷ ts) s h,
    templates_answer-Does (t ∷ ts) s (available_types model (t ∷ ts)) here,
  )
  take_templates-Keeps model s (t ∷ ts) (b ∷ bad) here h = (has, refl)

  choose_types-Keeps :
      (page size : ℕ) (s s' : State) (o : Option (List Combo))
      → w.wizard ≡ some s
      → s'.pending ≡ s.pending
      → s'.assigned ≡ s.assigned
      → Covers n s'
      → Keeps n w (choose_types page size w s' o)
  unfolding choose_types put_state Has Does
  choose_types-Keeps page size s s' none here p a h = (h, raised-Does s s' here p a)
  choose_types-Keeps page size s s' (some cs) here p a h =
      (record { each = h.each; sized = h.sized }, refl)

  pub take_types-Keeps :
      (model : Model) (page size : ℕ) (s : State) (ts names : List String)
      (bad : Option (List String))
      → w.wizard ≡ some s
      → Covers n s
      → Keeps n w (take_types model page size w s ts names bad)
  unfolding take_types Does
  take_types-Keeps model page size s [] names bad here h = (has, refl)
  take_types-Keeps model page size s (t ∷ ts) [] bad here h = (has, refl)
  take_types-Keeps model page size s (t ∷ ts) (x ∷ xs) none here h = (has, inl refl)
  take_types-Keeps model page size s (t ∷ ts) (x ∷ xs) (some (b ∷ bad)) here h = (has, refl)
  take_types-Keeps model page size s (t ∷ ts) (x ∷ xs) (some []) here h =
      choose_types-Keeps page size s (record s { building_types = x ∷ xs })
        (combos_of model (t ∷ ts) (x ∷ xs) []) here refl refl
        (record { each = h.each; sized = h.sized })

  finish_saved-Keeps : (s : State) (saved : Option String) → Keeps n w (finish_saved w s saved)
  unfolding finish_saved Has Does
  finish_saved-Keeps s none = (has, refl)
  finish_saved-Keeps s (some path) = (tt, refl)

  pub finish_state-Keeps :
      (saved : Option String) (force : Bool) (s : State) (rows : List (ℕ × Row))
      → Keeps n w (finish_state w saved force s rows)
  unfolding finish_state Does
  finish_state-Keeps saved force s [] = finish_saved-Keeps s saved
  finish_state-Keeps saved true s (r ∷ rs) = finish_saved-Keeps s saved
  finish_state-Keeps saved false s (r ∷ rs) = (has, refl)
