-- ===== src/Retention/Exact.antt =====
-- What a sweep of mcp_server/skills/simulation/retention.py reports and removes, against a filter
-- of the entries by the tests at its start.
use openstudio_mcp.Base.{
  ℕ, String, Bool, true, false, not, Option, none, some, List, [], ◌∷◌, ◌≡◌, refl, sym, ◌∙◌, inl,
  inr, ◌&&◌, if◌then◌else◌, ◌==◌, string_eq, arith, Bool-cases,
}
use openstudio_mcp.Base.Dict
use openstudio_mcp.Base.Dict.{Dict, NodupKeys, lookup-cons, lookup-erase}
use openstudio_mcp.Runs.{RunRecord, Env}
use openstudio_mcp.Retention.{Dir, is_skipped}
use openstudio_mcp.Retention.Sweep.{
  Store, Evicted, report, evict, swept_entry, sweep, sweep_user_root,
}
use text.Mathlib.TextEquality.{eq_iff}

-- The entries that the tests let through, reported.
unfoldable pub eligible : Env → ℕ → Dict RunRecord → Dict Dir → List Evicted
eligible env max_age runs [] = []
eligible env max_age runs ((name, d) ∷ ds) =
    let rest = eligible env max_age runs ds in
    if is_skipped env max_age name (Dict.lookup name runs) d then rest else report env name d ∷ rest

-- Whether the entry of that name, if there is one, is removed.
abbrev pub goes : Env → (String → Bool) → Bool → ℕ → Dict RunRecord → String → Option Dir → Bool
goes env removes dry_run max_age runs name none = false
goes env removes dry_run max_age runs name (some d) =
    not dry_run && removes name && not (is_skipped env max_age name (Dict.lookup name runs) d)

swept_entry-runs :
    (removes : String → Bool) (dry_run skipped : Bool) (name k : String) (s : Store)
    → (k == name) ≡ false
    → Dict.lookup k (swept_entry removes dry_run skipped name s).runs ≡ Dict.lookup k s.runs
unfolding swept_entry evict
swept_entry-runs removes dry_run skipped name k s ne = ground (arith, lookup-erase k name s.runs)

swept_entry-dirs :
    (removes : String → Bool) (dry_run skipped : Bool) (name k : String) (s : Store)
    → Dict.lookup k (swept_entry removes dry_run skipped name s).dirs ≡ (
        if k == name && (not dry_run && removes name && not skipped)
        then none
        else Dict.lookup k s.dirs)
unfolding swept_entry evict
swept_entry-dirs removes dry_run skipped name k s = ground (arith, lookup-erase k name s.dirs)

-- The records that the sweep looks up are those of its start.
abbrev Agrees : Dict Dir → Dict RunRecord → Store → Type 0
Agrees ds runs s =
    (k : String) (d : Dir) → Dict.lookup k ds ≡ some d → Dict.lookup k s.runs ≡ Dict.lookup k runs

module _ (env : Env) (removes : String → Bool) (dry_run : Bool) (max_age : ℕ) where
  Agrees-next :
      (name : String) (d : Dir) (ds : Dict Dir) (runs : Dict RunRecord) (s : Store) (skipped : Bool)
      → Dict.lookup name ds ≡ none
      → Agrees ((name, d) ∷ ds) runs s
      → Agrees ds runs (swept_entry removes dry_run skipped name s)
  Agrees-next name d ds runs s skipped new agrees = λ k e there. ground (
    arith,
    swept_entry-runs removes dry_run skipped name k s,
    agrees k e,
    lookup-cons k name d ds,
    eq_iff k name,
  )

  Agrees-here :
      (name : String) (d : Dir) (ds : Dict Dir) (runs : Dict RunRecord) (s : Store)
      → Agrees ((name, d) ∷ ds) runs s
      → Dict.lookup name s.runs ≡ Dict.lookup name runs
  Agrees-here name d ds runs s agrees =
      agrees name d (ground (arith, lookup-cons name name d ds, eq_iff name name))

  sweep-eligible :
      (ds : Dict Dir) (runs : Dict RunRecord) (s : Store)
      → NodupKeys ds
      → Agrees ds runs s
      → (sweep env removes dry_run max_age ds s).0 ≡ eligible env max_age runs ds
  unfolding sweep eligible
  sweep-eligible [] runs s nodup agrees = refl
  sweep-eligible ((name, d) ∷ ds) runs s (new, nodup) agrees =
      let skipped = is_skipped env max_age name (Dict.lookup name s.runs) d in
      let here = Agrees-here name d ds runs s agrees in
      let rest =
        sweep-eligible ds runs (swept_entry removes dry_run skipped name s) nodup
          (Agrees-next name d ds runs s skipped new agrees) in
      rw (rest, here) refl

  lookup-sweep :
      (ds : Dict Dir) (runs : Dict RunRecord) (s : Store) (k : String)
      → NodupKeys ds
      → Agrees ds runs s
      → Dict.lookup k (sweep env removes dry_run max_age ds s).1.dirs ≡ (
          if goes env removes dry_run max_age runs k (Dict.lookup k ds)
          then none
          else Dict.lookup k s.dirs)
  unfolding sweep Dict.lookup
  lookup-sweep [] runs s k nodup agrees = refl
  lookup-sweep ((name, d) ∷ ds) runs s k (new, nodup) agrees =
      let skipped = is_skipped env max_age name (Dict.lookup name s.runs) d in
      let here = Agrees-here name d ds runs s agrees in
      let rest =
        lookup-sweep ds runs (swept_entry removes dry_run skipped name s) k nodup
          (Agrees-next name d ds runs s skipped new agrees) in
      let one = swept_entry-dirs removes dry_run skipped name k s in
      elim (Bool-cases (k == name)) [
        | inl e ↦ ground (arith, rest, one, here, new, (eq_iff k name).0 e)
        | inr ne ↦ ground (arith, rest, one)
      ]

-- A sweep of a user's root removes an entry exactly if the tests let it through and its removal
-- succeeds; it touches no other.
pub lookup-sweep_user_root :
    (env : Env) (removes : String → Bool) (dry_run : Bool) (max_age : ℕ) (s : Store) (k : String)
    → NodupKeys s.dirs
    → Dict.lookup k (sweep_user_root env removes dry_run max_age s).1.dirs ≡ (
        if goes env removes dry_run max_age s.runs k (Dict.lookup k s.dirs)
        then none
        else Dict.lookup k s.dirs)
unfolding sweep_user_root
lookup-sweep_user_root env removes dry_run max_age s k nodup =
    lookup-sweep env removes dry_run max_age s.dirs s.runs s k nodup (λ j d there. refl)

dry-sweep :
    (env : Env) (removes : String → Bool) (max_age : ℕ) (ds : Dict Dir) (s : Store)
    → (sweep env removes true max_age ds s).1 ≡ s
unfolding sweep swept_entry
dry-sweep env removes max_age [] s = refl
dry-sweep env removes max_age ((name, d) ∷ ds) s =
    elim (Bool-cases (is_skipped env max_age name (Dict.lookup name s.runs) d)) [
      | inl y ↦ rw y (dry-sweep env removes max_age ds s)
      | inr n ↦ rw n (dry-sweep env removes max_age ds s)
    ]

pair-eq {ℓ} : {A B : Type ℓ} (p : A × B) {a : A} {b : B} → p.0 ≡ a → p.1 ≡ b → p ≡ (a, b)
pair-eq (x, y) e f = rw (e, f) refl

-- A dry run changes nothing and previews a real run: it reports the entries that a real sweep of the
-- same state reports, whichever removals succeed.
pub sweep_user_root-preview :
    (env : Env) (removes removes' : String → Bool) (max_age : ℕ) (s : Store)
    → NodupKeys s.dirs
    → sweep_user_root env removes true max_age s
      ≡ ((sweep_user_root env removes' false max_age s).0, s)
unfolding sweep_user_root
sweep_user_root-preview env removes removes' max_age s nodup =
    let same : Agrees s.dirs s.runs s = λ j d there. refl in
    pair-eq (sweep env removes true max_age s.dirs s)
      (sweep-eligible env removes true max_age s.dirs s.runs s nodup same
        ∙ sym (sweep-eligible env removes' false max_age s.dirs s.runs s nodup same))
      (dry-sweep env removes max_age s.dirs s)
