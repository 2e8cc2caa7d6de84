-- ===== src/Retention/Protected.antt =====
-- What mcp_server/skills/simulation/retention.py protects: pinned and active runs, through the tools
-- and through the sweep of every user.
use openstudio_mcp.Base.{
  ℕ, String, Bool, true, false, Option, none, some, ◌≡◌, refl, inl, inr, ◌||◌, arith, string_eq,
  Option-cases,
}
use openstudio_mcp.Base.Dict
use openstudio_mcp.Base.Dict.{Dict, NodupKeys, lookup-cons, lookup-insert, insert-NodupKeys}
use openstudio_mcp.Runs.{Env}
use openstudio_mcp.Retention.{Dir, is_skipped, is_active}
use openstudio_mcp.Retention.Sweep.{Store, sweep_user_root}
use openstudio_mcp.Retention.Calls.{
  done, delete_run, delete_dir, run_dir_of, pin_run, pin_dir, with_pin,
}
use openstudio_mcp.Retention.Exact.{lookup-sweep_user_root}
use text.Mathlib.TextEquality.{eq_iff}

-- A pinned or active entry outlasts any sweep of its root, whatever its age.
pub sweep_user_root-protected :
    (env : Env) (removes : String → Bool) (dry_run : Bool) (max_age : ℕ) (s : Store) (k : String)
    (d : Dir)
    → NodupKeys s.dirs
    → Dict.lookup k s.dirs ≡ some d
    → (d.is_pinned || is_active env k (Dict.lookup k s.runs) d) ≡ true
    → Dict.lookup k (sweep_user_root env removes dry_run max_age s).1.dirs ≡ some d
unfolding is_skipped
sweep_user_root-protected env removes dry_run max_age s k d nodup there safe =
    ground (arith, lookup-sweep_user_root env removes dry_run max_age s k nodup)

-- What a deletion that succeeds shows of the directory.
pub record IsDeletable (env : Env) (s : Store) (name : String) (d : Dir) : Type 0 where
  pub there : Dict.lookup name s.dirs ≡ some d
  pub idle : is_active env name (Dict.lookup name s.runs) d ≡ false
  pub real : d.is_real_child ≡ true

run_dir_of_sound :
    (resolve : String → Option String) (dirs : Dict Dir) (run_id name : String) (d : Dir)
    → run_dir_of resolve dirs run_id ≡ some (name, d)
    → (resolve run_id ≡ some name) × (Dict.lookup name dirs ≡ some d)
unfolding run_dir_of
run_dir_of_sound resolve dirs run_id name d h = elim (Option-cases (resolve run_id)) [
  | inl e ↦ absurd (ground arith)
  | inr (n, e) ↦ elim (Option-cases (Dict.lookup n dirs)) [
    | inl e' ↦ absurd (ground arith)
    | inr (d', e') ↦ ground arith
  ]
]

delete_dir-done :
    (env : Env) (removes : String → Bool) (run_id : String) (o : Option (String × Dir)) (s : Store)
    → (delete_dir env removes run_id o s).0 ≡ done
    → (name : String) × (d : Dir) × (o ≡ some (name, d))
      × (is_active env name (Dict.lookup name s.runs) d ≡ false)
      × (d.is_real_child ≡ true)
unfolding delete_dir
delete_dir-done env removes run_id none s h = absurd (cc)
delete_dir-done env removes run_id (some (name, d)) s h =
    (name, d, refl, ground arith, ground arith)

-- A deletion that is confirmed was of a directory of the caller's root that is no link out of it and
-- holds no run that is queued or running.
pub delete_run-done :
    (env : Env) (removes : String → Bool) (resolve : String → Option String) (run_id : String)
    (s : Store)
    → (delete_run env removes resolve run_id s).0 ≡ done
    → (name : String) × (d : Dir) × (resolve run_id ≡ some name) × IsDeletable env s name d
unfolding delete_run
delete_run-done env removes resolve run_id s h =
    let (name, d, e, idle, real) =
      delete_dir-done env removes run_id (run_dir_of resolve s.dirs run_id) s h in
    let (r, there) = run_dir_of_sound resolve s.dirs run_id name d e in
    (name, d, r, record { there = there; idle = idle; real = real })

pin_dir-done :
    (writes : String → Bool) (o : Option (String × Dir)) (s : Store)
    → (pin_dir writes o s).0 ≡ done
    → (name : String) × (d : Dir) × (o ≡ some (name, d))
      × ((pin_dir writes o s).1 ≡ with_pin true name d s)
unfolding pin_dir
pin_dir-done writes none s h = absurd (cc)
pin_dir-done writes (some (name, d)) s h = (name, d, refl, ground arith)

-- A run whose pin was confirmed outlasts every later sweep of its root, pinned.
pub pin_run-sweep :
    (env : Env) (writes removes : String → Bool) (resolve : String → Option String)
    (run_id : String) (max_age : ℕ) (s : Store)
    → NodupKeys s.dirs
    → (pin_run writes resolve run_id s).0 ≡ done
    → (name : String) × (d : Dir) × (resolve run_id ≡ some name)
      × (Dict.lookup name s.dirs ≡ some d)
      × (Dict.lookup name
            (sweep_user_root env removes false max_age (pin_run writes resolve run_id s).1).1.dirs
          ≡ some (record d { is_pinned = true }))
unfolding pin_run
pin_run-sweep env writes removes resolve run_id max_age s nodup h =
    let (name, d, e, after) = pin_dir-done writes (run_dir_of resolve s.dirs run_id) s h in
    let (r, there) = run_dir_of_sound resolve s.dirs run_id name d e in
    let d' : Dir = record d { is_pinned = true } in
    let kept =
      sweep_user_root-protected env removes false max_age (with_pin true name d s) name d'
        (insert-NodupKeys name d' s.dirs nodup)
        (ground (arith, lookup-insert name name d' s.dirs, eq_iff name name)) refl in
    (name, d, r, there, rw after kept)
