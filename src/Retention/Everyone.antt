-- ===== src/Retention/Everyone.antt =====
-- The sweep of every user in mcp_server/skills/simulation/retention.py, `_gc_sweep_all`.
use openstudio_mcp.Base.{
  ℕ, zero, suc, ◌*◌, String, Bool, true, false, some, [], ◌∷◌, ◌≡◌, refl, inl, inr, arith, ◌==◌,
  string_eq, Bool-cases,
}
use mathlib.Core.Option
use openstudio_mcp.Base.Dict
use openstudio_mcp.Base.Dict.{Dict, NodupKeys, lookup-cons}
use openstudio_mcp.Runs.{RunRecord, Env}
use openstudio_mcp.Retention.{Dir, is_skipped, is_run_dir}
use openstudio_mcp.Retention.Sweep.{
  Store, sweep_user_root, Folder, Container, entries, still, left_in, sweep_folder, sweep_folders,
  sweep_all, gc_sweep_all,
}
use openstudio_mcp.Retention.Exact.{lookup-sweep_user_root}
use openstudio_mcp.Retention.Protected.{sweep_user_root-protected}
use text.Mathlib.TextEquality.{eq_iff}

lookup-entries :
    (k : String) (fs : Dict Folder)
    → Dict.lookup k (entries fs) ≡ Option.map (λ f. f.entry) (Dict.lookup k fs)
unfolding entries Dict.lookup
lookup-entries k [] = refl
lookup-entries k ((name, f) ∷ fs) = ground (arith, lookup-entries k fs)

entries-NodupKeys : (fs : Dict Folder) → NodupKeys fs → NodupKeys (entries fs)
unfolding entries
entries-NodupKeys [] h = tt
entries-NodupKeys ((name, f) ∷ fs) (new, h) =
    (rw (lookup-entries name fs, new) refl, entries-NodupKeys fs h)

lookup-left_in :
    (dirs : Dict Dir) (fs : Dict Folder) (k : String) (f : Folder) (d : Dir)
    → Dict.lookup k fs ≡ some f
    → Dict.lookup k dirs ≡ some d
    → Dict.lookup k (left_in dirs fs) ≡ some f
unfolding left_in still Dict.lookup
lookup-left_in dirs [] k f d there stays = absurd (cc)
lookup-left_in dirs ((name, g) ∷ fs) k f d there stays =
    ground (arith, lookup-left_in dirs fs k f d, eq_iff k name)

module _ (env : Env) (removes : String → Bool) (max_age : ℕ) where
  lookup-sweep_folders :
      (fs : Dict Folder) (runs : Dict RunRecord) (k : String) (f : Folder)
      → Dict.lookup k fs ≡ some f
      → (now : Dict RunRecord) × (Dict.lookup k (sweep_folders env removes max_age fs runs).1.root
          ≡ some (record f { inside = (sweep_folder env removes max_age k f now).1.dirs }))
  unfolding sweep_folders Dict.lookup
  lookup-sweep_folders [] runs k f there = absurd (cc)
  lookup-sweep_folders ((name, g) ∷ fs) runs k f there = elim (Bool-cases (k == name)) [
    | inl e ↦ (runs, ground (arith, (eq_iff k name).0 e))
    | inr ne ↦
        let (now, h) =
          lookup-sweep_folders fs (sweep_folder env removes max_age name g runs).1.runs k f
            (ground arith) in
        (now, ground (arith, h))
  ]

  sweep_folder-pinned :
      (name k : String) (f : Folder) (d : Dir) (runs : Dict RunRecord)
      → NodupKeys f.inside
      → Dict.lookup k f.inside ≡ some d
      → d.is_pinned ≡ true
      → Dict.lookup k (sweep_folder env removes max_age name f runs).1.dirs ≡ some d
  unfolding sweep_folder
  sweep_folder-pinned name k f d runs nodup there pinned = ground (
    arith,
    sweep_user_root-protected env removes false max_age (record { dirs = f.inside; runs = runs }) k
        d nodup there (rw pinned refl),
  )

  sweep_all-pinned :
      (c : Container) (name k : String) (f : Folder) (d : Dir)
      → NodupKeys c.root
      → Dict.lookup name c.root ≡ some f
      → is_run_dir name f.entry ≡ false
      → NodupKeys f.inside
      → Dict.lookup k f.inside ≡ some d
      → d.is_pinned ≡ true
      → (f' : Folder) × (Dict.lookup name (sweep_all env removes max_age c).1.root ≡ some f')
        × (Dict.lookup k f'.inside ≡ some d)
  unfolding sweep_all is_skipped
  sweep_all-pinned c name k f d nodup there user nodup' inside pinned =
      let s : Store = record { dirs = entries c.root; runs = c.runs } in
      let t = (sweep_user_root env removes false max_age s).1 in
      let entry : Dict.lookup name s.dirs ≡ some f.entry =
        rw (lookup-entries name c.root, there) refl in
      let stays : Dict.lookup name t.dirs ≡ some f.entry = ground (
        arith,
        lookup-sweep_user_root env removes false max_age s name (entries-NodupKeys c.root nodup),
        entry,
        user,
      ) in
      let (now, h) =
        lookup-sweep_folders (left_in t.dirs c.root) t.runs name f
          (lookup-left_in t.dirs c.root name f f.entry there stays) in
      (
        record f { inside = (sweep_folder env removes max_age name f now).1.dirs },
        h,
        sweep_folder-pinned name k f d now nodup' inside pinned,
      )

-- A pinned run of a user's root outlasts the daemon's sweep of every user, whatever the window, if
-- the user's root does not itself read as a run.
pub gc_sweep_all-pinned :
    (env : Env) (removes : String → Bool) (days : ℕ) (sane : Bool) (c : Container) (name k : String)
    (f : Folder) (d : Dir)
    → NodupKeys c.root
    → Dict.lookup name c.root ≡ some f
    → is_run_dir name f.entry ≡ false
    → NodupKeys f.inside
    → Dict.lookup k f.inside ≡ some d
    → d.is_pinned ≡ true
    → (f' : Folder) × (Dict.lookup name (gc_sweep_all env removes days sane c).1.root ≡ some f')
      × (Dict.lookup k f'.inside ≡ some d)
unfolding gc_sweep_all
gc_sweep_all-pinned env removes zero sane c name k f d n there user n' inside pinned =
    (f, there, inside)
gc_sweep_all-pinned env removes (suc days) false c name k f d n there user n' inside pinned =
    (f, there, inside)
gc_sweep_all-pinned env removes (suc days) true c name k f d n there user n' inside pinned =
    sweep_all-pinned env removes (suc days * 86400) c name k f d n there user n' inside pinned
