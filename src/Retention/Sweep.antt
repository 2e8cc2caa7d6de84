-- ===== src/Retention/Sweep.antt =====
-- `_sweep_user_root` and `_gc_sweep_all` of mcp_server/skills/simulation/retention.py. The removal
-- of a directory ignores errors: `removes` says whether it is gone. Ages and sizes are reported
-- before they are rounded.
use openstudio_mcp.Base.{
  ℕ, zero, ◌+◌, ◌*◌, String, Bool, true, false, not, none, some, List, [], ◌∷◌, ◌||◌, ◌++◌,
  if◌then◌else◌,
}
use openstudio_mcp.Base.Dict
use openstudio_mcp.Base.Dict.{Dict}
use openstudio_mcp.Runs.{RunRecord, Env}
use openstudio_mcp.Retention.{Dir, run_age_seconds, is_skipped, is_run_dir}

-- A user's run root, and the records that the process holds (of every user).
pub record Store : Type 0 where
  pub dirs : Dict Dir
  pub runs : Dict RunRecord

pub record Evicted : Type 0 where
  pub run_id : String
  pub age : ℕ
  pub size : ℕ

unfoldable pub report : Env → String → Dir → Evicted
report env name d = record { run_id = name; age = run_age_seconds env.now d; size = d.size }

-- `remove_tree_confined`, then `_forget`.
unfoldable pub evict : (String → Bool) → String → Store → Store
evict removes name s = record {
  dirs = if removes name then Dict.erase name s.dirs else s.dirs;
  runs = Dict.erase name s.runs;
}

-- One round of the sweep, for an entry that is or is not skipped.
unfoldable pub swept_entry : (String → Bool) → Bool → Bool → String → Store → Store
unfolding evict
swept_entry removes dry_run skipped name s = if skipped || dry_run then s else evict removes name s

module _ (env : Env) (removes : String → Bool) (dry_run : Bool) (max_age : ℕ) where
  -- The sweep, over the entries as they were listed.
  unfoldable pub sweep : Dict Dir → Store → List Evicted × Store
  unfolding swept_entry report
  sweep [] s = ([], s)
  sweep ((name, d) ∷ ds) s =
      let skipped = is_skipped env max_age name (Dict.lookup name s.runs) d in
      let (out, t) = sweep ds (swept_entry removes dry_run skipped name s) in
      (if skipped then out else report env name d ∷ out, t)

  unfoldable pub sweep_user_root : Store → List Evicted × Store
  unfolding sweep
  sweep_user_root s = sweep s.dirs s

-- `freed`
unfoldable pub freed : List Evicted → ℕ
freed [] = 0
freed (e ∷ es) = e.size + freed es

-- RUN_ROOT, for the sweep of every user: an entry, and what the directory holds.
pub record Folder : Type 0 where
  pub entry : Dir
  pub inside : Dict Dir

pub record Container : Type 0 where
  pub root : Dict Folder
  pub runs : Dict RunRecord

unfoldable pub entries : Dict Folder → Dict Dir
entries [] = []
entries ((name, f) ∷ fs) = (name, f.entry) ∷ entries fs

-- What is left of the root once the sweep of its own entries has removed some.
unfoldable pub still : Dict Dir → String → Bool
still dirs name = elim (Dict.lookup name dirs) [ none ↦ false | some _ ↦ true ]

unfoldable pub left_in : Dict Dir → Dict Folder → Dict Folder
unfolding still
left_in dirs [] = []
left_in dirs ((name, f) ∷ fs) =
    let rest = left_in dirs fs in if still dirs name then (name, f) ∷ rest else rest

-- `user_dir` is passed over: a link, no directory, out of the root, or itself a run.
unfoldable pub is_not_user : String → Dir → Bool
is_not_user name d = (d.is_symlink || not d.is_dir) || (not d.is_real_child || is_run_dir name d)

module _ (env : Env) (removes : String → Bool) (max_age : ℕ) where
  -- The runs of one user, or none for an entry that is passed over.
  unfoldable pub sweep_folder : String → Folder → Dict RunRecord → List Evicted × Store
  unfolding sweep_user_root is_not_user
  sweep_folder name f runs =
      let s : Store = record { dirs = f.inside; runs = runs } in
      if is_not_user name f.entry then ([], s) else sweep_user_root env removes false max_age s

  unfoldable pub sweep_folders : Dict Folder → Dict RunRecord → List Evicted × Container
  unfolding sweep_folder
  sweep_folders [] runs = ([], record { root = []; runs = runs })
  sweep_folders ((name, f) ∷ fs) runs =
      let (out, s) = sweep_folder name f runs in
      let (more, c) = sweep_folders fs s.runs in
      (out ++ more, record c { root = (name, record f { inside = s.dirs }) ∷ c.root })

  unfoldable pub sweep_all : Container → List Evicted × Container
  unfolding sweep_user_root sweep_folders entries left_in
  sweep_all c =
      let (out, s) =
        sweep_user_root env removes false max_age
          (record { dirs = entries c.root; runs = c.runs }) in
      let (more, c') = sweep_folders (left_in s.dirs c.root) s.runs in (out ++ more, c')

-- `sane` is the verdict of `_run_root_is_sane`.
unfoldable pub gc_sweep_all :
    Env → (String → Bool) → ℕ → Bool → Container → List Evicted × Container
unfolding sweep_all
gc_sweep_all env removes zero sane c = ([], c)
gc_sweep_all env removes days false c = ([], c)
gc_sweep_all env removes days true c = sweep_all env removes (days * 86400) c
