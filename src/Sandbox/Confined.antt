-- ===== src/Sandbox/Confined.antt =====
-- The command line of mcp_server/sandbox.py and the shim of mcp_server/_sandbox_exec.py together:
-- where the shim finds the command, and what runs under which confinement.
use openstudio_mcp.Base.{
  ℕ, zero, suc, String, true, false, some, List, [], ◌∷◌, ◌++◌, ◌≡◌, refl, sym, ◌∙◌, inl, inr,
  if◌then◌else◌, ◌==◌, string_eq, ℕ_eq, All, arith, ℤ, pos, negsuc, Bool-cases, drop,
}
use openstudio_mcp.Sandbox.{
  Text, Config, Job, limit_args, path_args, net_args, full_args, rest_args, shim_args, wrap_cmd,
  enabled, is_full, ro_of, rw_of,
}
use openstudio_mcp.Sandbox.Shim.{
  Options, split_at_sep, Kernel, Confinement, ran, confine, start, started, run_split, main,
  wants_landlock,
}
use openstudio_mcp.Sandbox.Parsing.{ArePaths, wanted, parse-shim_args}
use text.Mathlib.TextEquality.{eq_iff}

module _ (t : Text) where
  -- No entry is the separator.
  HasNoSep : List String → Type 0
  HasNoSep = All (λ a. (a == "--") ≡ false)

  append-HasNoSep : (xs ys : List String) → HasNoSep xs → HasNoSep ys → HasNoSep (xs ++ ys)
  unfolding HasNoSep
  append-HasNoSep [] ys h k = k
  append-HasNoSep (x ∷ xs) ys (a, h) k = (a, append-HasNoSep xs ys h k)

  plain-no_sep : (a : String) → t.dashed a ≡ false → (a == "--") ≡ false
  plain-no_sep a plain = elim (Bool-cases (a == "--")) [
    | inr ne ↦ ne
    | inl e ↦ absurd (cc (t.dashed_sep, plain, (eq_iff a "--").0 e))
  ]

  path_args-HasNoSep :
      (flag : String) (ps : List String)
      → (flag == "--") ≡ false
      → ArePaths t ps
      → HasNoSep (path_args flag ps)
  unfolding path_args HasNoSep
  path_args-HasNoSep flag [] ne h = tt
  path_args-HasNoSep flag (p ∷ ps) ne (plain, h) =
      (ne, (plain-no_sep p plain, path_args-HasNoSep flag ps ne h))

  limit_args-HasNoSep :
      (flag : String) (v : ℤ) → (flag == "--") ≡ false → HasNoSep (limit_args t flag v)
  unfolding limit_args HasNoSep
  limit_args-HasNoSep flag (pos zero) ne = tt
  limit_args-HasNoSep flag (pos (suc n)) ne =
      (ne, (plain-no_sep (t.str (suc n)) (t.dashed_str (suc n)), tt))
  limit_args-HasNoSep flag (negsuc n) ne = tt

  net_args-HasNoSep : (cfg : Config) → HasNoSep (net_args cfg)
  unfolding net_args HasNoSep
  net_args-HasNoSep cfg = elim (Bool-cases (cfg.net == "allow")) [
    | inl lax ↦ rw lax tt
    | inr deny ↦ rw deny (refl, tt)
  ]

  full_args-HasNoSep :
      (cfg : Config) (job : Job)
      → ArePaths t (ro_of cfg job)
      → ArePaths t (rw_of job)
      → HasNoSep (if is_full cfg then full_args cfg job else [])
  unfolding full_args
  full_args-HasNoSep cfg job ro rw_paths = elim (Bool-cases (is_full cfg)) [
    | inr posix ↦ rw posix (unfold HasNoSep in tt)
    | inl full ↦ rw full (
        append-HasNoSep _ _ (path_args-HasNoSep "--landlock-ro" (ro_of cfg job) refl ro) (
          append-HasNoSep _ _ (path_args-HasNoSep "--landlock-rw" (rw_of job) refl rw_paths)
            (net_args-HasNoSep cfg)))
  ]

  rest_args-HasNoSep :
      (cfg : Config) (job : Job)
      → ArePaths t (ro_of cfg job)
      → ArePaths t (rw_of job)
      → HasNoSep (rest_args t cfg job)
  unfolding rest_args
  rest_args-HasNoSep cfg job ro rw_paths =
      append-HasNoSep _ _ (limit_args-HasNoSep "--rlimit-fsize" cfg.fsize refl) (
        append-HasNoSep _ _ (limit_args-HasNoSep "--rlimit-nproc" cfg.nproc refl) (
          append-HasNoSep _ _ (limit_args-HasNoSep "--rlimit-nofile" cfg.nofile refl) (
            append-HasNoSep _ _ (limit_args-HasNoSep "--rlimit-cpu" cfg.cpu refl) (
              append-HasNoSep _ _ (limit_args-HasNoSep "--rlimit-as" cfg.as_bytes refl)
                (full_args-HasNoSep cfg job ro rw_paths)))))

  shim_args-HasNoSep :
      (cfg : Config) (job : Job)
      → ArePaths t (ro_of cfg job)
      → ArePaths t (rw_of job)
      → HasNoSep (shim_args t cfg job)
  unfolding shim_args HasNoSep
  shim_args-HasNoSep cfg job ro rw_paths = (
    refl,
    (
      plain-no_sep (t.str job.uid) (t.dashed_str job.uid),
      (
        refl,
        (
          plain-no_sep (t.str job.gid) (t.dashed_str job.gid),
          rest_args-HasNoSep cfg job ro rw_paths,
        ),
      ),
    ),
  )

  split_at_sep-append :
      (args cmd : List String)
      → HasNoSep args
      → split_at_sep (args ++ ("--" ∷ cmd)) ≡ some (args, cmd)
  unfolding split_at_sep HasNoSep
  split_at_sep-append [] cmd h = refl
  split_at_sep-append (a ∷ args) cmd (ne, h) = rw (ne, split_at_sep-append args cmd h) refl

  -- The shim takes from the command line of `wrap_cmd` the options that were meant and the command
  -- as it was, whatever the command holds (a `--` too): it confines that command so, if no path
  -- starts with a dash.
  pub main-wrap_cmd :
      (cfg : Config) (python : String) (job : Job) (k : Kernel) (c : String) (cs : List String)
      → ArePaths t (ro_of cfg job)
      → ArePaths t (rw_of job)
      → enabled cfg ≡ true
      → cfg.is_linux ≡ true
      → main t k (drop 3 (wrap_cmd t cfg python job (c ∷ cs)))
        ≡ confine k (wanted cfg job) job.uid job.gid (c ∷ cs)
  unfolding main run_split wrap_cmd started start wanted
  main-wrap_cmd cfg python job k c cs ro rw_paths on linux =
      rw
        (
          on,
          linux,
          split_at_sep-append (shim_args t cfg job) (c ∷ cs)
              (shim_args-HasNoSep cfg job ro rw_paths),
          parse-shim_args t cfg job ro rw_paths,
        )
        refl

-- What is known of a command that the shim did run.
record Ran (k : Kernel) (o : Options) (uid gid : ℕ) (cmd : List String) (con : Confinement)
    (cmd' : List String) : Type 0 where
  same : cmd' ≡ cmd
  fs : wants_landlock o ≡ true → con.landlock ≡ some (o.ro, o.rw)
  granted : wants_landlock o ≡ true → k.landlock o.ro o.rw ≡ true
  net : o.seccomp_net ≡ true → (con.net_denied ≡ true) × (k.seccomp ≡ true)
  ids : (k.euid == 0) ≡ true → con.ids ≡ some (uid, gid)

confine-Ran :
    (k : Kernel) (o : Options) (uid gid : ℕ) (cmd : List String) (con : Confinement)
    (cmd' : List String)
    → confine k o uid gid cmd ≡ ran con cmd'
    → Ran k o uid gid cmd con cmd'
unfolding confine
confine-Ran k o uid gid cmd con cmd' h = record {
  same = ground arith;
  fs = λ w. ground arith;
  granted = λ w. ground arith;
  net = λ n. ground arith;
  ids = λ r. ground arith;
}

wants_landlock-rw :
    (o : Options) (r : String) (rs : List String) → o.rw ≡ r ∷ rs → wants_landlock o ≡ true
wants_landlock-rw o r rs h = any_tail o.ro
  where
    any_tail : (ro : List String) → wants_landlock (record o { ro = ro }) ≡ true
    any_tail [] = rw h refl
    any_tail (x ∷ xs) = refl

-- In the full tier nothing runs unconfined: if the shim runs a command from the command line of
-- `wrap_cmd`, then it is the one that was given, behind a Landlock policy of exactly the configured
-- roots that the kernel did grant, with the network denied unless the settings allow it, and, where
-- the server is root, as the owner's user.
pub main-confined :
    (t : Text) (cfg : Config) (python : String) (job : Job) (k : Kernel) (c : String)
    (cs : List String) (con : Confinement) (cmd' : List String)
    → ArePaths t (ro_of cfg job)
    → ArePaths t (rw_of job)
    → enabled cfg ≡ true
    → cfg.is_linux ≡ true
    → is_full cfg ≡ true
    → main t k (drop 3 (wrap_cmd t cfg python job (c ∷ cs))) ≡ ran con cmd'
    → (cmd' ≡ c ∷ cs)
      × (con.landlock ≡ some (ro_of cfg job, rw_of job))
      × (k.landlock (ro_of cfg job) (rw_of job) ≡ true)
      × ((cfg.net == "allow") ≡ false → (con.net_denied ≡ true) × (k.seccomp ≡ true))
      × ((k.euid == 0) ≡ true → con.ids ≡ some (job.uid, job.gid))
unfolding wanted rw_of
main-confined t cfg python job k c cs con cmd' ro rw_paths on linux full h =
    let o = wanted cfg job in
    let r =
      confine-Ran k o job.uid job.gid (c ∷ cs) con cmd'
        (sym (main-wrap_cmd t cfg python job k c cs ro rw_paths on linux) ∙ h) in
    let w =
      wants_landlock-rw o job.work_dir ("/dev/null" ∷ "/dev/zero" ∷ job.extra_rw) (rw full refl) in
    (
      r.same,
      ground (arith, r.fs w),
      ground (arith, r.granted w),
      (λ deny. r.net (rw (full, deny) refl)),
      r.ids,
    )
