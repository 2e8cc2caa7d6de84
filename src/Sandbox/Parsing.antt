-- ===== src/Sandbox/Parsing.antt =====
-- What the shim of mcp_server/_sandbox_exec.py reads from the options that mcp_server/sandbox.py writes.
use openstudio_mcp.Base.{
  ℕ, zero, suc, String, Bool, true, false, not, none, some, List, [], ◌∷◌, ◌++◌, ◌≡◌, refl, sym,
  ◌∙◌, inl, inr, ◌&&◌, if◌then◌else◌, ◌==◌, string_eq, ℕ_eq, All, arith, ℤ, pos, negsuc, Bool-cases,
}
use mathlib.Core.List.{append_assoc, append-nil}
use openstudio_mcp.Base.Dict
use openstudio_mcp.Base.Dict.{Dict}
use openstudio_mcp.Sandbox.{
  Text, Config, Job, limit_args, path_args, net_args, full_args, shim_args, is_full, ro_of, rw_of,
}
use openstudio_mcp.Sandbox.Shim.{Options, no_options, set_option, and_then, parse, takes_value}

-- What the options of `wrap_cmd` are to say.
abbrev pub with_limit : String → ℤ → Dict ℕ → Dict ℕ
with_limit flag (pos (suc n)) d = Dict.insert flag (suc n) d
with_limit flag _ d = d

pub wanted_limits : Config → Dict ℕ
wanted_limits cfg = with_limit "--rlimit-as" cfg.as_bytes (
    with_limit "--rlimit-cpu" cfg.cpu (
      with_limit "--rlimit-nofile" cfg.nofile
        (with_limit "--rlimit-nproc" cfg.nproc (with_limit "--rlimit-fsize" cfg.fsize []))))

unfoldable pub wanted : Config → Job → Options
unfolding wanted_limits
wanted cfg job = record {
  uid = some job.uid;
  gid = some job.gid;
  limits = wanted_limits cfg;
  ro = if is_full cfg then ro_of cfg job else [];
  rw = if is_full cfg then rw_of job else [];
  seccomp_net = is_full cfg && not (cfg.net == "allow");
}

module _ (t : Text) where
  -- No path starts with a dash.
  abbrev pub ArePaths : List String → Type 0
  ArePaths ps = All (λ p. t.dashed p ≡ false) ps

  parse-ro :
      (ps rest : List String) (o : Options)
      → ArePaths ps
      → parse t none (path_args "--landlock-ro" ps ++ rest) o
        ≡ parse t none rest (record o { ro = o.ro ++ ps })
  unfolding path_args parse set_option and_then
  parse-ro [] rest o h = rw (append-nil o.ro) refl
  parse-ro (p ∷ ps) rest o (plain, h) = rw plain (
      parse-ro ps rest (record o { ro = o.ro ++ (p ∷ []) }) h
      ∙ rw (append_assoc o.ro (p ∷ []) ps) refl)

  parse-rw :
      (ps rest : List String) (o : Options)
      → ArePaths ps
      → parse t none (path_args "--landlock-rw" ps ++ rest) o
        ≡ parse t none rest (record o { rw = o.rw ++ ps })
  unfolding path_args parse set_option and_then
  parse-rw [] rest o h = rw (append-nil o.rw) refl
  parse-rw (p ∷ ps) rest o (plain, h) = rw plain (
      parse-rw ps rest (record o { rw = o.rw ++ (p ∷ []) }) h
      ∙ rw (append_assoc o.rw (p ∷ []) ps) refl)

  -- The option of a limit, and of nothing else.
  record IsLimit (flag : String) : Type 0 where
    taken : takes_value flag ≡ true
    not_net : (flag == "--seccomp-net") ≡ false
    not_ro : (flag == "--landlock-ro") ≡ false
    not_rw : (flag == "--landlock-rw") ≡ false
    not_uid : (flag == "--uid") ≡ false
    not_gid : (flag == "--gid") ≡ false

  abbrev is_limit : String → Bool
  is_limit flag =
      takes_value flag
      && not (flag == "--seccomp-net")
      && not (flag == "--landlock-ro")
      && not (flag == "--landlock-rw")
      && not (flag == "--uid")
      && not (flag == "--gid")

  is_limit-IsLimit : (flag : String) → is_limit flag ≡ true → IsLimit flag
  is_limit-IsLimit flag h = record {
    taken = ground arith;
    not_net = ground arith;
    not_ro = ground arith;
    not_rw = ground arith;
    not_uid = ground arith;
    not_gid = ground arith;
  }

  parse-limit :
      (flag : String) (v : ℤ) (rest : List String) (o : Options)
      → is_limit flag ≡ true
      → parse t none (limit_args t flag v ++ rest) o
        ≡ parse t none rest (record o { limits = with_limit flag v o.limits })
  unfolding limit_args parse set_option and_then
  parse-limit flag (pos zero) rest o is = refl
  parse-limit flag (negsuc n) rest o is = refl
  parse-limit flag (pos (suc n)) rest o h =
      let is = is_limit-IsLimit flag h in
      rw
        (
          is.not_net,
          is.taken,
          t.dashed_str (suc n),
          is.not_ro,
          is.not_rw,
          t.int_str (suc n),
          is.not_uid,
          is.not_gid,
        )
        refl

  parse-net :
      (cfg : Config) (o : Options)
      → o.seccomp_net ≡ false
      → parse t none (net_args cfg) o ≡ some (record o { seccomp_net = not (cfg.net == "allow") })
  unfolding net_args parse
  parse-net cfg o off = elim (Bool-cases (cfg.net == "allow")) [
    | inl lax ↦ rw (lax, sym off) refl
    | inr deny ↦ rw deny refl
  ]

  parse-full :
      (cfg : Config) (job : Job) (o : Options)
      → ArePaths (ro_of cfg job)
      → ArePaths (rw_of job)
      → o.seccomp_net ≡ false
      → parse t none (full_args cfg job) o
        ≡ some (record o {
          ro = o.ro ++ ro_of cfg job;
          rw = o.rw ++ rw_of job;
          seccomp_net = not (cfg.net == "allow");
        })
  unfolding full_args
  parse-full cfg job o ro rw_paths off =
      parse-ro (ro_of cfg job) (path_args "--landlock-rw" (rw_of job) ++ net_args cfg) o ro
      ∙ parse-rw (rw_of job) (net_args cfg) (record o { ro = o.ro ++ ro_of cfg job }) rw_paths
      ∙ parse-net cfg (record o { ro = o.ro ++ ro_of cfg job; rw = o.rw ++ rw_of job }) off

  parse-rest :
      (cfg : Config) (job : Job) (o : Options)
      → ArePaths (ro_of cfg job)
      → ArePaths (rw_of job)
      → parse t none
          (if is_full cfg then full_args cfg job else [])
          (record o { ro = []; rw = []; seccomp_net = false })
        ≡ some (record o {
          ro = if is_full cfg then ro_of cfg job else [];
          rw = if is_full cfg then rw_of job else [];
          seccomp_net = is_full cfg && not (cfg.net == "allow");
        })
  unfolding parse
  parse-rest cfg job o ro rw_paths = elim (Bool-cases (is_full cfg)) [
    | inr posix ↦ rw posix refl
    | inl full ↦
        rw full
          (parse-full cfg job (record o { ro = []; rw = []; seccomp_net = false }) ro rw_paths refl)
  ]

  pub parse-shim_args :
      (cfg : Config) (job : Job)
      → ArePaths (ro_of cfg job)
      → ArePaths (rw_of job)
      → parse t none (shim_args t cfg job) no_options ≡ some (wanted cfg job)
  unfolding shim_args parse set_option and_then wanted wanted_limits
  parse-shim_args cfg job ro rw_paths =
      rw (t.dashed_str job.uid, t.int_str job.uid, t.dashed_str job.gid, t.int_str job.gid)
        (parse-limit "--rlimit-fsize" cfg.fsize _ _ refl
          ∙ parse-limit "--rlimit-nproc" cfg.nproc _ _ refl
          ∙ parse-limit "--rlimit-nofile" cfg.nofile _ _ refl
          ∙ parse-limit "--rlimit-cpu" cfg.cpu _ _ refl
          ∙ parse-limit "--rlimit-as" cfg.as_bytes _ _ refl
          ∙ parse-rest cfg job
              (record no_options {
                uid = some job.uid;
                gid = some job.gid;
                limits = wanted_limits cfg;
              })
              ro rw_paths)
