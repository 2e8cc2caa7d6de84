-- ===== src/Sandbox/Tests.antt =====
-- The sandbox at concrete settings, and its theorems there.
use openstudio_mcp.Base.{ℕ, true, some, [], ◌∷◌, ◌≡◌, refl, string_eq, ℕ_eq, drop}
use openstudio_mcp.Sandbox.{is_full, wrap_cmd, active_tier}
use openstudio_mcp.Sandbox.Seccomp.{
  x86_64, Call, program, exec, policy, deny_net, ret_allow, exec-program,
}
use openstudio_mcp.Sandbox.Shim.{confine, main}
use openstudio_mcp.Sandbox.Parsing.{wanted}
use openstudio_mcp.Sandbox.Confined.{main-wrap_cmd}
use openstudio_mcp.Sandbox.Sample.{paths_ro, paths_rw, on, ruby, txt, cfg, job, kernel}

tier : active_tier cfg ≡ "landlock"
unfolding job
tier = refl

full : is_full cfg ≡ true
unfolding job
full = refl

main-wrap_cmd_example :
    main txt kernel (drop 3 (wrap_cmd txt cfg "python3" job ruby))
    ≡ confine kernel (wanted cfg job) job.uid job.gid ruby
main-wrap_cmd_example =
    main-wrap_cmd txt cfg "python3" job kernel "ruby" ("--" ∷ "x" ∷ []) paths_ro paths_rw on refl

abbrev socket : ℕ → Call
socket domain = record { nr = 41; arch = 3221225534; arg0 = domain }

inet_denied : exec 13 (program x86_64) (socket 2) 0 0 ≡ some deny_net
unfolding job
inet_denied = refl

unix_allowed : exec 13 (program x86_64) (socket 1) 0 0 ≡ some ret_allow
unfolding job
unix_allowed = refl

exec-program_example : exec 13 (program x86_64) (socket 10) 0 0 ≡ some (policy x86_64 (socket 10))
exec-program_example = exec-program x86_64 (socket 10)
