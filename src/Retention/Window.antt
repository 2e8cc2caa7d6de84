-- ===== src/Retention/Window.antt =====
-- The windows of mcp_server/skills/simulation/retention.py: when the daemon is off, and what a
-- cleanup without a window spares.
use openstudio_mcp.Base.{
  ℕ, zero, suc, ◌≤◌, ◌<◌, ◌*◌, String, Bool, true, false, Option, none, some, ◌≡◌, ◌⊎◌, ◌↔◌, refl,
  inl, inr, arith, ℤ, pos, negsuc,
}
use openstudio_mcp.Base.Dict
use openstudio_mcp.Base.Dict.{Dict, NodupKeys}
use openstudio_mcp.Runs.{Env}
use openstudio_mcp.Retention.{Dir, is_skipped, run_age_seconds, resolve_gc_days, at_least_zero}
use openstudio_mcp.Retention.Sweep.{Store}
use openstudio_mcp.Retention.Calls.{cleanup_days, cleanup_runs}
use openstudio_mcp.Retention.Exact.{lookup-sweep_user_root}

-- The window that the arguments ask for, if they ask for one.
abbrev pub IsOn : Bool → Option ℤ → ℤ → Type 0
IsOn gc (some days) env_days = (n : ℕ) × (days ≡ pos (suc n))
IsOn gc none env_days = (gc ≡ true) ⊎ ((n : ℕ) × (env_days ≡ pos (suc n)))

-- The daemon is on exactly if `--gc-days` names a positive window or, without it, `--gc` is given or
-- the environment names one: no value, a negative one included, turns it on otherwise.
pub resolve_gc_days_iff :
    (gc : Bool) (days : Option ℤ) (env_days : ℤ)
    → (0 < resolve_gc_days gc days env_days) ↔ IsOn gc days env_days
unfolding resolve_gc_days at_least_zero
resolve_gc_days_iff gc (some (pos zero)) e =
    ((λ h. absurd (omega (arith, h))), λ (n, h). absurd (cc))
resolve_gc_days_iff gc (some (pos (suc n))) e = ((λ h. (n, refl)), λ h. omega arith)
resolve_gc_days_iff gc (some (negsuc n)) e =
    ((λ h. absurd (omega (arith, h))), λ (n, h). absurd (cc))
resolve_gc_days_iff true none (pos zero) = ((λ h. inl refl), λ h. omega arith)
resolve_gc_days_iff true none (pos (suc n)) = ((λ h. inl refl), λ h. omega arith)
resolve_gc_days_iff true none (negsuc n) = ((λ h. inl refl), λ h. omega arith)
resolve_gc_days_iff false none (pos zero) = (
  (λ h. absurd (omega (arith, h))),
  λ h. elim h [ inl e ↦ absurd (cc) | inr (n, e) ↦ absurd (cc) ],
)
resolve_gc_days_iff false none (pos (suc n)) = ((λ h. inr (n, refl)), λ h. omega arith)
resolve_gc_days_iff false none (negsuc n) = (
  (λ h. absurd (omega (arith, h))),
  λ h. elim h [ inl e ↦ absurd (cc) | inr (n, e) ↦ absurd (cc) ],
)

cleanup_days-default : (retention : ℕ) → 1 ≤ cleanup_days none retention
unfolding cleanup_days
cleanup_days-default zero = omega arith
cleanup_days-default (suc n) = omega arith

-- A cleanup that is given no window removes nothing that is less than a day old, whatever the window
-- of the daemon.
pub cleanup_runs-default :
    (env : Env) (removes : String → Bool) (retention : ℕ) (dry_run : Bool) (s : Store) (k : String)
    (d : Dir)
    → NodupKeys s.dirs
    → Dict.lookup k s.dirs ≡ some d
    → run_age_seconds env.now d < 86400
    → Dict.lookup k (cleanup_runs env removes retention none dry_run s).1.dirs ≡ some d
unfolding cleanup_runs is_skipped
cleanup_runs-default env removes retention dry_run s k d nodup there young = ground (
  arith,
  lookup-sweep_user_root env removes dry_run (cleanup_days none retention * 86400) s k nodup,
  cleanup_days-default retention,
)
