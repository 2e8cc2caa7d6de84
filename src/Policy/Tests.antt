-- ===== src/Policy/Tests.antt =====
-- Policies at a small roster, and the theorems on them there.
use openstudio_mcp.Base.{
  String, true, false, none, some, List, [], ◌∷◌, ◌≡◌, refl, ◌&&◌, ◌||◌, contains, string_eq, keep,
}
use openstudio_mcp.Base.Dict
use openstudio_mcp.Policy.{
  Policy, unknown_deny, entries_of, tool_enabled, validate_policy, known_names, is_empty_allow,
  code_mode_transform, enforce_http_sandbox, unknown_in,
}
use openstudio_mcp.Policy.Registry.{ToolDescriptor, Registry, empty, register_all, names_of}
use openstudio_mcp.Policy.Exposure.{register_all-exposes, enforce_http_sandbox-confined}
use openstudio_mcp.Sandbox.{ro_of, rw_of, active_tier}
use openstudio_mcp.Sandbox.Sample.{txt, cfg, job, kernel, confined, ruby, paths_ro, paths_rw, runs}

abbrev same : String → String
same s = s

abbrev tool_of : String → ToolDescriptor
tool_of name = record { name = name; skill = "s"; tags = []; description = "" }

abbrev roster : List ToolDescriptor
roster = tool_of "load_model" ∷ tool_of "create_measure" ∷ tool_of "run_osw" ∷ []

-- To unfold this is to unfold what the policies of the tests compute with.
policy : Policy
unfolding register_all tool_enabled validate_policy known_names is_empty_allow code_mode_transform
    enforce_http_sandbox active_tier unknown_in keep job Dict.lookup Dict.insert
policy = record { allow = none; deny = "run_osw" ∷ []; code_tools = some "off"; code_mode = false }

abbrev served_one : Registry
served_one = record {
  descriptors = ("load_model", tool_of "load_model") ∷ [];
  seen = "run_osw" ∷ "create_measure" ∷ "load_model" ∷ [];
  served = "load_model" ∷ [];
}

one_left : register_all same policy roster empty ≡ some served_one
unfolding policy
one_left = refl

twice : register_all same policy (tool_of "a" ∷ tool_of "a" ∷ []) empty ≡ none
unfolding policy
twice = refl

typo :
    validate_policy same (record policy { deny = "run_oswx" ∷ [] }) (names_of roster)
    ≡ some (unknown_deny ("run_oswx" ∷ []))
unfolding policy
typo = refl

hidden_execute : code_mode_transform same (record policy { deny = "execute" ∷ [] }) ≡ none
unfolding policy
hidden_execute = refl

register_all-exposes_example :
    contains served_one.served "run_osw"
    ≡ (contains (names_of roster) "run_osw" && tool_enabled same policy "run_osw")
register_all-exposes_example = register_all-exposes same policy roster served_one "run_osw" one_left

accepted : validate_policy same policy (names_of roster) ≡ none
unfolding policy
accepted = refl

listed : (contains (entries_of policy.allow) "run_osw" || contains policy.deny "run_osw") ≡ true
unfolding policy
listed = refl

starts : enforce_http_sandbox true false cfg ≡ true
unfolding policy
starts = refl

enforce_http_sandbox-confined_example :
    (ruby ≡ ruby)
    × (confined.landlock ≡ some (ro_of cfg job, rw_of job))
    × (confined.net_denied ≡ true)
enforce_http_sandbox-confined_example =
    enforce_http_sandbox-confined txt cfg "python3" job kernel "ruby" ("--" ∷ "x" ∷ []) confined
      ruby starts paths_ro paths_rw runs
