-- ===== src/Policy.antt =====
-- Which tools a server exposes: mcp_server/tool_policy.py, and the registration of
-- mcp_server/tool_registry.py. The entries of the environment are stripped and in lower case, as
-- `_csv` leaves them; Python's `lower` is an argument.
pub mod Registry
pub mod Exposure
mod Tests
use openstudio_mcp.Base.{
  String, Bool, true, false, not, Option, none, some, List, [], ◌∷◌, ◌++◌, ◌||◌, ◌&&◌, map, keep,
  if◌then◌else◌, ◌==◌, string_eq, contains,
}
use openstudio_mcp.Sandbox.{Config, active_tier}

-- OSMCP_TOOLS_ALLOW (`none` if it is not set), OSMCP_TOOLS_DENY, OSMCP_ENABLE_CODE_TOOLS and
-- OSMCP_CODE_MODE.
pub record Policy : Type 0 where
  pub allow : Option (List String)
  pub deny : List String
  pub code_tools : Option String
  pub code_mode : Bool

abbrev pub code_authoring_tools : List String
code_authoring_tools =
    "create_measure" ∷ "edit_measure" ∷ "create_python_plugin" ∷ "edit_python_plugin"
    ∷ "install_plugin_packages" ∷ []

abbrev pub code_mode_tools : List String
code_mode_tools = "search" ∷ "get_schema" ∷ "execute" ∷ []

abbrev true_words : List String
true_words = "1" ∷ "true" ∷ "yes" ∷ "on" ∷ []

abbrev false_words : List String
false_words = "0" ∷ "false" ∷ "no" ∷ "off" ∷ []

unfoldable pub code_tools_enabled : Policy → Bool
code_tools_enabled p = elim p.code_tools [ none ↦ true | some raw ↦ not (contains false_words raw) ]

-- `_csv("OSMCP_TOOLS_ALLOW")`
abbrev pub entries_of : Option (List String) → List String
entries_of none = []
entries_of (some es) = es

-- `allow and key not in allow`
unfoldable pub is_left_out : List String → String → Bool
is_left_out [] key = false
is_left_out (e ∷ es) key = not (contains (e ∷ es) key)

unfoldable pub tool_enabled : (String → String) → Policy → String → Bool
unfolding is_left_out code_tools_enabled
tool_enabled lower p name =
    let key = lower name in
    if is_left_out (entries_of p.allow) key
    then false
    else if contains p.deny key
    then false
    else code_tools_enabled p || not (contains code_authoring_tools key)

-- Why a policy is refused.
pub data Refusal : Type 0 where
  no_boolean empty_allow : Refusal
  unknown_allow unknown_deny : List String → Refusal

-- `known`
unfoldable pub known_names : (String → String) → Policy → List String → List String
known_names lower p names = map lower names ++ (if p.code_mode then code_mode_tools else [])

unfoldable pub is_no_boolean : Option String → Bool
is_no_boolean none = false
is_no_boolean (some raw) = not (contains (true_words ++ false_words) raw)

unfoldable pub is_empty_allow : Option (List String) → Bool
is_empty_allow none = false
is_empty_allow (some []) = true
is_empty_allow (some (e ∷ es)) = false

-- `sorted(_csv(var) - known)`, unsorted.
unfoldable pub unknown_in : List String → List String → List String
unknown_in known entries = keep (λ e. not (contains known e)) entries

check_deny : List String → Option Refusal
check_deny [] = none
check_deny (e ∷ es) = some (unknown_deny (e ∷ es))

unfoldable pub check_unknown : List String → List String → Option Refusal
unfolding check_deny
check_unknown [] deny = check_deny deny
check_unknown (e ∷ es) deny = some (unknown_allow (e ∷ es))

-- `none` lets the server start.
unfoldable pub validate_policy : (String → String) → Policy → List String → Option Refusal
unfolding known_names is_no_boolean is_empty_allow unknown_in check_unknown
validate_policy lower p names =
    let known = known_names lower p names in
    if is_no_boolean p.code_tools
    then some no_boolean
    else if is_empty_allow p.allow
    then some empty_allow
    else check_unknown (unknown_in known (entries_of p.allow)) (unknown_in known p.deny)

-- The discovery tools of the code mode; `none` if its `execute` is hidden.
unfoldable pub code_mode_transform : (String → String) → Policy → Option (List String)
unfolding tool_enabled
code_mode_transform lower p =
    if not (tool_enabled lower p "execute")
    then none
    else some (keep (tool_enabled lower p) ("search" ∷ "get_schema" ∷ []))

-- Whether `enforce_http_sandbox` lets the server start.
unfoldable pub enforce_http_sandbox : Bool → Bool → Config → Bool
enforce_http_sandbox http allow_unsandboxed cfg =
    if not http
    then true
    else if active_tier cfg == "landlock" && not (cfg.net == "allow")
    then true
    else allow_unsandboxed
