-- ===== src/Paths.antt =====
-- The path policy of mcp_server/config.py: the directories of a tenant, and which paths a caller may
-- read or write. A path is resolved: the list of its components below the file system's root, which
-- is itself no root of the policy.
pub mod Isolation
mod Tests
use text.Mathlib.Text.{find?}
use openstudio_mcp.Base.{
  String, Bool, true, false, not, Option, none, some, List, [], ◌∷◌, ◌++◌, ◌||◌, ◌&&◌, any,
  contains, if◌then◌else◌, ◌==◌, string_eq,
}

-- RUN_ROOT, MEASURES_DIR, `_SHARED_READ_ROOTS`, and whether a directory of a tenant is what it
-- seems: no link, and resolved.
pub record Roots : Type 0 where
  pub run_root : List String
  pub measures : List String
  pub shared : List (List String)
  pub is_itself : List String → Bool

-- `_under`: the path is the root, or below it.
unfoldable pub is_under : List String → List String → Bool
is_under p [] = true
is_under [] (r ∷ rs) = false
is_under (a ∷ p) (r ∷ rs) = a == r && is_under p rs

-- `text in s`
abbrev pub has_text : String → String → Bool
has_text s text = elim (find? s text) [ none ↦ false | some _ ↦ true ]

unfoldable pub is_bad_key : String → Bool
is_bad_key key = contains ("" ∷ "." ∷ ".." ∷ []) key || has_text key "/" || has_text key "\\"

-- `none` is InvalidUserKeyError.
unfoldable pub tenant_dir : Roots → List String → String → Option (List String)
unfolding is_bad_key
tenant_dir roots base key =
    if is_bad_key key
    then none
    else if not (roots.is_itself (base ++ (key ∷ [])))
    then none
    else some (base ++ (key ∷ []))

unfoldable pub run_root_for : Roots → String → Option (List String)
unfolding tenant_dir
run_root_for roots key =
    if key == "local" then some roots.run_root else tenant_dir roots roots.run_root key

-- The shared roots, which are read-only.
unfoldable pub is_shared : Roots → Bool → List String → Bool
unfolding is_under
is_shared roots write p = not write && any (is_under p) roots.shared

unfoldable pub outside_own_for : Roots → Bool → List String → Bool
unfolding is_shared
outside_own_for roots write p = if is_under p roots.run_root then false else is_shared roots write p

unfoldable pub allowed_for : Roots → Bool → List String → Option (List String) → Option Bool
unfolding outside_own_for
allowed_for roots write p none = none
allowed_for roots write p (some own) =
    some (if is_under p own then true else outside_own_for roots write p)

-- Of the signed routes, with the key of the signature.
unfoldable pub is_path_allowed_for : Roots → String → List String → Bool → Option Bool
unfolding allowed_for run_root_for
is_path_allowed_for roots key p write = allowed_for roots write p (run_root_for roots key)

unfoldable pub in_measures : Roots → Bool → List String → Option (List String) → Option Bool
unfolding is_shared
in_measures roots write p none = none
in_measures roots write p (some own) = some (
    if is_under p own
    then true
    else if is_under p roots.measures
    then false
    else is_shared roots write p)

unfoldable pub in_runs : Roots → String → Bool → List String → Option (List String) → Option Bool
unfolding in_measures tenant_dir
in_runs roots key write p none = none
in_runs roots key write p (some own) =
    if is_under p own
    then some true
    else if is_under p roots.run_root
    then some false
    else in_measures roots write p (tenant_dir roots roots.measures key)

-- Of the caller of a tool, by its key.
unfoldable pub is_path_allowed : Roots → String → List String → Bool → Option Bool
unfolding in_runs run_root_for
is_path_allowed roots key p write = in_runs roots key write p (run_root_for roots key)
