-- ===== src/Paths/Tests.antt =====
-- The path policy at a few paths, and its theorem there.
use openstudio_mcp.Base.{true, false, some, none, [], ◌∷◌, ◌≡◌, refl, string_eq}
use openstudio_mcp.Paths.{
  Roots, is_under, is_bad_key, is_path_allowed, is_path_allowed_for, tenant_dir,
}

-- To unfold this is to unfold what the paths of the tests compute with.
roots : Roots
unfolding is_path_allowed is_path_allowed_for tenant_dir is_bad_key is_under
roots = record {
  run_root = "runs" ∷ [];
  measures = "measures" ∷ [];
  shared = ("inputs" ∷ []) ∷ [];
  is_itself = λ d. true;
}

own_run : is_path_allowed roots "ann" ("runs" ∷ "ann" ∷ "r1" ∷ []) true ≡ some true
unfolding roots
own_run = refl

input_read : is_path_allowed roots "ann" ("inputs" ∷ "a.epw" ∷ []) false ≡ some true
unfolding roots
input_read = refl

input_written : is_path_allowed roots "ann" ("inputs" ∷ "a.epw" ∷ []) true ≡ some false
unfolding roots
input_written = refl

-- A tool may read the caller's own measures; a signed route may not.
own_measure : is_path_allowed roots "ann" ("measures" ∷ "ann" ∷ []) false ≡ some true
unfolding roots
own_measure = refl

own_measure_signed : is_path_allowed_for roots "ann" ("measures" ∷ "ann" ∷ []) false ≡ some false
unfolding roots
own_measure_signed = refl

bad_key : tenant_dir roots ("runs" ∷ []) "a/b" ≡ none
unfolding roots
bad_key = refl
