-- ===== src/Identity/Tests.antt =====
-- The keys of a few callers, and the theorems there.
use openstudio_mcp.Base.{
  String, true, false, none, some, [], ◌∷◌, ◌++◌, ◌≡◌, ◌≢◌, ◌⊎◌, ◌≤◌, refl, ◌<>◌, contains, arith,
  string_eq, if◌then◌else◌, ap, ◌==◌, ℕ, suc,
}
use openstudio_mcp.Identity.{
  Request, sanitize, user_key, session_key, is_kept, is_run_id, every, reserved_keys,
}
use openstudio_mcp.Identity.Injective.{sanitize-injective}
use openstudio_mcp.Identity.Hashed.{IsDigest}
use openstudio_mcp.Identity.Keys.{sanitize-tenant_dir}
use openstudio_mcp.Identity.Guard.{
  Outcome, raises, direct, tool_error, other_error, on_call_tool, invalid_principal,
}
use openstudio_mcp.Identity.Apart.{IsOf, user_key-isolated, on_call_tool-identity}
use openstudio_mcp.Paths.{Roots, is_path_allowed, is_path_allowed_for, tenant_dir, is_under}
use Prim.Native.String.{count}

-- 64 hexadecimal digits, the last of which tells the names of the tests apart.
abbrev sixteen : String
sixteen = "0123456789abcdef"

digest : String → String
unfolding sanitize user_key session_key on_call_tool
digest s =
    sixteen <> (sixteen <> (sixteen <> ("0123456789abcde" <> (if s == "Ann" then "0" else "1"))))

plain : sanitize digest "ann.b-1" ≡ "ann.b-1"
unfolding digest
plain = refl

upper : sanitize digest "Ann" ≡ "Ann~" <> digest "Ann"
unfolding digest
upper = refl

reserved : sanitize digest "local" ≡ "local~" <> digest "local"
unfolding digest
reserved = refl

run_shaped : sanitize digest "a_0123456789ab" ≡ "a_0123456789ab~" <> digest "a"
unfolding digest
run_shaped = refl

dots : sanitize digest "../x/." ≡ "x~" <> digest ".."
unfolding digest
dots = refl

of_token : String → Request
of_token cid = record { token = some (some cid); is_http = true; context = none }

anonymous_stdio :
    user_key digest (record { token = none; is_http = false; context = some (some "s1") })
    ≡ some "local"
unfolding digest
anonymous_stdio = refl

anonymous_http :
    user_key digest (record { token = none; is_http = true; context = some (some "s1") })
    ≡ some "s1"
unfolding digest
anonymous_http = refl

unknown : user_key digest (of_token "unknown") ≡ none
unfolding digest of_token
unknown = refl

no_client : user_key digest (record { token = some none; is_http = true; context = none }) ≡ none
unfolding digest
no_client = refl

session_of_no_context :
    session_key (record { token = none; is_http = true; context = none }) ≡ "local"
unfolding digest
session_of_no_context = refl

ann_key : user_key digest (of_token "ann") ≡ some "ann"
unfolding digest of_token
ann_key = refl

bob_key : user_key digest (of_token "Ann") ≡ some ("Ann~" <> digest "Ann")
unfolding digest of_token
bob_key = refl

ann_IsOf : IsOf (of_token "ann") "ann"
unfolding of_token
ann_IsOf = refl

bob_IsOf : IsOf (of_token "Ann") "Ann"
unfolding of_token
bob_IsOf = refl

digests_apart : digest "ann" ≢ digest "Ann"
unfolding digest
digests_apart e = absurd (ground (arith, ap (λ s. s == digest "ann") e))

names_apart : ◌≢◌ {A = String} "ann" "Ann"
names_apart e = absurd (ground (arith, ap (λ s. s == "ann") e))

abbrev roots : Roots
roots = record {
  run_root = "runs" ∷ [];
  measures = "measures" ∷ [];
  shared = [];
  is_itself = λ d. true;
}

unfoldable there :
    is_under
      ("runs" ∷ ("Ann~" <> digest "Ann") ∷ "r1" ∷ [])
      ("runs" ∷ ("Ann~" <> digest "Ann") ∷ [])
    ≡ true
unfolding is_under digest
there = refl

sanitize-injective_example :
    (◌≡◌ {A = String} "x" "x")
    ⊎ ((is_kept "x" ≡ false) × (is_kept "x" ≡ false) × (digest "x" ≡ digest "x"))
sanitize-injective_example = sanitize-injective digest "x" "x" refl

digest-IsDigest : IsDigest (digest "Ann")
unfolding digest every
digest-IsDigest = record { hexadecimal = refl; long = refl }

sanitize-tenant_dir_example :
    (count (sanitize digest "Ann") ≤ 97)
    × (contains reserved_keys (sanitize digest "Ann") ≡ false)
    × (is_run_id (sanitize digest "Ann") ≡ false)
    × (tenant_dir roots ("runs" ∷ []) (sanitize digest "Ann")
        ≡ (if true then some (("runs" ∷ []) ++ (sanitize digest "Ann" ∷ [])) else none))
sanitize-tenant_dir_example = sanitize-tenant_dir digest "Ann" digest-IsDigest roots ("runs" ∷ [])

user_key-isolated_example :
    (is_path_allowed roots "ann" ("runs" ∷ ("Ann~" <> digest "Ann") ∷ "r1" ∷ []) false ≢ some true)
    × (is_path_allowed_for roots "ann" ("runs" ∷ ("Ann~" <> digest "Ann") ∷ "r1" ∷ []) false
        ≢ some true)
user_key-isolated_example =
    user_key-isolated digest (of_token "ann") (of_token "Ann") "ann" "Ann" "ann"
      ("Ann~" <> digest "Ann") ann_IsOf bob_IsOf names_apart digests_apart ann_key bob_key roots
      ("runs" ∷ ("Ann~" <> digest "Ann") ∷ "r1" ∷ []) false there

-- A tool that counts its calls and fails.
abbrev failing : ℕ → Outcome ℕ × ℕ
failing n = (raises (tool_error (some invalid_principal)), suc n)

on_call_tool-identity_example :
    let (out, after, lines) = on_call_tool digest (of_token "ann") "t" failing 3 [] in
    ((out ≡ raises (direct other_error)) ⊎ (out ≡ raises (tool_error (some other_error)))
      → other_error ≡ other_error)
    × (((after ≡ 3) × (lines ≡ [] ++ ("t" ∷ [])) × (user_key digest (of_token "ann") ≡ none))
        ⊎ ((after ≡ 4) × (lines ≡ []) × (user_key digest (of_token "ann") ≢ none)))
on_call_tool-identity_example =
    on_call_tool-identity digest failing "t" (of_token "ann") 3 [] other_error
