-- ===== src/Identity/Apart.antt =====
-- The composition of mcp_server/identity.py with the path policy and with the guard of
-- mcp_server/identity_guard.py.
use openstudio_mcp.Base.{
  String, Bool, true, Option, none, some, List, [], ◌∷◌, ◌++◌, ◌≡◌, ◌≢◌, ◌⊎◌, inl, inr, refl, sym,
  ap, ◌∙◌, arith, contains, string_eq,
}
use openstudio_mcp.Identity.{Request, reserved_keys, sanitize, user_key}
use openstudio_mcp.Identity.Injective.{sanitize-injective}
use openstudio_mcp.Identity.Keys.{contains-reserved_sanitize}
use openstudio_mcp.Identity.Guard.{
  Cause, Outcome, raises, direct, tool_error, other_error, on_call_tool, guarded, convert-identity,
  convert-wrapped,
}
use openstudio_mcp.Paths.{Roots, is_under, is_path_allowed, is_path_allowed_for}
use openstudio_mcp.Paths.Isolation.{is_path_allowed-else}

-- The request carries a verified token of that client id.
abbrev pub IsOf : Request → String → Type 0
IsOf r cid = r.token ≡ some (some cid)

module _ (digest : String → String) where
  user_key-IsOf :
      (r : Request) (a k : String) → IsOf r a → user_key digest r ≡ some k → k ≡ sanitize digest a
  unfolding user_key
  user_key-IsOf r a k t h = ground (arith)

  sanitize-local : (a : String) → sanitize digest a ≢ "local"
  sanitize-local a e =
      absurd (ground (arith, contains-reserved_sanitize digest a, ap (contains reserved_keys) e))

  module _ (r q : Request) (a b k j : String) (ta : IsOf r a) (tb : IsOf q b) (ne : a ≢ b)
      (apart : digest a ≢ digest b) (rk : user_key digest r ≡ some k)
      (qj : user_key digest q ≡ some j) where
    user_key-apart : k ≢ j
    user_key-apart e =
        let same = sym (user_key-IsOf r a k ta rk) ∙ e ∙ user_key-IsOf q b j tb qj in
        elim (sanitize-injective digest a b same) [
          | inl one ↦ absurd (ne one)
          | inr (_, _, d) ↦ absurd (apart d)
        ]

    -- Two authenticated callers of different principals, whose digests do not collide, have no path
    -- in common: what lies in the run area of the one, the other may neither read nor write, with
    -- a tool or on a signed route.
    pub user_key-isolated :
        (roots : Roots) (p : List String) (write : Bool)
        → is_under p (roots.run_root ++ (j ∷ [])) ≡ true
        → (is_path_allowed roots k p write ≢ some true)
          × (is_path_allowed_for roots k p write ≢ some true)
    user_key-isolated roots p write there =
        is_path_allowed-else roots k j p write
          (λ e. sanitize-local a (sym (user_key-IsOf r a k ta rk) ∙ e)) user_key-apart there

  module _ {ℓ κ} {A : Type ℓ} {S : Type κ} (call_next : S → Outcome A × S) (tool : String) where
    guarded-identity :
        (key : Option String) (s : S) (log : List String) (c : Cause)
        → let (out, after, lines) = guarded tool call_next key s log in
          ((out ≡ raises (direct c)) ⊎ (out ≡ raises (tool_error (some c))) → c ≡ other_error)
          × (((after ≡ s) × (lines ≡ log ++ (tool ∷ [])) × (key ≡ none))
              ⊎ ((after ≡ (call_next s).1) × (lines ≡ log) × (key ≢ none)))
    unfolding guarded
    guarded-identity none s log c = (λ h. ground arith, inl (refl, refl, refl))
    guarded-identity (some key) s log c = (
      λ h. elim h [
        | inl d ↦ convert-identity (call_next s).0 c d
        | inr w ↦ convert-wrapped (call_next s).0 c w
      ],
      inr (refl, refl, λ e. ground arith),
    )

    -- Whatever a tool does, no identity error leaves the guard as an exception, bare or as the cause
    -- of a ToolError. A caller without a usable principal changes no state and leaves one line in the
    -- audit log; for any other the tool runs once.
    pub on_call_tool-identity :
        (r : Request) (s : S) (log : List String) (c : Cause)
        → let (out, after, lines) = on_call_tool digest r tool call_next s log in
          ((out ≡ raises (direct c)) ⊎ (out ≡ raises (tool_error (some c))) → c ≡ other_error)
          × (((after ≡ s) × (lines ≡ log ++ (tool ∷ [])) × (user_key digest r ≡ none))
              ⊎ ((after ≡ (call_next s).1) × (lines ≡ log) × (user_key digest r ≢ none)))
    unfolding on_call_tool
    on_call_tool-identity r s log c = guarded-identity (user_key digest r) s log c
