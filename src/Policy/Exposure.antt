-- ===== src/Policy/Exposure.antt =====
-- What mcp_server/tool_policy.py and mcp_server/tool_registry.py come to: the roster that is served,
-- the entries of a policy that is accepted, and the confinement behind a remote server.
use openstudio_mcp.Base.{
  String, Bool, true, false, not, Option, none, some, List, [], ◌∷◌, ◌++◌, ◌≡◌, refl, ◌∙◌, inl, inr,
  ◌||◌, ◌&&◌, ◌==◌, string_eq, contains, keep, arith, Bool-cases, drop, ℕ_eq,
}
use openstudio_mcp.Base.Dict
use openstudio_mcp.Base.Dict.{Dict}
use openstudio_mcp.Policy.{
  Policy, entries_of, tool_enabled, validate_policy, known_names, unknown_in, check_unknown,
  check_deny, is_empty_allow, enforce_http_sandbox,
}
use openstudio_mcp.Policy.Registry.{
  ToolDescriptor, Registry, empty, tool, add_tool, and_register, register_all, names_of,
}
use openstudio_mcp.Sandbox.{
  Text, Config, Job, wrap_cmd, ro_of, rw_of, tier_of, active_tier, enabled, is_full,
}
use openstudio_mcp.Sandbox.Shim.{Kernel, Confinement, ran, main}
use openstudio_mcp.Sandbox.Parsing.{ArePaths}
use openstudio_mcp.Sandbox.Confined.{main-confined}
use text.Mathlib.TextEquality.{eq_iff}

contains-append :
    (xs ys : List String) (k : String) → contains (xs ++ ys) k ≡ (contains xs k || contains ys k)
contains-append [] ys k = refl
contains-append (x ∷ xs) ys k = ground (arith, contains-append xs ys k)

add_tool-served :
    (t : ToolDescriptor) (o : Option ToolDescriptor) (r s : Registry)
    → add_tool t o r ≡ some s
    → s.served ≡ r.served ++ (t.name ∷ [])
unfolding add_tool
add_tool-served t none r s h = ground arith
add_tool-served t (some other) r s h = absurd (cc)

module _ (lower : String → String) (p : Policy) where
  tool-served :
      (t : ToolDescriptor) (r s : Registry) (k : String)
      → tool lower p t r ≡ some s
      → contains s.served k ≡ (contains r.served k || (k == t.name && tool_enabled lower p k))
  unfolding tool
  tool-served t r s k h = elim (Bool-cases (tool_enabled lower p t.name)) [
    | inr hidden ↦ ground (arith, h, hidden, eq_iff k t.name)
    | inl shown ↦
        let added =
          add_tool-served t (Dict.lookup t.name r.descriptors) (record r { seen = t.name ∷ r.seen })
            s (ground (arith, h, shown)) in
        rw added (contains-append r.served (t.name ∷ []) k ∙ ground (arith, shown, eq_iff k t.name))
  ]

  register_all-some :
      (ts : List ToolDescriptor) (o : Option Registry) (s : Registry)
      → and_register o (register_all lower p ts) ≡ some s
      → (r : Registry) × (o ≡ some r) × (register_all lower p ts r ≡ some s)
  unfolding and_register
  register_all-some ts none s h = absurd (cc)
  register_all-some ts (some r) s h = (r, refl, h)

  register_all-served :
      (ts : List ToolDescriptor) (r s : Registry) (k : String)
      → register_all lower p ts r ≡ some s
      → contains s.served k
        ≡ (contains r.served k || (contains (names_of ts) k && tool_enabled lower p k))
  unfolding register_all
  register_all-served [] r s k h = ground arith
  register_all-served (t ∷ ts) r s k h =
      let (r', one, rest) = register_all-some ts (tool lower p t r) s h in
      ground (arith, tool-served t r r' k one, register_all-served ts r' s k rest)

  -- If every skill registers, the server was given exactly the tools that were offered and that the
  -- policy enables.
  pub register_all-exposes :
      (ts : List ToolDescriptor) (s : Registry) (k : String)
      → register_all lower p ts empty ≡ some s
      → contains s.served k ≡ (contains (names_of ts) k && tool_enabled lower p k)
  register_all-exposes ts s k h = register_all-served ts empty s k h

keep-none :
    (test : String → Bool) (xs : List String) (e : String)
    → keep test xs ≡ []
    → contains xs e ≡ true
    → test e ≡ false
unfolding keep
keep-none test [] e none_kept m = absurd (cc)
keep-none test (x ∷ xs) e none_kept m =
    ground (arith, keep-none test xs e, none_kept, m, eq_iff e x)

check_unknown-none :
    (allow deny : List String) → check_unknown allow deny ≡ none → (allow ≡ []) × (deny ≡ [])
unfolding check_unknown check_deny
check_unknown-none [] [] h = (refl, refl)
check_unknown-none [] (e ∷ es) h = absurd (cc)
check_unknown-none (e ∷ es) deny h = absurd (cc)

-- A typo never fails open: with a policy that is accepted, each entry to allow or to deny is the name
-- of a tool of the roster or, in code mode, of the code mode, and the list to allow is not empty.
pub validate_policy-known :
    (lower : String → String) (p : Policy) (names : List String) (e : String)
    → validate_policy lower p names ≡ none
    → (contains (entries_of p.allow) e || contains p.deny e) ≡ true
    → (contains (known_names lower p names) e ≡ true) × (is_empty_allow p.allow ≡ false)
unfolding validate_policy unknown_in
validate_policy-known lower p names e ok m =
    let known = known_names lower p names in
    let (a, d) =
      check_unknown-none (unknown_in known (entries_of p.allow)) (unknown_in known p.deny)
        (ground arith) in
    ground (
      arith,
      keep-none (λ x. not (contains known x)) (entries_of p.allow) e a,
      keep-none (λ x. not (contains known x)) p.deny e d,
    )

tier_of-landlock :
    (on linux full : Bool)
    → (tier_of on linux full == "landlock") ≡ true
    → (on ≡ true) × (linux ≡ true) × (full ≡ true)
unfolding tier_of
tier_of-landlock true true true h = (refl, refl, refl)
tier_of-landlock true true false h = absurd (cc)
tier_of-landlock true false full h = absurd (cc)
tier_of-landlock false linux full h = absurd (cc)

enforce_http_sandbox-full :
    (cfg : Config)
    → enforce_http_sandbox true false cfg ≡ true
    → (enabled cfg ≡ true)
      × (cfg.is_linux ≡ true)
      × (is_full cfg ≡ true)
      × ((cfg.net == "allow") ≡ false)
unfolding enforce_http_sandbox active_tier
enforce_http_sandbox-full cfg h =
    let (on, linux, full) =
      tier_of-landlock (enabled cfg) cfg.is_linux (is_full cfg) (ground arith) in
    (on, linux, full, ground arith)

-- Behind a server for remote users that was let to start without the override, each command that the
-- shim runs for `wrap_cmd` is the one that was given, under the Landlock policy of the configured
-- roots, with the network denied.
pub enforce_http_sandbox-confined :
    (t : Text) (cfg : Config) (python : String) (job : Job) (k : Kernel) (c : String)
    (cs : List String) (con : Confinement) (cmd' : List String)
    → enforce_http_sandbox true false cfg ≡ true
    → ArePaths t (ro_of cfg job)
    → ArePaths t (rw_of job)
    → main t k (drop 3 (wrap_cmd t cfg python job (c ∷ cs))) ≡ ran con cmd'
    → (cmd' ≡ c ∷ cs) × (con.landlock ≡ some (ro_of cfg job, rw_of job)) × (con.net_denied ≡ true)
enforce_http_sandbox-confined t cfg python job k c cs con cmd' starts ro rw_paths h =
    let (on, linux, full, net) = enforce_http_sandbox-full cfg starts in
    let (same, fs, granted, denied, ids) =
      main-confined t cfg python job k c cs con cmd' ro rw_paths on linux full h in
    (same, fs, (denied net).0)
