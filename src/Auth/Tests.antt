-- ===== src/Auth/Tests.antt =====
-- The token check at concrete requests, and its theorems there. An identity is a name.
use openstudio_mcp.Base.{
  ℕ, ◌+◌, ◌≤◌, ◌<◌, ◌≡◌, ◌⊎◌, String, true, false, none, some, List, [], ◌∷◌, refl, length, arith,
  string_eq, ℕ_eq,
}
use openstudio_mcp.Base.Dict
use openstudio_mcp.Auth.{
  Config, Request, Reply, answer, no_answer, says_valid, portal_allows, allowed, verify_token,
  serve, max_size, drop_oldest, drop_stale, cache_hit, cache_put, require_issuer_audience,
}
use openstudio_mcp.Auth.Delay.{Approved, verify_token-recent}

abbrev cfg : Config
cfg = record { has_url = true; fail_open = false; cache_ttl = 30; cache_max_size = 2 }

abbrev ask : String → ℕ → Reply → Request String
ask key now reply = record {
  key = key;
  access = some key;
  now = now;
  reply = reply;
  later = now + 1;
}

-- To unfold this is to unfold what the requests of the tests compute with.
before : List (Request String)
unfolding serve verify_token cache_hit cache_put portal_allows max_size drop_oldest drop_stale
    require_issuer_audience Dict.lookup Dict.insert Dict.erase
before =
    ask "a" 10 (answer 200 says_valid)
    ∷ ask "b" 20 (answer 200 says_valid)
    ∷ ask "c" 25 (answer 200 says_valid)
    ∷ []

-- The third answer pushed out the oldest.
cached : serve cfg before [] ≡ ("b", 51) ∷ ("c", 56) ∷ []
unfolding before
cached = refl

-- Within the TTL the portal is not asked, and its outage is not seen.
cached_b : (verify_token cfg (ask "b" 50 no_answer) (serve cfg before [])).0 ≡ some "b"
unfolding before
cached_b = refl

late_b : (verify_token cfg (ask "b" 51 no_answer) (serve cfg before [])).0 ≡ none
unfolding before
late_b = refl

scoped : require_issuer_audience "iss" "" "no" ≡ false
unfolding before
scoped = refl

small : length {A = String × ℕ} [] ≤ max_size cfg
unfolding before
small = omega arith

verify_token-recent_example :
    ((t : ℕ) × Approved before "b" t × (50 < t + 30)) ⊎ (portal_allows no_answer ≡ allowed)
verify_token-recent_example =
    verify_token-recent cfg before (ask "b" 50 no_answer) "b" refl refl cached_b
