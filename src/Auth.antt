-- ===== src/Auth.antt =====
-- The token check of mcp_server/auth_verify.py: the local check, the cache of the portal's answers,
-- the portal, and the start-up tests of the settings. The local check and the digest of a token are
-- arguments; times are ticks of the monotonic clock.
pub mod Gate
pub mod Backed
pub mod Delay
mod Tests
use openstudio_mcp.Base.{
  ℕ, zero, suc, ◌+◌, String, Bool, true, false, not, Option, none, some, List, [], ◌∷◌, ◌||◌, ◌&&◌,
  if◌then◌else◌, ltb, leb, length, max, ◌==◌, string_eq, ℕ_eq, contains,
}
use openstudio_mcp.Base.Dict
use openstudio_mcp.Base.Dict.{Dict}

-- `verify_url is not None`, and the other settings. `cache_max_size` is as it was given.
pub record Config : Type 0 where
  pub has_url : Bool
  pub fail_open : Bool
  pub cache_ttl : ℕ
  pub cache_max_size : ℕ

-- `max(int(cache_max_size), 1)`
unfoldable pub max_size : Config → ℕ
max_size cfg = max cfg.cache_max_size 1

-- The exchange with the portal: no complete answer, or a status with its body. The body is past the
-- size cap, or it is a JSON object whose `valid` is true or not (no object counts as not).
pub data Body : Type 0 where
  oversized says_valid says_other : Body

pub data Reply : Type 0 where
  no_answer : Reply
  answer : ℕ → Body → Reply

-- What `_portal_allows` returns, or that it raises.
pub data Verdict : Type 0 where
  allowed refused unreachable : Verdict

verdict_of : ℕ → Body → Verdict
verdict_of status oversized = refused
verdict_of status says_valid = if status == 200 then allowed else refused
verdict_of status says_other = refused

unfoldable pub portal_allows : Reply → Verdict
unfolding verdict_of
portal_allows no_answer = unreachable
portal_allows (answer status body) = if leb 500 status then unreachable else verdict_of status body

-- The cache: for the digest of a token, the time at which the portal's "valid" expires.
unfoldable pub hit_entry : ℕ → String → Option ℕ → Dict ℕ → Bool × Dict ℕ
hit_entry now key none cache = (false, cache)
hit_entry now key (some expires_at) cache =
    if leb expires_at now then (false, Dict.erase key cache) else (true, cache)

unfoldable pub cache_hit : Config → ℕ → String → Dict ℕ → Bool × Dict ℕ
unfolding hit_entry
cache_hit cfg now key cache =
    if cfg.cache_ttl == 0 then (false, cache) else hit_entry now key (Dict.lookup key cache) cache

-- `for stale in [k for k, exp in ... if now >= exp]: del ...`
unfoldable pub drop_stale : ℕ → Dict ℕ → Dict ℕ
drop_stale now [] = []
drop_stale now ((k, exp) ∷ d) =
    let rest = drop_stale now d in if leb exp now then rest else (k, exp) ∷ rest

-- `while len(cache) >= max: del` the oldest entry.
unfoldable pub drop_oldest : ℕ → Dict ℕ → Dict ℕ
drop_oldest n [] = []
drop_oldest n (e ∷ d) = let rest = drop_oldest n d in if leb n (length (e ∷ d)) then rest else e ∷ d

unfoldable pub make_room : Config → ℕ → Dict ℕ → Dict ℕ
unfolding drop_stale drop_oldest max_size
make_room cfg now cache =
    drop_oldest (max_size cfg)
      (if leb (max_size cfg) (length cache) then drop_stale now cache else cache)

unfoldable pub cache_put : Config → ℕ → String → Dict ℕ → Dict ℕ
unfolding make_room
cache_put cfg now key cache =
    if cfg.cache_ttl == 0
    then cache
    else Dict.insert key (now + cfg.cache_ttl) (make_room cfg now cache)

-- What follows the portal's verdict.
unfoldable pub after_portal {ℓ} :
    {A : Type ℓ} → Config → ℕ → String → A → Verdict → Dict ℕ → Option A × Dict ℕ
unfolding cache_put
after_portal cfg later key access allowed cache = (some access, cache_put cfg later key cache)
after_portal cfg later key access refused cache = (none, cache)
after_portal cfg later key access unreachable cache =
    (if cfg.fail_open then some access else none, cache)

unfoldable pub ask_portal {ℓ} :
    {A : Type ℓ} → Config → ℕ → String → A → Reply → Bool × Dict ℕ → Option A × Dict ℕ
unfolding after_portal portal_allows
ask_portal cfg later key access reply (true, cache) = (some access, cache)
ask_portal cfg later key access reply (false, cache) =
    after_portal cfg later key access (portal_allows reply) cache

-- A request: its token's digest, what the local check gives, the time of the look into the cache,
-- the portal's reply, if it is asked, and the time of the answer.
pub record Request {ℓ} (A : Type ℓ) : Type ℓ where
  pub key : String
  pub access : Option A
  pub now : ℕ
  pub reply : Reply
  pub later : ℕ

unfoldable pub verify_local {ℓ} :
    {A : Type ℓ} → Config → Option A → Request A → Dict ℕ → Option A × Dict ℕ
unfolding cache_hit ask_portal
verify_local cfg none r cache = (none, cache)
verify_local cfg (some access) r cache =
    if not cfg.has_url
    then (some access, cache)
    else ask_portal cfg r.later r.key access r.reply (cache_hit cfg r.now r.key cache)

unfoldable pub verify_token {ℓ} : {A : Type ℓ} → Config → Request A → Dict ℕ → Option A × Dict ℕ
unfolding verify_local
verify_token cfg r cache = verify_local cfg r.access r cache

-- The server's life: one request after another.
unfoldable pub serve {ℓ} : {A : Type ℓ} → Config → List (Request A) → Dict ℕ → Dict ℕ
unfolding verify_token
serve cfg [] cache = cache
serve cfg (r ∷ rs) cache = serve cfg rs (verify_token cfg r cache).1

-- `_env_flag` of a value that is stripped and in lower case; `none` is the ValueError.
unfoldable pub env_flag : String → Option Bool
env_flag raw =
    if contains ("1" ∷ "true" ∷ "yes" ∷ "on" ∷ []) raw
    then some true
    else if contains ("" ∷ "0" ∷ "false" ∷ "no" ∷ "off" ∷ []) raw
    then some false
    else none

-- Whether `require_issuer_audience` lets the server start; the names are stripped, and blank is
-- missing. `raw` is MCP_JWT_ALLOW_UNSCOPED.
unfoldable pub require_issuer_audience : String → String → String → Bool
unfolding env_flag
require_issuer_audience issuer audience raw =
    if not (issuer == "") && not (audience == "")
    then true
    else elim (env_flag raw) [ none ↦ false | some unscoped ↦ unscoped ]
