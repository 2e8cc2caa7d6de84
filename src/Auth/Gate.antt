-- ===== src/Auth/Gate.antt =====
-- The token check of mcp_server/auth_verify.py as a gate: whose identity it gives, when it opens,
-- and how large its cache grows.
use openstudio_mcp.Base.{
  ℕ, ◌+◌, ◌≤◌, ◌<◌, String, Bool, true, false, Option, none, some, List, [], ◌∷◌, ◌≡◌, inl, inr,
  if◌then◌else◌, leb, length, string_eq, ℕ_eq, arith, Bool-cases,
}
use openstudio_mcp.Base.Dict.{Dict, length-insert, length-erase-le}
use openstudio_mcp.Auth.{
  Config, max_size, Reply, Verdict, allowed, refused, unreachable, portal_allows, cache_hit,
  hit_entry, drop_stale, drop_oldest, make_room, cache_put, after_portal, ask_portal, Request,
  verify_local, verify_token, serve,
}

length-drop_oldest : (n : ℕ) (d : Dict ℕ) → 1 ≤ n → length (drop_oldest n d) < n
unfolding drop_oldest
length-drop_oldest n [] pos = omega arith
length-drop_oldest n (e ∷ d) pos = ground (arith, length-drop_oldest n d pos)

length-cache_put :
    (cfg : Config) (now : ℕ) (key : String) (cache : Dict ℕ)
    → length cache ≤ max_size cfg
    → length (cache_put cfg now key cache) ≤ max_size cfg
unfolding cache_put make_room max_size
length-cache_put cfg now key cache h =
    let room = (if leb (max_size cfg) (length cache) then drop_stale now cache else cache) in
    ground (
      arith,
      h,
      length-drop_oldest (max_size cfg) room,
      length-insert key (now + cfg.cache_ttl) (drop_oldest (max_size cfg) room),
    )

length-cache_hit :
    (cfg : Config) (now : ℕ) (key : String) (cache : Dict ℕ)
    → length cache ≤ max_size cfg
    → length (cache_hit cfg now key cache).1 ≤ max_size cfg
unfolding cache_hit hit_entry
length-cache_hit cfg now key cache h = ground (arith, h, length-erase-le key cache)

module _ {ℓ} {A : Type ℓ} (cfg : Config) where
  after_portal-identity :
      (later : ℕ) (key : String) (access a : A) (v : Verdict) (cache : Dict ℕ)
      → (after_portal cfg later key access v cache).0 ≡ some a
      → some access ≡ some a
  unfolding after_portal
  after_portal-identity later key access a allowed cache h = h
  after_portal-identity later key access a refused cache h = absurd (cc)
  after_portal-identity later key access a unreachable cache h = ground arith

  ask_portal-identity :
      (later : ℕ) (key : String) (access a : A) (reply : Reply) (hit : Bool × Dict ℕ)
      → (ask_portal cfg later key access reply hit).0 ≡ some a
      → some access ≡ some a
  unfolding ask_portal
  ask_portal-identity later key access a reply (true, cache) h = h
  ask_portal-identity later key access a reply (false, cache) h =
      after_portal-identity later key access a (portal_allows reply) cache h

  verify_local-identity :
      (o : Option A) (r : Request A) (cache : Dict ℕ) (a : A)
      → (verify_local cfg o r cache).0 ≡ some a
      → o ≡ some a
  unfolding verify_local
  verify_local-identity none r cache a h = absurd (cc)
  verify_local-identity (some access) r cache a h = elim (Bool-cases cfg.has_url) [
    | inr off ↦ ground arith
    | inl on ↦
        ask_portal-identity r.later r.key access a r.reply (cache_hit cfg r.now r.key cache)
          (ground arith)
  ]

  -- The identity of an accepted request is the one that the local check found, whatever the portal
  -- and the cache say.
  pub verify_token-identity :
      (r : Request A) (cache : Dict ℕ) (a : A)
      → (verify_token cfg r cache).0 ≡ some a
      → r.access ≡ some a
  unfolding verify_token
  verify_token-identity r cache a h = verify_local-identity r.access r cache a h

  after_portal-length :
      (later : ℕ) (key : String) (access : A) (v : Verdict) (cache : Dict ℕ)
      → length cache ≤ max_size cfg
      → length (after_portal cfg later key access v cache).1 ≤ max_size cfg
  unfolding after_portal
  after_portal-length later key access allowed cache h = length-cache_put cfg later key cache h
  after_portal-length later key access refused cache h = h
  after_portal-length later key access unreachable cache h = h

  ask_portal-length :
      (later : ℕ) (key : String) (access : A) (reply : Reply) (hit : Bool × Dict ℕ)
      → length hit.1 ≤ max_size cfg
      → length (ask_portal cfg later key access reply hit).1 ≤ max_size cfg
  unfolding ask_portal
  ask_portal-length later key access reply (true, cache) h = h
  ask_portal-length later key access reply (false, cache) h =
      after_portal-length later key access (portal_allows reply) cache h

  verify_local-length :
      (o : Option A) (r : Request A) (cache : Dict ℕ)
      → length cache ≤ max_size cfg
      → length (verify_local cfg o r cache).1 ≤ max_size cfg
  unfolding verify_local
  verify_local-length none r cache h = h
  verify_local-length (some access) r cache h = elim (Bool-cases cfg.has_url) [
    | inr off ↦ rw off h
    | inl on ↦ rw on (
        ask_portal-length r.later r.key access r.reply (cache_hit cfg r.now r.key cache)
          (length-cache_hit cfg r.now r.key cache h))
  ]

  -- The cache never grows past its size, which is at least one entry whatever the settings.
  pub serve-length :
      (rs : List (Request A)) (cache : Dict ℕ)
      → length cache ≤ max_size cfg
      → length (serve cfg rs cache) ≤ max_size cfg
  unfolding serve verify_token
  serve-length [] cache h = h
  serve-length (r ∷ rs) cache h =
      serve-length rs (verify_token cfg r cache).1 (verify_local-length r.access r cache h)
