-- ===== src/Auth/Delay.antt =====
-- How long the cache of mcp_server/auth_verify.py can delay a revocation.
use openstudio_mcp.Base.{
  ℕ, ◌+◌, ◌<◌, String, Bool, true, false, Option, none, some, List, [], ◌∷◌, ◌≡◌, ◌⊎◌, refl, inl,
  inr, string_eq, ℕ_eq, arith, Bool-cases,
}
use openstudio_mcp.Base.Dict.{Dict}
use openstudio_mcp.Auth.{
  Config, Reply, Verdict, allowed, refused, unreachable, portal_allows, cache_hit, after_portal,
  ask_portal, Request, verify_local, verify_token, serve,
}
use openstudio_mcp.Auth.Backed.{IsBacked, cache_put-IsBacked, cache_hit-IsBacked, cache_hit-recent}

module _ {ℓ} {A : Type ℓ} (cfg : Config) (P : String → ℕ → Type 0) where
  after_portal-IsBacked :
      (later : ℕ) (k : String) (access : A) (v : Verdict) (d : Dict ℕ)
      → (v ≡ allowed → P k later)
      → IsBacked cfg P d
      → IsBacked cfg P (after_portal cfg later k access v d).1
  unfolding after_portal
  after_portal-IsBacked later k access allowed d p h = cache_put-IsBacked cfg P later k d (p refl) h
  after_portal-IsBacked later k access refused d p h = h
  after_portal-IsBacked later k access unreachable d p h = h

  ask_portal-IsBacked :
      (later : ℕ) (k : String) (access : A) (reply : Reply) (hit : Bool × Dict ℕ)
      → (portal_allows reply ≡ allowed → P k later)
      → IsBacked cfg P hit.1
      → IsBacked cfg P (ask_portal cfg later k access reply hit).1
  unfolding ask_portal
  ask_portal-IsBacked later k access reply (true, d) p h = h
  ask_portal-IsBacked later k access reply (false, d) p h =
      after_portal-IsBacked later k access (portal_allows reply) d p h

  verify_local-IsBacked :
      (o : Option A) (r : Request A) (d : Dict ℕ)
      → (portal_allows r.reply ≡ allowed → P r.key r.later)
      → IsBacked cfg P d
      → IsBacked cfg P (verify_local cfg o r d).1
  unfolding verify_local IsBacked
  verify_local-IsBacked none r d p h = h
  verify_local-IsBacked (some access) r d p h = elim (Bool-cases cfg.has_url) [
    | inr off ↦ rw off h
    | inl on ↦ rw on (
        ask_portal-IsBacked r.later r.key access r.reply (cache_hit cfg r.now r.key d) p
          (cache_hit-IsBacked cfg P r.now r.key d h))
  ]

  -- The portal's answers to a list of requests are among those of `P`.
  abbrev AreKnown : List (Request A) → Type ℓ
  AreKnown [] = Unit
  AreKnown (r ∷ rs) = (portal_allows r.reply ≡ allowed → P r.key r.later) × AreKnown rs

  serve-IsBacked :
      (rs : List (Request A)) (d : Dict ℕ)
      → AreKnown rs
      → IsBacked cfg P d
      → IsBacked cfg P (serve cfg rs d)
  unfolding serve verify_token
  serve-IsBacked [] d p h = h
  serve-IsBacked (r ∷ rs) d (p, ps) h =
      serve-IsBacked rs (verify_token cfg r d).1 ps (verify_local-IsBacked r.access r d p h)

  -- An accepted request is backed by a recent answer, or by its own.
  abbrev IsRecent : Request A → Type 0
  IsRecent r =
      ((t : ℕ) × P r.key t × (r.now < t + cfg.cache_ttl)) ⊎ (portal_allows r.reply ≡ allowed)

  after_portal-allowed :
      (later : ℕ) (k : String) (access a : A) (v : Verdict) (d : Dict ℕ)
      → cfg.fail_open ≡ false
      → (after_portal cfg later k access v d).0 ≡ some a
      → v ≡ allowed
  unfolding after_portal
  after_portal-allowed later k access a allowed d closed h = refl
  after_portal-allowed later k access a refused d closed h = absurd (cc)
  after_portal-allowed later k access a unreachable d closed h = absurd (ground arith)

  ask_portal-IsRecent :
      (r : Request A) (access a : A) (hit : Bool × Dict ℕ)
      → cfg.fail_open ≡ false
      → (hit.0 ≡ true → (t : ℕ) × P r.key t × (r.now < t + cfg.cache_ttl))
      → (ask_portal cfg r.later r.key access r.reply hit).0 ≡ some a
      → IsRecent r
  unfolding ask_portal
  ask_portal-IsRecent r access a (true, d) closed recent h = inl (recent refl)
  ask_portal-IsRecent r access a (false, d) closed recent h =
      inr (after_portal-allowed r.later r.key access a (portal_allows r.reply) d closed h)

  verify_local-IsRecent :
      (o : Option A) (r : Request A) (d : Dict ℕ) (a : A)
      → cfg.has_url ≡ true
      → cfg.fail_open ≡ false
      → IsBacked cfg P d
      → (verify_local cfg o r d).0 ≡ some a
      → IsRecent r
  unfolding verify_local
  verify_local-IsRecent none r d a on closed b h = absurd (cc)
  verify_local-IsRecent (some access) r d a on closed b h =
      ask_portal-IsRecent r access a (cache_hit cfg r.now r.key d) closed
        (cache_hit-recent cfg P r.now r.key d b) (ground arith)

-- The portal called the token of the key `k` valid at `t`, in answer to one of the requests.
pub Approved {ℓ} : {A : Type ℓ} → List (Request A) → String → ℕ → Type 0
Approved [] k t = ⊥
Approved (r ∷ rs) k t =
    ((portal_allows r.reply ≡ allowed) × (r.key ≡ k) × (r.later ≡ t)) ⊎ Approved rs k t

known_in {ℓ} :
    {A : Type ℓ} (cfg : Config) (P : String → ℕ → Type 0) (rs : List (Request A))
    → ((k : String) (t : ℕ) → Approved rs k t → P k t)
    → AreKnown cfg P rs
unfolding Approved
known_in cfg P [] sub = tt
known_in cfg P (r ∷ rs) sub =
    ((λ ok. sub r.key r.later (inl (ok, refl, refl))), known_in cfg P rs (λ k t h. sub k t (inr h)))

-- A revocation is delayed by less than the TTL of the cache. On a server that asks the portal, fails
-- closed and started with an empty cache, a request is accepted only if the portal calls its token
-- valid in answer to it, or did in answer to an earlier request, at a time that lies less than the
-- TTL back.
pub verify_token-recent {ℓ} :
    {A : Type ℓ} (cfg : Config) (before : List (Request A)) (r : Request A) (a : A)
    → cfg.has_url ≡ true
    → cfg.fail_open ≡ false
    → (verify_token cfg r (serve cfg before [])).0 ≡ some a
    → ((t : ℕ) × Approved before r.key t × (r.now < t + cfg.cache_ttl))
      ⊎ (portal_allows r.reply ≡ allowed)
unfolding verify_token
verify_token-recent cfg before r a on closed h =
    let P = Approved before in
    verify_local-IsRecent cfg P r.access r (serve cfg before []) a on closed
      (serve-IsBacked cfg P before [] (known_in cfg P before (λ k t e. e)) (unfold IsBacked in tt))
      h
