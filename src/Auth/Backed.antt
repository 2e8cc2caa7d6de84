-- ===== src/Auth/Backed.antt =====
-- What an entry of the cache of mcp_server/auth_verify.py stands for.
use openstudio_mcp.Base.{
  ℕ, suc, ◌+◌, ◌<◌, String, true, Option, none, some, [], ◌∷◌, ◌≡◌, refl, sym, subst, inl, inr, leb,
  length, ◌==◌, string_eq, ℕ_eq, arith, Bool-cases, Option-cases,
}
use openstudio_mcp.Base.Dict
use openstudio_mcp.Base.Dict.{Dict, lookup-cons, lookup-insert, lookup-erase}
use openstudio_mcp.Auth.{
  Config, max_size, cache_hit, hit_entry, drop_stale, drop_oldest, make_room, cache_put,
}
use text.Mathlib.TextEquality.{eq_iff}

-- `P k t` says that the portal called the token of key `k` valid at the time `t`.
module _ (cfg : Config) (P : String → ℕ → Type 0) where
  -- Each entry of the cache stands for an answer of the portal, one TTL before its end.
  unfoldable pub IsBacked : Dict ℕ → Type 0
  IsBacked [] = Unit
  IsBacked ((k, exp) ∷ d) = ((t : ℕ) × P k t × (exp ≡ t + cfg.cache_ttl)) × IsBacked d

  lookup-IsBacked :
      (k : String) (exp : ℕ) (d : Dict ℕ)
      → IsBacked d
      → Dict.lookup k d ≡ some exp
      → (t : ℕ) × P k t × (exp ≡ t + cfg.cache_ttl)
  unfolding IsBacked Dict.lookup
  lookup-IsBacked k exp [] h there = absurd (cc)
  lookup-IsBacked k exp ((j, e) ∷ d) ((t, p, q), h) there = elim (Bool-cases (k == j)) [
    | inl same ↦ (t, subst (λ i. P i t) (sym ((eq_iff k j).0 same)) p, ground (arith, q))
    | inr other ↦ lookup-IsBacked k exp d h (ground arith)
  ]

  erase-IsBacked : (k : String) (d : Dict ℕ) → IsBacked d → IsBacked (Dict.erase k d)
  unfolding IsBacked Dict.erase
  erase-IsBacked k [] h = tt
  erase-IsBacked k ((j, e) ∷ d) (here, h) = elim (Bool-cases (k == j)) [
    | inl same ↦ rw same (erase-IsBacked k d h)
    | inr other ↦ rw other (here, erase-IsBacked k d h)
  ]

  insert-IsBacked :
      (k : String) (t : ℕ) (d : Dict ℕ)
      → P k t
      → IsBacked d
      → IsBacked (Dict.insert k (t + cfg.cache_ttl) d)
  unfolding IsBacked Dict.insert
  insert-IsBacked k t [] p h = ((t, p, refl), tt)
  insert-IsBacked k t ((j, e) ∷ d) p (here, h) = elim (Bool-cases (k == j)) [
    | inl same ↦ rw same ((t, subst (λ i. P i t) ((eq_iff k j).0 same) p, refl), h)
    | inr other ↦ rw other (here, insert-IsBacked k t d p h)
  ]

  drop_stale-IsBacked : (now : ℕ) (d : Dict ℕ) → IsBacked d → IsBacked (drop_stale now d)
  unfolding IsBacked drop_stale
  drop_stale-IsBacked now [] h = tt
  drop_stale-IsBacked now ((j, e) ∷ d) (here, h) = elim (Bool-cases (leb e now)) [
    | inl old ↦ rw old (drop_stale-IsBacked now d h)
    | inr new ↦ rw new (here, drop_stale-IsBacked now d h)
  ]

  drop_oldest-IsBacked : (n : ℕ) (d : Dict ℕ) → IsBacked d → IsBacked (drop_oldest n d)
  unfolding IsBacked drop_oldest
  drop_oldest-IsBacked n [] h = tt
  drop_oldest-IsBacked n ((j, e) ∷ d) (here, h) = elim (Bool-cases (leb n (suc (length d)))) [
    | inl more ↦ rw more (drop_oldest-IsBacked n d h)
    | inr fits ↦ rw fits (here, h)
  ]

  pub cache_put-IsBacked :
      (t : ℕ) (k : String) (d : Dict ℕ) → P k t → IsBacked d → IsBacked (cache_put cfg t k d)
  unfolding cache_put make_room
  cache_put-IsBacked t k d p h = elim (Bool-cases (cfg.cache_ttl == 0)) [
    | inl off ↦ rw off h
    | inr on ↦ rw on (
        insert-IsBacked k t _ p (
          drop_oldest-IsBacked (max_size cfg) _ (elim (Bool-cases (leb (max_size cfg) (length d))) [
            | inl full ↦ rw full (drop_stale-IsBacked t d h)
            | inr room ↦ rw room h
          ])))
  ]

  pub cache_hit-IsBacked :
      (now : ℕ) (k : String) (d : Dict ℕ) → IsBacked d → IsBacked (cache_hit cfg now k d).1
  unfolding cache_hit hit_entry
  cache_hit-IsBacked now k d h = elim (Bool-cases (cfg.cache_ttl == 0)) [
    | inl off ↦ rw off h
    | inr on ↦ rw on (in_entry (Dict.lookup k d))
  ]
    where
      in_entry : (o : Option ℕ) → IsBacked (hit_entry now k o d).1
      in_entry none = h
      in_entry (some exp) = elim (Bool-cases (leb exp now)) [
        | inl old ↦ rw old (erase-IsBacked k d h)
        | inr new ↦ rw new h
      ]

  pub cache_hit-recent :
      (now : ℕ) (k : String) (d : Dict ℕ)
      → IsBacked d
      → (cache_hit cfg now k d).0 ≡ true
      → (t : ℕ) × P k t × (now < t + cfg.cache_ttl)
  unfolding cache_hit hit_entry
  cache_hit-recent now k d h hit = elim (Option-cases (Dict.lookup k d)) [
    | inl e ↦ absurd (ground arith)
    | inr (exp, e) ↦ let (t, p, q) = lookup-IsBacked k exp d h e in (t, p, ground (arith, q))
  ]
