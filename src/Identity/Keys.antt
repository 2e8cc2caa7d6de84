-- ===== src/Identity/Keys.antt =====
-- What every key of mcp_server/identity.py is good for: a directory of its own, with no name that the
-- server or a local run uses.
use openstudio_mcp.Base.{
  ℕ, ◌≤◌, String, Bool, true, false, not, List, [], ◌∷◌, some, none, ◌++◌, ◌≡◌, inl, inr, refl,
  ◌<>◌, ◌==◌, ℕ_eq, string_eq, ◌&&◌, if◌then◌else◌, arith, Bool-cases, contains,
}
use openstudio_mcp.Identity.{
  ends_with_dot, strip, replace_unsafe, every, is_plain, is_safe, is_kept, is_plain_key, is_run_id,
  reserved_keys, prefix_of, sanitize,
}
use openstudio_mcp.Identity.Chars.{
  every-weaken, every-is_kept, count-append, count-first, has_text-slash, has_text-backslash,
}
use openstudio_mcp.Identity.Injective.{sanitize-kept, sanitize-hashed}
use openstudio_mcp.Paths.{Roots, is_bad_key, tenant_dir}
use Prim.Native.String.{count}
use Prim.Native.String.count
use openstudio_mcp.Identity.Hashed.{
  IsDigest, contains-every, reserved-every, dots-every, hashed-tilde, is_run_id-hashed,
  is_plain_key-dots, is_safe-slash, is_safe-backslash, is_plain-is_safe, every-hashed,
}

kept_conjuncts :
    (p r e i : Bool)
    → (p && not r && not e && not i) ≡ true
    → (p ≡ true) × (r ≡ false) × (i ≡ false)
kept_conjuncts p r e i h = (ground arith, ground arith, ground arith)

-- What the test of a kept name says.
is_kept-conjuncts :
    (raw : String)
    → is_kept raw ≡ true
    → (is_plain_key raw ≡ true) × (contains reserved_keys raw ≡ false) × (is_run_id raw ≡ false)
unfolding is_kept
is_kept-conjuncts raw h =
    kept_conjuncts (is_plain_key raw) (contains reserved_keys raw) (ends_with_dot raw)
      (is_run_id raw) h

is_plain_key-count : (s : String) → is_plain_key s ≡ true → count s ≤ 64
unfolding is_plain_key
is_plain_key-count (String.[]) h = absurd (ground arith)
is_plain_key-count (String.◌∷◌ c s) h = rw count.cons (ground arith)

is_kept-count : (raw : String) → is_kept raw ≡ true → count raw ≤ 97
is_kept-count raw h = omega (arith, is_plain_key-count raw (is_kept-conjuncts raw h).0)

count-prefix_of : (raw : String) → count (prefix_of raw) ≤ 32
unfolding prefix_of
count-prefix_of raw = count-first 32 (strip (replace_unsafe raw))

module _ (digest : String → String) (raw : String) where
  pub contains-reserved_sanitize : contains reserved_keys (sanitize digest raw) ≡ false
  contains-reserved_sanitize = elim (Bool-cases (is_kept raw)) [
    | inl kept ↦ rw (sanitize-kept digest raw kept) (is_kept-conjuncts raw kept).1
    | inr cut ↦ rw (sanitize-hashed digest raw cut) (
        contains-every (prefix_of raw <> String.◌∷◌ "~" (digest raw)) reserved_keys reserved-every
          (hashed-tilde (prefix_of raw) (digest raw)))
  ]

  module _ (h : IsDigest (digest raw)) where
    every-sanitize :
        (p : ℕ → Bool)
        → ((n : ℕ) → is_safe n ≡ true → p n ≡ true)
        → p 126 ≡ true
        → every p (sanitize digest raw) ≡ true
    every-sanitize p safe tilde = elim (Bool-cases (is_kept raw)) [
      | inl kept ↦ rw (sanitize-kept digest raw kept) (
          every-weaken is_plain p (λ n e. safe n (is_plain-is_safe n e)) raw
            (every-is_kept raw kept))
      | inr cut ↦
          rw (sanitize-hashed digest raw cut)
            (every-hashed p raw (digest raw) safe tilde h.hexadecimal)
    ]

    contains-dots_sanitize : contains ("" ∷ "." ∷ ".." ∷ []) (sanitize digest raw) ≡ false
    contains-dots_sanitize = elim (Bool-cases (is_kept raw)) [
      | inl kept ↦
          rw (sanitize-kept digest raw kept) (is_plain_key-dots raw (is_kept-conjuncts raw kept).0)
      | inr cut ↦ rw (sanitize-hashed digest raw cut) (
          contains-every (prefix_of raw <> String.◌∷◌ "~" (digest raw)) ("" ∷ "." ∷ ".." ∷ [])
            dots-every (hashed-tilde (prefix_of raw) (digest raw)))
    ]

    is_bad_key-sanitize : is_bad_key (sanitize digest raw) ≡ false
    unfolding is_bad_key
    is_bad_key-sanitize =
        rw
          (
            contains-dots_sanitize,
            has_text-slash (sanitize digest raw)
                (every-sanitize (λ n. not (n == 47)) is_safe-slash refl),
            has_text-backslash (sanitize digest raw)
                (every-sanitize (λ n. not (n == 92)) is_safe-backslash refl),
          )
          refl

    is_run_id-sanitize : is_run_id (sanitize digest raw) ≡ false
    is_run_id-sanitize = elim (Bool-cases (is_kept raw)) [
      | inl kept ↦ rw (sanitize-kept digest raw kept) (is_kept-conjuncts raw kept).2
      | inr cut ↦
          rw (sanitize-hashed digest raw cut)
            (is_run_id-hashed (prefix_of raw) (digest raw) h.hexadecimal)
    ]

    count-sanitize : count (sanitize digest raw) ≤ 97
    count-sanitize = elim (Bool-cases (is_kept raw)) [
      | inl kept ↦ rw (sanitize-kept digest raw kept) (is_kept-count raw kept)
      | inr cut ↦
          rw
            (
              sanitize-hashed digest raw cut,
              count-append (prefix_of raw) (String.◌∷◌ "~" (digest raw)),
              count.cons "~" (digest raw),
              h.long,
            )
            (omega (arith, count-prefix_of raw))
    ]

    -- Where a digest is 64 hexadecimal digits, every key is at most 97 characters long, is neither
    -- `local` nor another name of the server's own nor of the shape of a local run's, and names a
    -- directory that the path policy accepts in any base: it is refused only where what stands there
    -- is a link.
    pub sanitize-tenant_dir :
        (roots : Roots) (base : List String)
        → (count (sanitize digest raw) ≤ 97)
          × (contains reserved_keys (sanitize digest raw) ≡ false)
          × (is_run_id (sanitize digest raw) ≡ false)
          × (tenant_dir roots base (sanitize digest raw) ≡ (
              if roots.is_itself (base ++ (sanitize digest raw ∷ []))
              then some (base ++ (sanitize digest raw ∷ []))
              else none))
    unfolding tenant_dir
    sanitize-tenant_dir roots base = (
      count-sanitize,
      contains-reserved_sanitize,
      is_run_id-sanitize,
      rw is_bad_key-sanitize
          (elim (Bool-cases (roots.is_itself (base ++ (sanitize digest raw ∷ [])))) [
            | inl y ↦ rw y refl
            | inr n ↦ rw n refl
          ]),
    )
