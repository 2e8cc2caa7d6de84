-- ===== src/Identity/Injective.antt =====
-- Two names get one key of mcp_server/identity.py only where they are one name.
use openstudio_mcp.Base.{
  ℕ, String, true, false, ◌≡◌, ◌⊎◌, inl, inr, refl, sym, ap, ◌∙◌, ◌<>◌, ◌==◌, ℕ_eq, if◌then◌else◌,
  arith, Bool-cases,
}
use openstudio_mcp.Identity.{every, is_plain, is_safe, is_kept, prefix_of, sanitize}
use openstudio_mcp.Identity.Chars.{every-append, every-weaken, every-prefix_of, every-is_kept}
use Prim.Native.Char.{code}
use Prim.Native.String.append

-- What follows the first "~".
unfoldable after : String → String
after (String.[]) = ""
after (String.◌∷◌ c s) = if code c == 126 then s else after s

after-append : (p d : String) → every is_safe p ≡ true → after (p <> String.◌∷◌ "~" d) ≡ d
unfolding after every
after-append (String.[]) d h = rw append.nil refl
after-append (String.◌∷◌ c s) d h =
    rw (append.cons c s (String.◌∷◌ "~" d)) (ground (arith, after-append s d))

every-hashed : (p d : String) → every is_safe (p <> String.◌∷◌ "~" d) ≡ false
unfolding every
every-hashed p d = rw (every-append is_safe p (String.◌∷◌ "~" d)) (ground arith)

is_plain-is_safe : (n : ℕ) → is_plain n ≡ true → is_safe n ≡ true
is_plain-is_safe n h = ground arith

module _ (digest : String → String) where
  pub sanitize-kept : (a : String) → is_kept a ≡ true → sanitize digest a ≡ a
  unfolding sanitize
  sanitize-kept a h = rw h refl

  pub sanitize-hashed :
      (a : String)
      → is_kept a ≡ false
      → sanitize digest a ≡ prefix_of a <> String.◌∷◌ "~" (digest a)
  unfolding sanitize
  sanitize-hashed a h = rw h refl

  pub every-sanitize_kept :
      (a : String) → is_kept a ≡ true → every is_safe (sanitize digest a) ≡ true
  every-sanitize_kept a h =
      rw (sanitize-kept a h) (every-weaken is_plain is_safe is_plain-is_safe a (every-is_kept a h))

  pub every-sanitize_hashed :
      (a : String) → is_kept a ≡ false → every is_safe (sanitize digest a) ≡ false
  every-sanitize_hashed a h = rw (sanitize-hashed a h) (every-hashed (prefix_of a) (digest a))

  after-sanitize : (a : String) → is_kept a ≡ false → after (sanitize digest a) ≡ digest a
  after-sanitize a h =
      rw (sanitize-hashed a h) (after-append (prefix_of a) (digest a) (every-prefix_of a))

  -- Two names with one key are one name, or their digests collide.
  pub sanitize-injective :
      (a b : String)
      → sanitize digest a ≡ sanitize digest b
      → (a ≡ b) ⊎ ((is_kept a ≡ false) × (is_kept b ≡ false) × (digest a ≡ digest b))
  sanitize-injective a b e = elim (Bool-cases (is_kept a)) [
    | inl ka ↦ elim (Bool-cases (is_kept b)) [
      | inl kb ↦ inl (sym (sanitize-kept a ka) ∙ e ∙ sanitize-kept b kb)
      | inr hb ↦ absurd (
          ground
            (arith, every-sanitize_kept a ka, every-sanitize_hashed b hb, ap (every is_safe) e))
    ]
    | inr ha ↦ elim (Bool-cases (is_kept b)) [
      | inl kb ↦ absurd (
          ground
            (arith, every-sanitize_kept b kb, every-sanitize_hashed a ha, ap (every is_safe) e))
      | inr hb ↦ inr (ha, hb, sym (after-sanitize a ha) ∙ ap after e ∙ after-sanitize b hb)
    ]
  ]
