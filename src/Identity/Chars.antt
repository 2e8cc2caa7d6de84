-- ===== src/Identity/Chars.antt =====
-- The characters of the names that mcp_server/identity.py builds.
use openstudio_mcp.Base.{
  ℕ, zero, suc, ◌+◌, ◌≤◌, String, Bool, true, false, not, ◌≡◌, refl, ◌<>◌, ◌==◌, ℕ_eq, string_eq,
  ◌&&◌, arith, Bool-cases, inl, inr,
}
use openstudio_mcp.Identity.{
  every, is_padding, is_plain, is_safe, is_plain_key, is_kept, replace_unsafe, lstrip, rstrip,
  strip, first, prefix_of,
}
use openstudio_mcp.Paths.{has_text}
use Prim.Native.Char.{code}
use Prim.Native.String.{count, find, len}
use Prim.Native.String.append
use Prim.Native.String.count
use Prim.Native.String.find
use Prim.Native.String.len

module _ (p : ℕ → Bool) where
  pub every-append : (s t : String) → every p (s <> t) ≡ (every p s && every p t)
  unfolding every
  every-append (String.[]) t = rw (append.nil) refl
  every-append (String.◌∷◌ c s) t = rw (append.cons c s t) (ground (arith, every-append s t))

  pub every-first : (n : ℕ) (s : String) → every p s ≡ true → every p (first n s) ≡ true
  unfolding every first
  every-first zero s h = refl
  every-first (suc n) (String.[]) h = refl
  every-first (suc n) (String.◌∷◌ c s) h = ground (arith, every-first n s)

  every-lstrip : (s : String) → every p s ≡ true → every p (lstrip s) ≡ true
  unfolding every lstrip
  every-lstrip (String.[]) h = refl
  every-lstrip (String.◌∷◌ c s) h = ground (arith, every-lstrip s)

  every-rstrip : (s : String) → every p s ≡ true → every p (rstrip s) ≡ true
  unfolding every rstrip
  every-rstrip (String.[]) h = refl
  every-rstrip (String.◌∷◌ c s) h = elim (Bool-cases (is_padding (code c) && rstrip s == "")) [
    | inl y ↦ rw (y, every) refl
    | inr n ↦ rw (n, every) (ground (arith, every-rstrip s))
  ]

  pub every-weaken :
      (q : ℕ → Bool)
      → ((n : ℕ) → p n ≡ true → q n ≡ true)
      → (s : String) → every p s ≡ true
      → every q s ≡ true
  unfolding every
  every-weaken q h (String.[]) e = refl
  every-weaken q h (String.◌∷◌ c s) e = ground (arith, every-weaken q h s, h (code c))

every-replace_unsafe : (s : String) → every is_safe (replace_unsafe s) ≡ true
unfolding every replace_unsafe
every-replace_unsafe (String.[]) = refl
every-replace_unsafe (String.◌∷◌ c s) = elim (Bool-cases (is_safe (code c))) [
  | inl y ↦ rw (y, every) (ground (arith, every-replace_unsafe s))
  | inr n ↦ rw n (every-replace_unsafe s)
]

pub every-prefix_of : (raw : String) → every is_safe (prefix_of raw) ≡ true
unfolding prefix_of strip
every-prefix_of raw = every-first is_safe 32 (strip (replace_unsafe raw)) (
    every-rstrip is_safe (lstrip (replace_unsafe raw))
      (every-lstrip is_safe (replace_unsafe raw) (every-replace_unsafe raw)))

pub every-is_kept : (raw : String) → is_kept raw ≡ true → every is_plain raw ≡ true
unfolding is_kept is_plain_key every
every-is_kept (String.[]) h = refl
every-is_kept (String.◌∷◌ c s) h = ground arith

pub count-append : (s t : String) → count (s <> t) ≡ count s + count t
count-append (String.[]) t = rw (append.nil, count.nil) (omega arith)
count-append (String.◌∷◌ c s) t =
    rw (append.cons c s t, count.cons c (s <> t), count.cons c s) (omega (arith, count-append s t))

pub count-first : (n : ℕ) (s : String) → count (first n s) ≤ n
unfolding first
count-first zero s = rw count.nil (omega arith)
count-first (suc n) (String.[]) = rw count.nil (omega arith)
count-first (suc n) (String.◌∷◌ c s) = rw count.cons (omega (arith, count-first n s))

-- A text of other characters than the slash does not contain one.
find-slash : (s : String) → every (λ n. not (n == 47)) s ≡ true → find s "/" ≡ suc (len s)
unfolding every
find-slash (String.[]) h = rw find.nil refl
find-slash (String.◌∷◌ c s) h = rw (find.cons c s "/", len.cons c s) (ground (arith, find-slash s))

pub has_text-slash : (s : String) → every (λ n. not (n == 47)) s ≡ true → has_text s "/" ≡ false
has_text-slash s h = rw (has_text, find-slash s h) (ground arith)

find-backslash : (s : String) → every (λ n. not (n == 92)) s ≡ true → find s "\\" ≡ suc (len s)
unfolding every
find-backslash (String.[]) h = rw find.nil refl
find-backslash (String.◌∷◌ c s) h =
    rw (find.cons c s "\\", len.cons c s) (ground (arith, find-backslash s))

pub has_text-backslash :
    (s : String) → every (λ n. not (n == 92)) s ≡ true → has_text s "\\" ≡ false
has_text-backslash s h = rw (has_text, find-backslash s h) (ground arith)
