-- ===== src/Identity/Hashed.antt =====
-- The hashed keys of mcp_server/identity.py: their characters, and the names that they are not.
use openstudio_mcp.Base.{
  ℕ, String, Bool, true, false, not, List, [], ◌∷◌, ◌≡◌, refl, ap, ◌<>◌, ◌==◌, ==_false, ℕ_eq,
  string_eq, arith, contains, All,
}
use openstudio_mcp.Identity.{
  every, is_plain, is_safe, is_hex, is_plain_key, is_run_id, reserved_keys, prefix_of,
}
use openstudio_mcp.Identity.Chars.{every-append, every-weaken, every-prefix_of}
use Prim.Native.String.{count}
use Prim.Native.String.append
use text.Mathlib.TextEquality.{eq_iff}

-- What a hexadecimal SHA-256 looks like.
pub record IsDigest (d : String) : Type 0 where
  pub hexadecimal : every is_hex d ≡ true
  pub long : count d ≡ 64

abbrev is_no_tilde : ℕ → Bool
is_no_tilde n = not (n == 126)

pub contains-every :
    (k : String) (xs : List String)
    → All (λ x. every is_no_tilde x ≡ true) xs
    → every is_no_tilde k ≡ false
    → contains xs k ≡ false
contains-every k [] h e = refl
contains-every k (x ∷ xs) (hx, h) e = ground (arith, contains-every k xs h e, eq_iff k x)

pub reserved-every : All (λ x. every is_no_tilde x ≡ true) reserved_keys
unfolding every
reserved-every =
    (refl, (refl, (refl, (refl, (refl, (refl, (refl, (refl, (refl, (refl, (refl, tt)))))))))))

pub dots-every : All (λ x. every is_no_tilde x ≡ true) ("" ∷ "." ∷ ".." ∷ [])
unfolding every
dots-every = (refl, (refl, (refl, tt)))

pub hashed-tilde : (p d : String) → every is_no_tilde (p <> String.◌∷◌ "~" d) ≡ false
unfolding every
hashed-tilde p d = rw (every-append is_no_tilde p (String.◌∷◌ "~" d)) (ground arith)

is_run_id-hex : (d : String) → every is_hex d ≡ true → is_run_id d ≡ false
unfolding is_run_id every
is_run_id-hex (String.[]) h = refl
is_run_id-hex (String.◌∷◌ c s) h = ground (arith, is_run_id-hex s)

hashed-hex : (p d : String) → every is_hex (p <> String.◌∷◌ "~" d) ≡ false
unfolding every
hashed-hex p d = rw (every-append is_hex p (String.◌∷◌ "~" d)) (ground arith)

pub is_run_id-hashed :
    (p d : String) → every is_hex d ≡ true → is_run_id (p <> String.◌∷◌ "~" d) ≡ false
unfolding is_run_id
is_run_id-hashed (String.[]) d h = rw append.nil (ground (arith, is_run_id-hex d h))
is_run_id-hashed (String.◌∷◌ c s) d h =
    rw (append.cons c s (String.◌∷◌ "~" d)) (ground (arith, is_run_id-hashed s d h, hashed-hex s d))

-- The dots are no plain keys, so no kept name is one.
plain_apart : (k x : String) → is_plain_key x ≡ false → is_plain_key k ≡ true → (k == x) ≡ false
plain_apart k x odd plain =
    ==_false k x (λ e. absurd (ground (arith, ap is_plain_key e, odd, plain)))

pub is_plain_key-dots :
    (k : String) → is_plain_key k ≡ true → contains ("" ∷ "." ∷ ".." ∷ []) k ≡ false
unfolding is_plain_key
is_plain_key-dots k h =
    rw (plain_apart k "" refl h, plain_apart k "." refl h, plain_apart k ".." refl h) refl

pub is_safe-slash : (n : ℕ) → is_safe n ≡ true → not (n == 47) ≡ true
is_safe-slash n h = ground arith

pub is_safe-backslash : (n : ℕ) → is_safe n ≡ true → not (n == 92) ≡ true
is_safe-backslash n h = ground arith

pub is_plain-is_safe : (n : ℕ) → is_plain n ≡ true → is_safe n ≡ true
is_plain-is_safe n h = ground arith

is_hex-is_safe : (n : ℕ) → is_hex n ≡ true → is_safe n ≡ true
is_hex-is_safe n h = ground arith

-- Characters that no safe one and no "~" is, are not in a hashed key.
pub every-hashed :
    (p : ℕ → Bool) (raw d : String)
    → ((n : ℕ) → is_safe n ≡ true → p n ≡ true)
    → p 126 ≡ true
    → every is_hex d ≡ true
    → every p (prefix_of raw <> String.◌∷◌ "~" d) ≡ true
unfolding every
every-hashed p raw d safe tilde h = rw (every-append p (prefix_of raw) (String.◌∷◌ "~" d)) (
    ground (
      arith,
      every-weaken is_safe p safe (prefix_of raw) (every-prefix_of raw),
      every-weaken is_hex p (λ n e. safe n (is_hex-is_safe n e)) d h,
      tilde,
    ))
