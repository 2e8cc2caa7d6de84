-- ===== src/Identity.antt =====
-- The caller's keys of mcp_server/identity.py: what names the storage of a caller, and the characters
-- that a key may have. The SHA-256 of a name, in hexadecimal, is an argument.
pub mod Chars
pub mod Guard
pub mod Injective
pub mod Hashed
pub mod Keys
pub mod Apart
mod Tests
use Prim.Native.Char.{code}
use Prim.Native.String.{count}
use openstudio_mcp.Base.{
  ℕ, zero, suc, String, Bool, true, false, not, Option, none, some, List, [], ◌∷◌, ◌||◌, ◌&&◌,
  if◌then◌else◌, leb, contains, ◌==◌, string_eq, ℕ_eq, ◌<>◌,
}

-- `[0-9]`, `[a-z]`, `[A-Z]` and `[0-9a-f]`, by the number of a character.
abbrev pub is_digit : ℕ → Bool
is_digit n = leb 48 n && leb n 57

abbrev pub is_lower : ℕ → Bool
is_lower n = leb 97 n && leb n 122

abbrev pub is_upper : ℕ → Bool
is_upper n = leb 65 n && leb n 90

abbrev pub is_hex : ℕ → Bool
is_hex n = is_digit n || leb 97 n && leb n 102

-- `[._]`, which `strip` takes off.
abbrev pub is_padding : ℕ → Bool
is_padding n = n == 46 || n == 95

-- `[a-z0-9_.-]` and `[A-Za-z0-9_.-]`
abbrev pub is_plain : ℕ → Bool
is_plain n = is_lower n || is_digit n || is_padding n || n == 45

abbrev pub is_safe : ℕ → Bool
is_safe n = is_upper n || is_plain n

unfoldable pub every : (ℕ → Bool) → String → Bool
every p (String.[]) = true
every p (String.◌∷◌ c s) = p (code c) && every p s

-- `_PLAIN_KEY.fullmatch(s)`
unfoldable pub is_plain_key : String → Bool
unfolding every
is_plain_key (String.[]) = false
is_plain_key (String.◌∷◌ c s) =
    (is_lower (code c) || is_digit (code c)) && every is_plain s && leb (count s) 63

-- `_RUN_ID_SHAPE.fullmatch(s)`; the dot matches no newline.
unfoldable pub is_run_id : String → Bool
unfolding every
is_run_id (String.[]) = false
is_run_id (String.◌∷◌ c s) =
    code c == 95 && count s == 12 && every is_hex s || not (code c == 10) && is_run_id s

-- `s.endswith(".")`
unfoldable pub ends_with_dot : String → Bool
ends_with_dot (String.[]) = false
ends_with_dot (String.◌∷◌ c (String.[])) = code c == 46
ends_with_dot (String.◌∷◌ c (String.◌∷◌ d s)) = ends_with_dot (String.◌∷◌ d s)

-- `re.sub(r"[^A-Za-z0-9_.-]", "_", s)`
unfoldable pub replace_unsafe : String → String
replace_unsafe (String.[]) = ""
replace_unsafe (String.◌∷◌ c s) =
    if is_safe (code c) then String.◌∷◌ c (replace_unsafe s) else String.◌∷◌ "_" (replace_unsafe s)

-- `s.lstrip("._")`, `s.rstrip("._")` and `s.strip("._")`
unfoldable pub lstrip : String → String
lstrip (String.[]) = ""
lstrip (String.◌∷◌ c s) =
    let rest = lstrip s in if is_padding (code c) then rest else String.◌∷◌ c s

unfoldable pub rstrip : String → String
rstrip (String.[]) = ""
rstrip (String.◌∷◌ c s) =
    let rest = rstrip s in if is_padding (code c) && rest == "" then "" else String.◌∷◌ c rest

unfoldable pub strip : String → String
unfolding lstrip rstrip
strip s = rstrip (lstrip s)

-- `s[:n]`
unfoldable pub first : ℕ → String → String
first zero s = ""
first (suc n) (String.[]) = ""
first (suc n) (String.◌∷◌ c s) = String.◌∷◌ c (first n s)

-- `_RESERVED_KEYS`: LOCAL_RUN_DIR_NAMES of config.py and LOCAL.
abbrev pub reserved_keys : List String
reserved_keys =
    "python_packages" ∷ "uploads" ∷ "lost+found" ∷ "examples" ∷ "models" ∷ "exports"
    ∷ "bar_building" ∷ "floorspacejs" ∷ "custom_measures" ∷ "workspace" ∷ "local" ∷ []

-- The test under which `_sanitize` returns the name as it is.
unfoldable pub is_kept : String → Bool
unfolding is_plain_key is_run_id ends_with_dot
is_kept raw =
    is_plain_key raw
    && not (contains reserved_keys raw)
    && not (ends_with_dot raw)
    && not (is_run_id raw)

unfoldable pub prefix_of : String → String
unfolding strip replace_unsafe first
prefix_of raw = first 32 (strip (replace_unsafe raw))

-- `_sanitize`; both forms of its last line are this one.
unfoldable pub sanitize : (String → String) → String → String
unfolding is_kept prefix_of
sanitize digest raw = if is_kept raw then raw else prefix_of raw <> String.◌∷◌ "~" (digest raw)

-- What the request says of its caller: the token, which may have no client id, the transport, and
-- the context, which may have no session id.
pub record Request : Type 0 where
  pub token : Option (Option String)
  pub is_http : Bool
  pub context : Option (Option String)

unfoldable pub session_id_or_local : Option (Option String) → String
session_id_or_local none = "local"
session_id_or_local (some none) = "local"
session_id_or_local (some (some sid)) = if sid == "" then "local" else sid

unfoldable pub session_key : Request → String
unfolding session_id_or_local
session_key r = session_id_or_local r.context

module _ (digest : String → String) where
  -- Of a client id; `none` is InvalidPrincipalError.
  unfoldable pub principal : Option String → Option String
  unfolding sanitize
  principal none = none
  principal (some cid) = if cid == "" || cid == "unknown" then none else some (sanitize digest cid)

  unfoldable pub session_user : Option (Option String) → String
  unfolding sanitize
  session_user none = "local"
  session_user (some none) = "local"
  session_user (some (some sid)) = if sid == "" then "local" else sanitize digest sid

  unfoldable pub anonymous : Bool → Option (Option String) → String
  unfolding session_user
  anonymous false ctx = "local"
  anonymous true ctx = session_user ctx

  unfoldable pub key_of : Option (Option String) → Request → Option String
  unfolding principal anonymous
  key_of (some cid) r = principal cid
  key_of none r = some (anonymous r.is_http r.context)

  unfoldable pub user_key : Request → Option String
  unfolding key_of
  user_key r = key_of r.token r
