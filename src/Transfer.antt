-- ===== src/Transfer.antt =====
-- The signed tokens of mcp_server/skills/file_transfer/signing.py, which the file routes trust. The
-- encoding of a payload (JSON in base64) and the keyed digest of a text are arguments, as one record;
-- times are microseconds since the epoch.
pub mod Signing
pub mod Archive
pub mod Uploads
pub mod Routes
use Prim.Native.Char.{code}
use openstudio_mcp.Base.{
  ℕ, ◌+◌, ◌*◌, ◌/◌, String, Bool, true, false, not, Option, none, some, ◌&&◌, if◌then◌else◌, ltb,
  ◌==◌, string_eq, ℕ_eq, ◌<>◌,
}

-- The fields of a token that the server writes; `path` and `is_bundle` are the extra ones.
pub record Payload : Type 0 where
  pub user : Option String
  pub file : Option String
  pub op : Option String
  pub exp : Option ℕ
  pub path : Option String
  pub is_bundle : Bool

-- `encode` is `_b64u` of the JSON, `decode` its inverse on what is a JSON object, and `mac` is `_b64u`
-- of the HMAC under the server's key.
pub record Codec : Type 0 where
  pub encode : Payload → String
  pub decode : String → Option Payload
  pub mac : String → String

-- A second, and `int(time.time())`.
abbrev pub second : ℕ
second = 1000000

-- `token.split(".", 1)`, where there is a dot.
unfoldable pub split_dot : String → Option (String × String)
split_dot (String.[]) = none
split_dot (String.◌∷◌ c s) =
    let rest = split_dot s in
    if code c == 46
    then some ("", s)
    else elim rest [ none ↦ none | some (body, sig) ↦ some (String.◌∷◌ c body, sig) ]

pub data Verified : Type 0 where
  verified : Payload → Verified
  malformed_token bad_signature malformed_payload expired wrong_op : Verified

-- What `make_token` signs at a time.
unfoldable pub payload_of : ℕ → String → String → String → ℕ → Option String → Bool → Payload
payload_of now user file op ttl path is_bundle = record {
  user = some user;
  file = some file;
  op = some op;
  exp = some (now / second + ttl);
  path = path;
  is_bundle = is_bundle;
}

-- `op is not None and payload.get("op") != op`
unfoldable pub is_wrong_op : Option String → Option String → Bool
is_wrong_op none got = false
is_wrong_op (some op) none = true
is_wrong_op (some op) (some got) = not (got == op)

unfoldable pub check_exp : ℕ → Option String → Payload → Option ℕ → Verified
unfolding is_wrong_op
check_exp now op p none = malformed_payload
check_exp now op p (some exp) =
    if ltb (exp * second) now then expired else if is_wrong_op op p.op then wrong_op else verified p

unfoldable pub check_payload : ℕ → Option String → Option Payload → Verified
unfolding check_exp
check_payload now op none = malformed_payload
check_payload now op (some p) = check_exp now op p p.exp

unfoldable pub check_parts : Codec → ℕ → Option String → Option (String × String) → Verified
unfolding check_payload
check_parts c now op none = malformed_token
check_parts c now op (some (body, sig)) =
    if sig == c.mac body then check_payload now op (c.decode body) else bad_signature

unfoldable pub make_token : Codec → Payload → String
make_token c p = c.encode p <> String.◌∷◌ "." (c.mac (c.encode p))

unfoldable pub verify_token : Codec → ℕ → String → Option String → Verified
unfolding check_parts split_dot
verify_token c now token op = check_parts c now op (split_dot token)
