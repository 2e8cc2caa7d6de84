-- ===== src/Transfer/Routes.antt =====
-- The signed routes of mcp_server/skills/file_transfer/routes.py, and what the download route checks in
-- mcp_server/skills/file_transfer/operations.py. The file system is a record of what it answers.
pub mod Download
pub mod Signed
pub mod Served
pub mod Offered
mod Tests
use Prim.Native.Char.{code}
use Prim.Native.String.{count}
use openstudio_mcp.Base.{
  ℕ, zero, suc, ◌+◌, String, Bool, true, false, not, Option, none, some, List, [], ◌∷◌, ◌&&◌, ◌||◌,
  if◌then◌else◌, ltb, ◌==◌, string_eq, ℕ_eq,
}
use openstudio_mcp.Base.Dict
use openstudio_mcp.Base.Dict.{Dict}
use openstudio_mcp.Identity.{is_hex}
use openstudio_mcp.Paths.{Roots, run_root_for, is_path_allowed_for}
use openstudio_mcp.Transfer.{Payload, Codec, Verified, verified, verify_token}
use openstudio_mcp.Transfer.Archive.{Failure, File}
use openstudio_mcp.Transfer.Uploads.{Meta, Entry, Limits}
use openstudio_mcp.Transfer.Uploads.Finalize.{Put, Write, Answer, finalize_upload, unlink_tmp}

-- `_FILE_ID_RE.match`: 32 hexadecimal digits, and with the dollar a newline after them.
unfoldable pub hex_then_end : ℕ → String → Bool
hex_then_end zero (String.[]) = true
hex_then_end zero (String.◌∷◌ c s) = code c == 10 && count s == 0
hex_then_end (suc n) (String.[]) = false
hex_then_end (suc n) (String.◌∷◌ c s) = is_hex (code c) && hex_then_end n s

unfoldable pub is_file_id : String → Bool
unfolding hex_then_end
is_file_id s = hex_then_end 32 s

-- The body of a request: its chunks, and how it ends.
pub data Ending : Type 0 where
  finished disconnected unwritable : Ending

-- What the upload route answers. `server_error` is an exception in the route.
pub data Response : Type 0 where
  rejected : Verified → Response
  id_mismatch bad_entry unknown_upload too_large gone_client write_failed server_error : Response
  finalized : Answer → Response

unfoldable pub cut_of : Ending → Option Response
cut_of finished = none
cut_of disconnected = some gone_client
cut_of unwritable = some write_failed

-- The loop over the chunks: the size, and the answer where it is cut short.
unfoldable pub stream : ℕ → Ending → List ℕ → ℕ → ℕ × Option Response
unfolding cut_of
stream cap ending [] size = (size, cut_of ending)
stream cap ending (n ∷ ns) size =
    let rest = stream cap ending ns (size + n) in
    if ltb cap (size + n) then (size + n, some too_large) else rest

-- A request: the id in its path, its chunks, its end and the digest of its bytes; and what the
-- completion meets.
pub record Upload : Type 0 where
  pub path_id : String
  pub chunks : List ℕ
  pub ending : Ending
  pub sha : String
  pub extraction : List File × Option Failure
  pub extracted_path : String
  pub extracted_left : ℕ
  pub entry_left : Entry → Option Entry
  pub write : Write

unfoldable pub put_of : Upload → ℕ → Put
put_of u size = record {
  size = size;
  sha = u.sha;
  extraction = u.extraction;
  extracted_path = u.extracted_path;
  extracted_left = u.extracted_left;
  entry_left = u.entry_left;
  write = u.write;
}

-- The temporary file has been written.
unfoldable pub with_incoming : ℕ → Entry → Entry
with_incoming size e = record e { incoming = e.incoming + size }

-- The tenants, by their keys, each with its uploads.
abbrev pub Tenants : Type 0
Tenants = String → Dict Entry

unfoldable pub set_tenant : String → Dict Entry → Tenants → Tenants
set_tenant key d ts = λ k. if k == key then d else ts k

module _ (c : Codec) (roots : Roots) (lim : Limits) (is_zip : String → Bool) where
  unfoldable pub after_stream :
      Upload → String → String → Entry → Tenants → ℕ × Option Response → Response × Tenants
  unfolding set_tenant put_of with_incoming
  after_stream u key id e ts (size, some r) = (r, ts)
  after_stream u key id e ts (size, none) =
      let (a, after) =
        finalize_upload lim is_zip id (put_of u size)
          (Dict.insert id (with_incoming size e) (ts key)) in
      (finalized a, set_tenant key after ts)

  unfoldable pub with_meta :
      Upload → String → String → Entry → Tenants → Option Meta → Response × Tenants
  unfolding after_stream stream
  with_meta u key id e ts none = (unknown_upload, ts)
  with_meta u key id e ts (some m) =
      after_stream u key id e ts (stream lim.max_bytes u.ending u.chunks 0)

  unfoldable pub into_entry : Upload → String → String → Tenants → Option Entry → Response × Tenants
  unfolding with_meta
  into_entry u key id ts none = (unknown_upload, ts)
  into_entry u key id ts (some e) = with_meta u key id e ts e.meta

  unfoldable pub at_root :
      Upload → String → String → Tenants → Option (List String) → Response × Tenants
  unfolding into_entry is_file_id
  at_root u key id ts none = (bad_entry, ts)
  at_root u key id ts (some root) =
      if is_file_id id then into_entry u key id ts (Dict.lookup id (ts key)) else (bad_entry, ts)

  unfoldable pub with_ids : Upload → Tenants → Option String → Option String → Response × Tenants
  unfolding at_root
  with_ids u ts (some key) (some id) =
      if u.path_id == id then at_root u key id ts (run_root_for roots key) else (id_mismatch, ts)
  with_ids u ts none f = (server_error, ts)
  with_ids u ts (some key) none = (server_error, ts)

  unfoldable pub with_token : Upload → Tenants → Verified → Response × Tenants
  unfolding with_ids
  with_token u ts (verified p) = with_ids u ts p.user p.file
  with_token u ts v = (rejected v, ts)

  unfoldable pub upload_route : ℕ → String → Upload → Tenants → Response × Tenants
  unfolding with_token
  upload_route now token u ts = with_token u ts (verify_token c now token (some "u"))
