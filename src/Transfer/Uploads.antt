-- ===== src/Transfer/Uploads.antt =====
-- The uploads of one tenant, of mcp_server/skills/file_transfer/operations.py: the directory
-- `uploads` under its run root, as a dict from the file ids to what stands in each entry.
pub mod Finalize
pub mod Quota
pub mod Once
pub mod Claims
pub mod Outcomes
pub mod Taken
pub mod Frame
mod Tests
use openstudio_mcp.Base.{
  ℕ, zero, suc, ◌+◌, ◌*◌, ◌/◌, String, Bool, true, false, not, Option, none, some, List, [], ◌∷◌,
  ◌&&◌, ◌||◌, ltb, leb, contains, if◌then◌else◌, ◌==◌, string_eq, ℕ_eq,
}
use openstudio_mcp.Base.Dict
use openstudio_mcp.Base.Dict.{Dict}

-- meta.json. `done` is what the completion adds: the digest, the size, and the directory of an archive.
pub record Done : Type 0 where
  pub sha256 : String
  pub size : ℕ
  pub extracted_path : Option String

pub record Meta : Type 0 where
  pub filename : String
  pub kind : String
  pub expected_size : ℕ
  pub expected_sha256 : String
  pub ready : Option Done

-- An entry: its meta.json, where there is one; `.finalized`; the size of what `data` holds; the
-- size of what `extracted` holds; and that of the temporary files of the requests under way.
pub record Entry : Type 0 where
  pub meta : Option Meta
  pub is_claimed : Bool
  pub data_size : ℕ
  pub extracted_size : ℕ
  pub incoming : ℕ

-- The settings: OSMCP_MAX_UPLOAD_MB and OSMCP_USER_QUOTA_MB in bytes, and the size of a meta.json.
pub record Limits : Type 0 where
  pub max_bytes : ℕ
  pub quota : ℕ
  pub meta_size : Meta → ℕ

unfoldable pub size_of_meta : Limits → Option Meta → ℕ
size_of_meta lim none = 0
size_of_meta lim (some m) = lim.meta_size m

unfoldable pub entry_size : Limits → Entry → ℕ
unfolding size_of_meta
entry_size lim e = size_of_meta lim e.meta + (e.data_size + (e.extracted_size + e.incoming))

-- `_dir_size(_uploads_dir(key))`
unfoldable pub dir_size : Limits → Dict Entry → ℕ
unfolding entry_size
dir_size lim [] = 0
dir_size lim ((_, e) ∷ d) = entry_size lim e + dir_size lim d

abbrev pub kinds : List String
kinds = "auto" ∷ "osm" ∷ "weather" ∷ "measure" ∷ "floorplan" ∷ "osw" ∷ "archive" ∷ "other" ∷ []

-- What a request for an upload is answered with. The size is what `int(...)` makes of the argument.
pub data Requested : Type 0 where
  granted : String → Requested
  not_integer not_positive unknown_kind too_large over_quota not_recorded : Requested

unfoldable pub new_meta : String → String → ℕ → String → Meta
new_meta name kind size sha = record {
  filename = name;
  kind = kind;
  expected_size = size;
  expected_sha256 = sha;
  ready = none;
}

unfoldable pub new_entry : Meta → Entry
new_entry m = record {
  meta = some m;
  is_claimed = false;
  data_size = 0;
  extracted_size = 0;
  incoming = 0;
}

-- `kind or "auto"`
abbrev pub kind_or_auto : String → String
kind_or_auto kind = if kind == "" then "auto" else kind

-- `_is_archive`, with whether the name ends in ".zip".
unfoldable pub is_archive : Bool → String → Bool
is_archive zipped kind = contains ("measure" ∷ "archive" ∷ []) kind || zipped

module _ (lim : Limits) where
  unfoldable pub is_over_quota : ℕ → Dict Entry → Bool
  unfolding dir_size
  is_over_quota extra d = ltb 0 lim.quota && ltb lim.quota (dir_size lim d + extra)

  -- The tail of `request_upload_op`, with the new file id and the cleaned name, and whether meta.json
  -- can be written. The size is positive.
  unfoldable pub mint :
      Bool → String → String → ℕ → String → String → Dict Entry → Requested × Dict Entry
  unfolding is_over_quota new_entry new_meta
  mint writes file_id name size sha kind d =
      if not (contains kinds kind)
      then (unknown_kind, d)
      else if ltb lim.max_bytes size
      then (too_large, d)
      else if is_over_quota size d
      then (over_quota, d)
      else (let m = new_meta name kind size sha in
          if writes
          then (granted file_id, Dict.insert file_id (new_entry m) d)
          else (not_recorded, Dict.insert file_id (record (new_entry m) { meta = none }) d))

  unfoldable pub request_upload_op :
      Bool → String → String → Option ℕ → String → String → Dict Entry → Requested × Dict Entry
  unfolding mint
  request_upload_op writes file_id name none sha kind d = (not_integer, d)
  request_upload_op writes file_id name (some zero) sha kind d = (not_positive, d)
  request_upload_op writes file_id name (some (suc n)) sha kind d =
      mint writes file_id name (suc n) sha (kind_or_auto kind) d
