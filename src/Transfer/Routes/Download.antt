-- ===== src/Transfer/Routes/Download.antt =====
-- `request_download_op` and `verify_download` of mcp_server/skills/file_transfer/operations.py.
use openstudio_mcp.Base.{
  ℕ, String, Bool, true, false, not, Option, none, some, List, ◌&&◌, ◌||◌, if◌then◌else◌, ◌==◌,
  string_eq, ◌<>◌,
}
use openstudio_mcp.Paths.{Roots, run_root_for, is_path_allowed_for}
use openstudio_mcp.Transfer.{Codec, Verified, verified, verify_token, make_token, payload_of}

-- What the file system and `pathlib` say of a path as text: where it resolves to (none where that
-- fails), whether it is absolute, and whether it is a link itself; and of a resolved path its text,
-- and what stands there. The last three are of a model's file and its companions: its suffix, a link
-- on the way to it, and whether its resources can be listed.
pub record Disk : Type 0 where
  pub resolve : String → Option (List String)
  pub is_absolute : String → Bool
  pub is_symlink : String → Bool
  pub show : List String → String
  pub is_file : List String → Bool
  pub is_dir : List String → Bool
  pub is_osm : List String → Bool
  pub has_link : String → Bool
  pub has_members : String → Bool

-- `target.exists()`
abbrev pub exists : Disk → List String → Bool
exists disk p = disk.is_file p || disk.is_dir p

pub data Download : Type 0 where
  unverified : Verified → Download
  bad_token bad_tenant not_allowed not_found : Download
  file_at : List String → String → Bool → String → Download

-- The answer of `request_download_op`: a token, or why there is none.
pub data Offer : Type 0 where
  offered : String → Offer
  no_path needs_run unknown_run not_accessible not_absolute not_osm through_link bad_members
        key_refused :
      Offer

module _ (roots : Roots) (disk : Disk) where
  -- What stands at a path that is allowed.
  unfoldable pub serve_at : String → String → Bool → List String → Download
  serve_at key path bundle target =
      if not (exists disk target)
      then not_found
      else if bundle && disk.is_file target && (disk.is_symlink path || not (disk.is_absolute path))
      then not_allowed
      else file_at target path bundle key

  unfoldable pub serve_allowed : String → String → Bool → List String → Option Bool → Download
  unfolding serve_at
  serve_allowed key path bundle target none = bad_tenant
  serve_allowed key path bundle target (some false) = not_allowed
  serve_allowed key path bundle target (some true) = serve_at key path bundle target

  unfoldable pub serve_resolved : String → String → Bool → Option (List String) → Download
  unfolding serve_allowed
  serve_resolved key path bundle none = not_allowed
  serve_resolved key path bundle (some target) =
      serve_allowed key path bundle target (is_path_allowed_for roots key target false)

  unfoldable pub serve_root : String → String → Bool → Option (List String) → Download
  unfolding serve_resolved
  serve_root key path bundle none = bad_tenant
  serve_root key path bundle (some root) = serve_resolved key path bundle (disk.resolve path)

  unfoldable pub serve_fields : Bool → Option String → Option String → Download
  unfolding serve_root
  serve_fields bundle (some key) (some path) =
      if key == "" || path == ""
      then bad_token
      else serve_root key path bundle (run_root_for roots key)
  serve_fields bundle none p = bad_token
  serve_fields bundle (some key) none = bad_token

  unfoldable pub serve_verified : Verified → Download
  unfolding serve_fields
  serve_verified (verified p) = serve_fields p.is_bundle p.user p.path
  serve_verified v = unverified v

  unfoldable pub verify_download : Codec → ℕ → String → Download
  unfolding serve_verified
  verify_download c now token = serve_verified (verify_token c now token (some "d"))

module _ (c : Codec) (now ttl : ℕ) (roots : Roots) (disk : Disk) (key : String) where
  -- Of a download token with that path.
  unfoldable pub offer : String → Bool → Offer
  unfolding make_token payload_of
  offer path bundle = offered (make_token c (payload_of now key "-" "d" ttl (some path) bundle))

  -- A file by its path, with the answer of the path policy.
  unfoldable pub offer_file : List String → Option Bool → Offer
  unfolding offer
  offer_file target none = key_refused
  offer_file target (some false) = not_accessible
  offer_file target (some true) = offer (disk.show target) false

  unfoldable pub request_file : Option (List String) → Offer
  unfolding offer_file
  request_file none = not_accessible
  request_file (some target) =
      if disk.is_file target
      then offer_file target (is_path_allowed_for roots key target false)
      else not_accessible

  -- The directory of a run.
  unfoldable pub offer_run : List String → Option Bool → Offer
  unfolding offer
  offer_run target none = key_refused
  offer_run target (some false) = unknown_run
  offer_run target (some true) = offer (disk.show target) true

  unfoldable pub request_run : Option (List String) → Offer
  unfolding offer_run
  request_run none = unknown_run
  request_run (some target) =
      if disk.is_dir target
      then offer_run target (is_path_allowed_for roots key target false)
      else unknown_run

  -- `_request_model_bundle`
  unfoldable pub offer_model : String → List String → Option Bool → Offer
  unfolding offer
  offer_model path target none = key_refused
  offer_model path target (some false) = not_accessible
  offer_model path target (some true) =
      if not (disk.is_osm target)
      then not_osm
      else if disk.has_link path
      then through_link
      else if disk.has_members path
      then offer path true
      else bad_members

  unfoldable pub request_model : String → Option (List String) → Offer
  unfolding offer_model
  request_model path none = not_accessible
  request_model path (some target) =
      if disk.is_file target
      then offer_model path target (is_path_allowed_for roots key target false)
      else not_accessible

  unfoldable pub request_model_bundle : String → Offer
  unfolding request_model
  request_model_bundle path =
      if disk.is_absolute path then request_model path (disk.resolve path) else not_absolute

  -- `run_root_for(key) / run_id`: an absolute `run_id` is the path itself.
  unfoldable pub request_run_at : String → Option (List String) → Offer
  unfolding request_run
  request_run_at run_id none = key_refused
  request_run_at run_id (some root) =
      request_run (
        disk.resolve
          (if disk.is_absolute run_id then run_id else disk.show root <> ("/" <> run_id)))

  -- No path and no run are the empty text.
  unfoldable pub request_download_op : String → String → Bool → Offer
  unfolding request_model_bundle request_run_at request_file
  request_download_op path run_id true =
      if not (path == "") && run_id == ""
      then request_model_bundle path
      else if run_id == ""
      then needs_run
      else request_run_at run_id (run_root_for roots key)
  request_download_op path run_id false =
      if path == "" then no_path else request_file (disk.resolve path)
