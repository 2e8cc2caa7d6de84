-- ===== src/Transfer/Routes/Tests.antt =====
-- The signed routes at one token, and their theorems there.
use openstudio_mcp.Base.{
  ℕ, ◌*◌, ◌≤◌, String, true, false, none, some, List, [], ◌∷◌, ◌≡◌, ◌≢◌, ◌⊎◌, refl, sym, ap, subst,
  ◌==◌, if◌then◌else◌, string_eq, ℕ_eq, arith,
}
use openstudio_mcp.Base.Dict
use openstudio_mcp.Base.Dict.{Dict}
use openstudio_mcp.Identity.{every}
use openstudio_mcp.Paths.{Roots, is_path_allowed_for, tenant_dir, is_under}
use openstudio_mcp.Transfer.{
  Payload, Codec, second, verified, expired, wrong_op, bad_signature, malformed_token, make_token,
  payload_of, verify_token, split_dot,
}
use openstudio_mcp.Transfer.Signing.{IsCoded, KnowsOnly, verify_token-signed}
use openstudio_mcp.Transfer.Uploads.{Limits, new_entry, new_meta}
use openstudio_mcp.Transfer.Uploads.Finalize.{stored, written, finalize_upload}
use openstudio_mcp.Transfer.Routes.{
  Ending, finished, disconnected, Upload, Response, finalized, too_large, gone_client, id_mismatch,
  Tenants, is_file_id, upload_route,
}
use openstudio_mcp.Transfer.Routes.Signed.{upload_route-signed}
use openstudio_mcp.Transfer.Routes.Download.{
  Disk, file_at, unverified, offered, verify_download, request_download_op,
}
use openstudio_mcp.Transfer.Routes.Served.{verify_download-allowed, Checked}
use openstudio_mcp.Transfer.Routes.Offered.{IsShown, verify_download-request_download_op}
use mathlib.Core.List.{Memᴰ}
use mathlib.Core.List.Memᴰ
use mathlib.Core.Option.{some_inj}

abbrev file_id : String
file_id = "0123456789abcdef0123456789abcdef"

-- What was signed at the time 0, for ten seconds: an upload, and a download.
up : Payload
unfolding verify_token make_token payload_of upload_route verify_download request_download_op
    Dict.lookup Dict.insert Dict.erase is_path_allowed_for tenant_dir is_under split_dot every
    finalize_upload
up = payload_of 0 "ann" file_id "u" 10 none false

down : Payload
unfolding up
down = payload_of 0 "ann" "-" "d" 10 (some "/runs/ann/a") false

-- A code of these two payloads.
codec : Codec
unfolding up down
codec = record {
  encode = λ p. if p.is_bundle then "b" else (elim p.path [ none ↦ "up" | some _ ↦ "down" ]);
  decode = λ s. if s == "up" then some up else if s == "down" then some down else none;
  mac = λ s. if s == "up" then "k1" else "k2";
}

up_token : make_token codec up ≡ "up.k1"
unfolding codec up
up_token = refl

in_time : verify_token codec 10000000 "up.k1" (some "u") ≡ verified up
unfolding codec up
in_time = refl

late : verify_token codec 10000001 "up.k1" (some "u") ≡ expired
unfolding codec up
late = refl

other_op : verify_token codec 0 "up.k1" (some "d") ≡ wrong_op
unfolding codec up
other_op = refl

forged : verify_token codec 0 "up.k2" (some "u") ≡ bad_signature
unfolding codec up
forged = refl

undotted : verify_token codec 0 "up" (some "u") ≡ malformed_token
unfolding codec up
undotted = refl

up-IsCoded : IsCoded codec up
unfolding codec up
up-IsCoded = record { undotted = refl; inverse = refl }

down-IsCoded : IsCoded codec down
unfolding codec up down
down-IsCoded = record { undotted = refl; inverse = refl }

abbrev fst_of : String × String → String
fst_of (a, b) = a

-- A caller who brings the token of the upload.
up-KnowsOnly : KnowsOnly codec (up ∷ []) "up.k1"
unfolding up codec
up-KnowsOnly body sig parts good = (up, Memᴰ.head refl, ap fst_of (sym (some_inj.0 parts)))

up_all : (p : Payload) → Memᴰ p (up ∷ []) → IsCoded codec p
up_all p m = subst (IsCoded codec) (sym (Memᴰ.eq_of_singleton m)) up-IsCoded

verify_token-signed_example :
    Memᴰ up (up ∷ [])
    × (up.op ≡ some "u")
    × ((exp : ℕ) × (up.exp ≡ some exp) × (10000000 ≤ exp * second))
verify_token-signed_example =
    verify_token-signed codec (up ∷ []) 10000000 "up.k1" "u" up up_all up-KnowsOnly in_time

abbrev roots : Roots
roots = record {
  run_root = "runs" ∷ [];
  measures = "measures" ∷ [];
  shared = [];
  is_itself = λ d. true;
}

abbrev lim : Limits
lim = record { max_bytes = 50; quota = 100; meta_size = λ m. 1 }

-- Every tenant has one upload that is asked for.
abbrev tenants : Tenants
unfolding new_entry new_meta
tenants k = (file_id, new_entry (new_meta "a.epw" "auto" 8 "aa")) ∷ []

-- A request that brings so many bytes in two chunks.
abbrev upload : ℕ → Ending → Upload
upload n ending = record {
  path_id = file_id;
  chunks = 5 ∷ n ∷ [];
  ending = ending;
  sha = "aa";
  extraction = ([], none);
  extracted_path = "";
  extracted_left = 0;
  entry_left = λ e. none;
  write = written;
}

route : Upload → Response
unfolding up codec is_file_id tenants
route u = (upload_route codec roots lim (λ s. false) 0 "up.k1" u tenants).0

brought :
    route (upload 3 finished)
    ≡ finalized (stored (record { sha256 = "aa"; size = 8; extracted_path = none }))
unfolding route up codec is_file_id tenants
brought = refl

too_many_bytes : route (upload 46 finished) ≡ too_large
unfolding route up codec is_file_id tenants
too_many_bytes = refl

gone : route (upload 3 disconnected) ≡ gone_client
unfolding route up codec is_file_id tenants
gone = refl

elsewhere : route (record (upload 3 finished) { path_id = "x" }) ≡ id_mismatch
unfolding route up codec is_file_id tenants
elsewhere = refl

newline : is_file_id "0123456789abcdef0123456789abcdef\n" ≡ true
unfolding is_file_id
newline = refl

upload_route-signed_example :
    let after =
      (upload_route codec roots lim (λ s. false) 0 "up.k1" (upload 3 finished) tenants).1 in
    (Dict.lookup file_id (after "bob") ≡ Dict.lookup file_id (tenants "bob"))
    ⊎ ((q : Payload) × Memᴰ q (up ∷ [])
        × (q.op ≡ some "u")
        × ((exp : ℕ) × (q.exp ≡ some exp) × (0 ≤ exp * second))
        × (q.user ≡ some "bob")
        × (q.file ≡ some file_id))
upload_route-signed_example =
    upload_route-signed codec roots lim (λ s. false) (upload 3 finished) tenants "bob" file_id
      (up ∷ []) 0 "up.k1" up_all up-KnowsOnly

-- A file of the caller's own.
abbrev target : List String
target = "runs" ∷ "ann" ∷ "a" ∷ []

abbrev disk : Disk
disk = record {
  resolve = λ s. some target;
  is_absolute = λ s. true;
  is_symlink = λ s. false;
  show = λ t. "/runs/ann/a";
  is_file = λ t. true;
  is_dir = λ t. false;
  is_osm = λ t. false;
  has_link = λ s. false;
  has_members = λ s. false;
}

served : verify_download roots disk codec 0 "down.k2" ≡ file_at target "/runs/ann/a" false "ann"
unfolding codec up down
served = refl

not_served : verify_download roots disk codec 0 "up.k1" ≡ unverified wrong_op
unfolding codec up down
not_served = refl

down-KnowsOnly : KnowsOnly codec (down ∷ []) "down.k2"
unfolding up codec down
down-KnowsOnly body sig parts good = (down, Memᴰ.head refl, ap fst_of (sym (some_inj.0 parts)))

down_all : (p : Payload) → Memᴰ p (down ∷ []) → IsCoded codec p
down_all p m = subst (IsCoded codec) (sym (Memᴰ.eq_of_singleton m)) down-IsCoded

verify_download-allowed_example :
    (q : Payload) × Memᴰ q (down ∷ [])
    × (q.op ≡ some "d")
    × ((exp : ℕ) × (q.exp ≡ some exp) × (0 ≤ exp * second))
    × (q.user ≡ some "ann")
    × (q.path ≡ some "/runs/ann/a")
    × Checked roots disk target "/runs/ann/a" false "ann"
verify_download-allowed_example =
    verify_download-allowed roots disk target "/runs/ann/a" false "ann" codec (down ∷ []) 0
      "down.k2" down_all down-KnowsOnly served

offered_token : request_download_op codec 0 10 roots disk "ann" "a" "" false ≡ offered "down.k2"
unfolding codec up down
offered_token = refl

named : ◌≢◌ {A = String} "ann" ""
named e = absurd (ground (arith, ap (λ s. s == "ann") e))

down_laws :
    (t : List String)
    → disk.resolve "a" ≡ some t
    → IsCoded codec (payload_of 0 "ann" "-" "d" 10 (some (disk.show t)) false)
      × IsShown disk (disk.show t) t
      × (disk.is_file t ≡ true)
      × (is_path_allowed_for roots "ann" t false ≡ some true)
unfolding down
down_laws t r = (
  down-IsCoded,
  record { shown = λ e. absurd (ground (arith, ap (λ s. s == "") e)); inverse = r },
  refl,
  subst (λ t. is_path_allowed_for roots "ann" t false ≡ some true) (some_inj.0 r) refl,
)

verify_download-request_download_op_example :
    (t : List String) × (disk.resolve "a" ≡ some t)
    × (verify_download roots disk codec 5 "down.k2" ≡ file_at t (disk.show t) false "ann")
verify_download-request_download_op_example =
    verify_download-request_download_op codec 0 10 roots disk "ann" named disk roots "a" "down.k2" 5
      down_laws offered_token (ground arith)
