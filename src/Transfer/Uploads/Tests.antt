-- ===== src/Transfer/Uploads/Tests.antt =====
-- Uploads of a few files, and their theorems there.
use openstudio_mcp.Base.{
  All, ℕ, ◌+◌, ◌≤◌, ◌<◌, String, Bool, true, Option, none, some, [], ◌∷◌, ◌++◌, ◌≡◌, refl, ◌==◌,
  string_eq, ℕ_eq, contains, arith,
}
use openstudio_mcp.Base.Dict
use openstudio_mcp.Base.Dict.{Dict}
use openstudio_mcp.Transfer.Uploads.{
  Entry, Limits, granted, not_positive, unknown_kind, kinds, kind_or_auto, dir_size, new_entry,
  new_meta, request_upload_op,
}
use openstudio_mcp.Transfer.Uploads.Finalize.{
  Put, Write, written, unopened, torn, raises, stored, unknown, already_completed, size_mismatch,
  over_quota, not_recorded, finalize_upload, delete_upload_op,
}
use openstudio_mcp.Transfer.Uploads.Outcomes.{Leaves, finalize_upload-Leaves}
use openstudio_mcp.Transfer.Archive.{raised}
use openstudio_mcp.Transfer.Uploads.Taken.{
  put_all, IsRefused, KeepsClaim, IsTaken, finalize_upload-IsTaken,
}
use openstudio_mcp.Transfer.Uploads.Quota.{
  payloads, finalize_upload-quota, request_upload_op-granted,
}
use openstudio_mcp.Transfer.Uploads.Once.{
  Stage, World, moves, Reaches, stays, goes, all_starting, count_stored, advance,
}
use openstudio_mcp.Transfer.Uploads.Claims.{count_stored-Reaches}

abbrev lim : Limits
lim = record { max_bytes = 50; quota = 100; meta_size = λ m. 1 }

abbrev is_zip : String → Bool
is_zip name = name == "m.zip"

-- A request of so many bytes, which is written or not.
abbrev put_of : ℕ → Write → Put
put_of size write = record {
  size = size;
  sha = "aa";
  extraction = (record { target = []; bytes = 200 } ∷ [], none);
  extracted_path = "x";
  extracted_left = 0;
  entry_left = λ e. none;
  write = write;
}

-- The state after an upload was asked for. To unfold it is to unfold what the tests compute with.
asked : Dict Entry
unfolding request_upload_op finalize_upload delete_upload_op Dict.lookup Dict.insert Dict.erase
asked = (request_upload_op lim true "f1" "a.epw" (some 8) "aa" "" []).1

granted_id : (request_upload_op lim true "f1" "a.epw" (some 8) "aa" "" []).0 ≡ granted "f1"
unfolding asked
granted_id = refl

no_bytes : (request_upload_op lim true "f1" "a.epw" (some 0) "" "" []).0 ≡ not_positive
unfolding asked
no_bytes = refl

odd_kind : (request_upload_op lim true "f1" "a.epw" (some 8) "" "exe" []).0 ≡ unknown_kind
unfolding asked
odd_kind = refl

-- The entry of a request that has streamed its bytes.
streamed : Dict Entry
unfolding asked new_entry new_meta
streamed =
    Dict.insert "f1" (record (new_entry (new_meta "a.epw" "auto" 8 "aa")) { incoming = 8 }) []

put_done :
    (finalize_upload lim is_zip "f1" (put_of 8 written) streamed).0
    ≡ stored (record { sha256 = "aa"; size = 8; extracted_path = none })
unfolding streamed asked
put_done = refl

again :
    (finalize_upload lim is_zip "f1"
      (put_of 8 written)
      (finalize_upload lim is_zip "f1" (put_of 8 written) streamed).1).0
    ≡ already_completed
unfolding streamed asked
again = refl

short : (finalize_upload lim is_zip "f1" (put_of 7 written) streamed).0 ≡ size_mismatch
unfolding streamed asked
short = refl

elsewhere : (finalize_upload lim is_zip "f2" (put_of 8 written) streamed).0 ≡ unknown
unfolding streamed asked
elsewhere = refl

-- An archive that expands past the quota, and the entry that is gone.
expanded :
    finalize_upload lim is_zip "f1"
      (put_of 8 written)
      (Dict.insert "f1" (new_entry (new_meta "m.zip" "auto" 8 "aa")) [])
    ≡ (over_quota, [])
unfolding streamed asked
expanded = refl

deleted : delete_upload_op lim is_zip "f1" true streamed ≡ (true, [])
unfolding streamed asked
deleted = refl

abbrev pending : Entry
unfolding new_entry new_meta
pending = record (new_entry (new_meta "a.epw" "auto" 8 "aa")) { incoming = 8 }

found : Dict.lookup "f1" streamed ≡ some pending
unfolding streamed asked pending
found = refl

finalize_upload-Leaves_example :
    Leaves
      (put_of 8 written)
      pending
      (finalize_upload lim is_zip "f1" (put_of 8 written) streamed).0
      (Dict.lookup "f1" (finalize_upload lim is_zip "f1" (put_of 8 written) streamed).1)
finalize_upload-Leaves_example =
    finalize_upload-Leaves lim is_zip "f1" (put_of 8 written) streamed pending found

finalize_upload-quota_example :
    payloads (finalize_upload lim is_zip "f1" (put_of 8 written) streamed).1 ≤ 100
finalize_upload-quota_example =
    finalize_upload-quota lim is_zip "f1" (put_of 8 written) (ground arith) streamed
      (record { sha256 = "aa"; size = 8; extracted_path = none }) put_done

request_upload_op-granted_example :
    (n : ℕ) × (◌≡◌ {A = Option ℕ} (some 8) (some n))
    × (0 < n)
    × (n ≤ 50)
    × (contains kinds (kind_or_auto "") ≡ true)
    × (0 < lim.quota → dir_size lim [] + n ≤ lim.quota)
    × ((request_upload_op lim true "f1" "a.epw" (some 8) "aa" "" []).1
        ≡ Dict.insert "f1" (new_entry (new_meta "a.epw" (kind_or_auto "") n "aa")) [])
request_upload_op-granted_example =
    request_upload_op-granted lim true "f1" "a.epw" (some 8) "aa" "" "f1" [] granted_id

-- One request of two reads meta.json.
abbrev after_one : World lim is_zip "f1"
unfolding all_starting advance
after_one = (
  []
      ++ ((
        put_of 8 written,
        (advance lim is_zip "f1" (put_of 8 written) Stage.starting streamed
            (Dict.lookup "f1" streamed)).0,
      )
          ∷ all_starting (put_of 8 written ∷ [])),
  (advance lim is_zip "f1" (put_of 8 written) Stage.starting streamed
      (Dict.lookup "f1" streamed)).1,
)

one_step :
    Reaches lim is_zip "f1"
      (all_starting (put_of 8 written ∷ put_of 8 written ∷ []), streamed)
      after_one
unfolding all_starting after_one
one_step =
    goes
      (moves [] (all_starting (put_of 8 written ∷ [])) (put_of 8 written) Stage.starting streamed)
      (stays after_one)

count_stored-Reaches_example : count_stored after_one.0 ≤ 1
count_stored-Reaches_example =
    count_stored-Reaches lim is_zip "f1" (put_of 8 written ∷ put_of 8 written ∷ []) streamed
      after_one one_step

unwritten : (finalize_upload lim is_zip "f1" (put_of 8 unopened) streamed).0 ≡ not_recorded
unfolding streamed asked
unwritten = refl

torn_meta : (finalize_upload lim is_zip "f1" (put_of 8 torn) streamed).0 ≡ not_recorded
unfolding streamed asked
torn_meta = refl

-- An encrypted archive: the exception leaves the claim, so the same archive again is refused.
abbrev encrypted : Put
encrypted = record (put_of 8 written) { extraction = ([], some raised) }

abbrev zipped : Dict Entry
unfolding new_entry new_meta
zipped = ("f1", new_entry (new_meta "m.zip" "auto" 8 "aa")) ∷ []

raised_once :
    (put_all lim is_zip "f1" (encrypted ∷ encrypted ∷ []) zipped).0
    ≡ raises ∷ already_completed ∷ []
unfolding put_all streamed asked zipped
raised_once = refl

unwritten-KeepsClaim : KeepsClaim (finalize_upload lim is_zip "f1" (put_of 8 unopened) streamed).0
unfolding streamed asked
unwritten-KeepsClaim = tt

finalize_upload-IsTaken_example :
    let d = (finalize_upload lim is_zip "f1" (put_of 8 unopened) streamed).1 in
    let r = put_all lim is_zip "f1" (put_of 8 written ∷ []) d in
    All IsRefused r.0 × IsTaken "f1" r.1
finalize_upload-IsTaken_example =
    finalize_upload-IsTaken lim is_zip "f1" (put_of 8 unopened) (put_of 8 written ∷ []) streamed
      pending found unwritten-KeepsClaim
