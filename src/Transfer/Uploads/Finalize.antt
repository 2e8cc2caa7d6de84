-- ===== src/Transfer/Uploads/Finalize.antt =====
-- `finalize_upload` and `delete_upload_op` of mcp_server/skills/file_transfer/operations.py. The three
-- parts of `finalize_upload`, between which another request may come in, are functions of their own.
use openstudio_mcp.Base.{
  ℕ, ◌-◌, String, Bool, true, false, not, Option, none, some, List, ◌&&◌, if◌then◌else◌, ◌==◌,
  string_eq, ℕ_eq,
}
use openstudio_mcp.Base.Dict
use openstudio_mcp.Base.Dict.{Dict}
use openstudio_mcp.Transfer.Archive.{Failure, raised, File}
use openstudio_mcp.Transfer.Archive.Bounds.{sum_bytes}
use openstudio_mcp.Transfer.Uploads.{Done, Meta, Entry, Limits, is_archive, is_over_quota}

-- The writing of meta.json: it is written; it cannot be opened; it was truncated and then not written;
-- it was written and then could not be closed.
pub data Write : Type 0 where
  written unopened torn unclosed : Write

-- A request that has streamed its bytes to a temporary file: their number and digest; what the
-- extraction would come to, with the directory that `_resolve_extracted` names; what stays of
-- `extracted` and of the entry when they are removed with `ignore_errors=True`; and how the writing
-- of meta.json comes out.
pub record Put : Type 0 where
  pub size : ℕ
  pub sha : String
  pub extraction : List File × Option Failure
  pub extracted_path : String
  pub extracted_left : ℕ
  pub entry_left : Entry → Option Entry
  pub write : Write

-- The results, with their status: 200, 404, 409, 422 (three times), 413 and 500; and an exception that
-- leaves the function.
pub data Answer : Type 0 where
  stored : Done → Answer
  unknown already_completed size_mismatch sha_mismatch : Answer
  bad_archive : Failure → Answer
  over_quota not_recorded raises : Answer

-- The tests on meta.json: an answer, or to go on with what was read.
pub data Checked : Type 0 where
  refuse : Answer → Checked
  go_on : Meta → Checked

unfoldable pub check_meta : Put → Meta → Option Done → Checked
check_meta put m (some _) = refuse already_completed
check_meta put m none =
    if not (put.size == m.expected_size)
    then refuse size_mismatch
    else if not (m.expected_sha256 == "") && not (put.sha == m.expected_sha256)
    then refuse sha_mismatch
    else go_on m

unfoldable pub check : Put → Option Meta → Checked
unfolding check_meta
check put none = refuse unknown
check put (some m) = check_meta put m m.ready

-- `tmp_path.unlink(missing_ok=True)`
unfoldable pub unlink_tmp : Put → Entry → Entry
unlink_tmp put e = record e { incoming = e.incoming - put.size }

-- The exclusive creation of `.finalized`: false where it is there already.
unfoldable pub claim_of : Bool → Entry → Bool × Entry
claim_of true e = (false, e)
claim_of false e = (true, record e { is_claimed = true })

unfoldable pub claim : Entry → Bool × Entry
unfolding claim_of
claim e = claim_of e.is_claimed e

-- `tmp_path.replace(dest)`
unfoldable pub move_data : Put → Entry → Entry
unfolding unlink_tmp
move_data put e = record (unlink_tmp put e) { data_size = put.size }

unfoldable pub release : Put → Entry → Entry
release put e = record e { is_claimed = false; extracted_size = put.extracted_left }

unfoldable pub done_of : Put → Option String → Done
done_of put extracted = record { sha256 = put.sha; size = put.size; extracted_path = extracted }

-- meta.json after the last write; what cannot be read counts as none.
unfoldable pub meta_after : Write → Meta → Done → Option Meta
meta_after written m done = some (record m { ready = some done })
meta_after unopened m done = some m
meta_after torn m done = none
meta_after unclosed m done = some (record m { ready = some done })

unfoldable pub write_answer : Write → Done → Answer
write_answer written done = stored done
write_answer unopened done = not_recorded
write_answer torn done = not_recorded
write_answer unclosed done = not_recorded

-- What is left of the entry, in its place.
unfoldable pub put_left : String → Option Entry → Dict Entry → Dict Entry
put_left file_id none d = Dict.erase file_id d
put_left file_id (some e) d = Dict.insert file_id e d

module _ (lim : Limits) (is_zip : String → Bool) (file_id : String) where
  -- The last write, which may fail.
  unfoldable pub write_done : Put → Meta → Option String → Entry → Dict Entry → Answer × Dict Entry
  unfolding done_of meta_after write_answer
  write_done put m extracted e d =
      let done = done_of put extracted in
      (
        write_answer put.write done,
        Dict.insert file_id (record e { meta = meta_after put.write m done }) d,
      )

  -- From the quota on: the entry is removed, as far as that works, or meta.json is written over.
  unfoldable pub record_done : Put → Meta → Option String → Entry → Dict Entry → Answer × Dict Entry
  unfolding is_over_quota write_done put_left
  record_done put m extracted e d =
      if is_over_quota lim 0 (Dict.insert file_id e d)
      then (over_quota, put_left file_id (put.entry_left e) d)
      else write_done put m extracted e d

  -- An exception leaves the claim and what was extracted.
  unfoldable pub after_failure :
      Put → Entry → Dict Entry → List File → Failure → Answer × Dict Entry
  unfolding release sum_bytes
  after_failure put e d files raised =
      (raises, Dict.insert file_id (record e { extracted_size = sum_bytes files }) d)
  after_failure put e d files f = (bad_archive f, Dict.insert file_id (release put e) d)

  unfoldable pub unpack :
      Put → Meta → Entry → Dict Entry → List File × Option Failure → Answer × Dict Entry
  unfolding record_done after_failure sum_bytes
  unpack put m e d (files, some failure) = after_failure put e d files failure
  unpack put m e d (files, none) =
      record_done put m (some put.extracted_path) (record e { extracted_size = sum_bytes files }) d

  -- What follows the claim.
  unfoldable pub complete : Put → Meta → Entry → Dict Entry → Answer × Dict Entry
  unfolding unpack record_done move_data is_archive
  complete put m e d =
      let moved = move_data put e in
      if is_archive (is_zip m.filename) m.kind
      then unpack put m moved d put.extraction
      else record_done put m none moved d

  unfoldable pub after_claim : Put → Meta → Dict Entry → Bool × Entry → Answer × Dict Entry
  unfolding complete unlink_tmp
  after_claim put m d (true, e) = complete put m e d
  after_claim put m d (false, e) = (already_completed, Dict.insert file_id (unlink_tmp put e) d)

  unfoldable pub after_check : Put → Entry → Dict Entry → Checked → Answer × Dict Entry
  unfolding after_claim claim unlink_tmp
  after_check put e d (refuse answer) = (answer, Dict.insert file_id (unlink_tmp put e) d)
  after_check put e d (go_on m) = after_claim put m d (claim e)

  unfoldable pub finalize_entry : Put → Dict Entry → Option Entry → Answer × Dict Entry
  unfolding after_check check
  finalize_entry put d none = (unknown, d)
  finalize_entry put d (some e) = after_check put e d (check put e.meta)

  unfoldable pub finalize_upload : Put → Dict Entry → Answer × Dict Entry
  unfolding finalize_entry
  finalize_upload put d = finalize_entry put d (Dict.lookup file_id d)

  -- `removes` tells whether the confined removal works.
  unfoldable pub delete_entry : Bool → Dict Entry → Option Entry → Bool × Dict Entry
  delete_entry removes d none = (false, d)
  delete_entry removes d (some e) = elim e.meta [
    | none ↦ (false, d)
    | some _ ↦ if removes then (true, Dict.erase file_id d) else (false, d)
  ]

  unfoldable pub delete_upload_op : Bool → Dict Entry → Bool × Dict Entry
  unfolding delete_entry
  delete_upload_op removes d = delete_entry removes d (Dict.lookup file_id d)
