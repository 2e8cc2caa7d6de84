-- ===== src/Transfer/Uploads/Frame.antt =====
-- `finalize_upload` of mcp_server/skills/file_transfer/operations.py leaves every other entry alone.
use openstudio_mcp.Base.{
  String, Bool, true, false, Option, none, some, ◌≡◌, ◌≢◌, inl, inr, refl, ==_false, string_eq,
  List, Bool-cases,
}
use openstudio_mcp.Base.Dict
use openstudio_mcp.Base.Dict.{Dict}
use openstudio_mcp.Transfer.Archive.{Failure, raised, File}
use openstudio_mcp.Transfer.Archive.Bounds.{sum_bytes}
use openstudio_mcp.Transfer.Uploads.{Meta, Entry, Limits, is_archive, is_over_quota}
use openstudio_mcp.Transfer.Uploads.Finalize.{
  Put, Checked, refuse, go_on, check, unlink_tmp, claim, move_data, release, done_of, meta_after,
  put_left, after_failure, write_done, record_done, unpack, complete, after_claim, after_check,
  finalize_entry, finalize_upload,
}

module _ (lim : Limits) (is_zip : String → Bool) (file_id other : String) (put : Put)
    (ne : other ≢ file_id) where
  Frame : Dict Entry → Dict Entry → Type 0
  Frame d after = Dict.lookup other after ≡ Dict.lookup other d

  insert-Frame : (e : Entry) (d : Dict Entry) → Frame d (Dict.insert file_id e d)
  unfolding Frame
  insert-Frame e d = rw (Dict.lookup-insert other file_id e d, ==_false other file_id ne) refl

  erase-Frame : (d : Dict Entry) → Frame d (Dict.erase file_id d)
  unfolding Frame
  erase-Frame d = rw (Dict.lookup-erase other file_id d, ==_false other file_id ne) refl

  write_done-Frame :
      (m : Meta) (x : Option String) (e : Entry) (d : Dict Entry)
      → Frame d (write_done lim is_zip file_id put m x e d).1
  unfolding write_done
  write_done-Frame m x e d =
      insert-Frame (record e { meta = meta_after put.write m (done_of put x) }) d

  put_left-Frame : (o : Option Entry) (d : Dict Entry) → Frame d (put_left file_id o d)
  unfolding put_left
  put_left-Frame none d = erase-Frame d
  put_left-Frame (some e) d = insert-Frame e d

  after_failure-Frame :
      (e : Entry) (d : Dict Entry) (files : List File) (f : Failure)
      → Frame d (after_failure lim is_zip file_id put e d files f).1
  unfolding after_failure
  after_failure-Frame e d files raised =
      insert-Frame (record e { extracted_size = sum_bytes files }) d
  after_failure-Frame e d files _ = insert-Frame (release put e) d

  record_done-Frame :
      (m : Meta) (x : Option String) (e : Entry) (d : Dict Entry)
      → Frame d (record_done lim is_zip file_id put m x e d).1
  unfolding record_done
  record_done-Frame m x e d = elim (Bool-cases (is_over_quota lim 0 (Dict.insert file_id e d))) [
    | inl over ↦ rw over (put_left-Frame (put.entry_left e) d)
    | inr within ↦ rw within (write_done-Frame m x e d)
  ]

  unpack-Frame :
      (m : Meta) (e : Entry) (d : Dict Entry) (x : List File × Option Failure)
      → Frame d (unpack lim is_zip file_id put m e d x).1
  unfolding unpack
  unpack-Frame m e d (files, some f) = after_failure-Frame e d files f
  unpack-Frame m e d (files, none) =
      record_done-Frame m (some put.extracted_path) (record e { extracted_size = sum_bytes files })
        d

  complete-Frame :
      (m : Meta) (e : Entry) (d : Dict Entry) → Frame d (complete lim is_zip file_id put m e d).1
  unfolding complete
  complete-Frame m e d = elim (Bool-cases (is_archive (is_zip m.filename) m.kind)) [
    | inl packed ↦ rw packed (unpack-Frame m (move_data put e) d put.extraction)
    | inr plain ↦ rw plain (record_done-Frame m none (move_data put e) d)
  ]

  after_claim-Frame :
      (m : Meta) (d : Dict Entry) (c : Bool × Entry)
      → Frame d (after_claim lim is_zip file_id put m d c).1
  unfolding after_claim
  after_claim-Frame m d (true, e) = complete-Frame m e d
  after_claim-Frame m d (false, e) = insert-Frame (unlink_tmp put e) d

  after_check-Frame :
      (e : Entry) (d : Dict Entry) (c : Checked)
      → Frame d (after_check lim is_zip file_id put e d c).1
  unfolding after_check
  after_check-Frame e d (refuse a) = insert-Frame (unlink_tmp put e) d
  after_check-Frame e d (go_on m) = after_claim-Frame m d (claim e)

  finalize_entry-Frame :
      (d : Dict Entry) (o : Option Entry) → Frame d (finalize_entry lim is_zip file_id put d o).1
  unfolding finalize_entry Frame
  finalize_entry-Frame d none = refl
  finalize_entry-Frame d (some e) = after_check-Frame e d (check put e.meta)

  pub lookup-finalize_upload :
      (d : Dict Entry)
      → Dict.lookup other (finalize_upload lim is_zip file_id put d).1 ≡ Dict.lookup other d
  unfolding finalize_upload Frame
  lookup-finalize_upload d = finalize_entry-Frame d (Dict.lookup file_id d)
