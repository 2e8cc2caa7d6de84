-- ===== src/Transfer/Uploads/Claims.antt =====
-- At most one of the concurrent requests of `finalize_upload` stores an upload.
use openstudio_mcp.Base.{
  ℕ, ◌+◌, ◌≤◌, String, Bool, true, false, Option, none, some, List, [], ◌∷◌, ◌++◌, ◌≡◌, inl, inr,
  refl, ◌∙◌, if◌then◌else◌, ==_refl, string_eq, arith, Bool-cases, Option-cases,
}
use openstudio_mcp.Base.Dict
use openstudio_mcp.Base.Dict.{Dict}
use openstudio_mcp.Transfer.Archive.{Failure, raised, File}
use openstudio_mcp.Transfer.Archive.Bounds.{sum_bytes}
use openstudio_mcp.Transfer.Uploads.{Done, Meta, Entry, Limits, is_archive, is_over_quota}
use openstudio_mcp.Transfer.Uploads.Finalize.{
  Put, Checked, refuse, go_on, check, check_meta, unlink_tmp, claim, claim_of, move_data, release,
  done_of, Write, written, unopened, torn, unclosed, meta_after, write_answer, put_left,
  after_failure, write_done, record_done, unpack, complete,
}
use openstudio_mcp.Transfer.Uploads.Once.{
  Stage, starting, tested, holding, answered, crashed, read_meta, take_claim, advance, World, Step,
  moves, deletes, Reaches, stays, goes, free_of, free, weight, weights, count_stored, all_starting,
}

module _ (lim : Limits) (is_zip : String → Bool) (file_id : String) where
  free-insert :
      (e : Entry) (d : Dict Entry)
      → free file_id (Dict.insert file_id e d) ≡ (if e.is_claimed then 0 else 1)
  unfolding free
  free-insert e d = rw (Dict.lookup-insert file_id file_id e d, ==_refl file_id) refl

  free-erase : (d : Dict Entry) → free file_id (Dict.erase file_id d) ≡ 0
  unfolding free
  free-erase d = rw (Dict.lookup-erase file_id file_id d, ==_refl file_id) refl

  free-le : (d : Dict Entry) → free file_id d ≤ 1
  unfolding free
  free-le d = elim (Option-cases (Dict.lookup file_id d)) [
    | inl gone ↦ rw gone (omega arith)
    | inr (e, h) ↦ rw h (ground arith)
  ]

  write_answer-worth : (w : Write) (x : Done) → weight (answered (write_answer w x)) ≤ 1
  unfolding write_answer
  write_answer-worth written x = omega arith
  write_answer-worth unopened x = omega arith
  write_answer-worth torn x = omega arith
  write_answer-worth unclosed x = omega arith

  -- What the claim is worth: it is had by one request at most, or free.
  write_done-worth :
      (put : Put) (m : Meta) (x : Option String) (e : Entry) (d : Dict Entry)
      → e.is_claimed ≡ true
      → let r = write_done lim is_zip file_id put m x e d in
        weight (answered r.0) + free file_id r.1 ≤ 1
  unfolding write_done
  write_done-worth put m x e d c = ground (
    arith,
    free-insert (record e { meta = meta_after put.write m (done_of put x) }) d,
    write_answer-worth put.write (done_of put x),
    c,
  )

  after_failure-worth :
      (put : Put) (e : Entry) (d : Dict Entry) (files : List File) (f : Failure)
      → let r = after_failure lim is_zip file_id put e d files f in
        weight (answered r.0) + free file_id r.1 ≤ 1
  unfolding after_failure
  after_failure-worth put e d files raised =
      omega (arith, free-le (Dict.insert file_id (record e { extracted_size = sum_bytes files }) d))
  after_failure-worth put e d files _ =
      omega (arith, free-le (Dict.insert file_id (release put e) d))

  record_done-worth :
      (put : Put) (m : Meta) (x : Option String) (e : Entry) (d : Dict Entry)
      → e.is_claimed ≡ true
      → let r = record_done lim is_zip file_id put m x e d in
        weight (answered r.0) + free file_id r.1 ≤ 1
  unfolding record_done
  record_done-worth put m x e d c =
      elim (Bool-cases (is_over_quota lim 0 (Dict.insert file_id e d))) [
        | inl over ↦ rw over (omega (arith, free-le (put_left file_id (put.entry_left e) d)))
        | inr within ↦ rw within (write_done-worth put m x e d c)
      ]

  unpack-worth :
      (put : Put) (m : Meta) (e : Entry) (d : Dict Entry) (x : List File × Option Failure)
      → e.is_claimed ≡ true
      → let r = unpack lim is_zip file_id put m e d x in
        weight (answered r.0) + free file_id r.1 ≤ 1
  unfolding unpack
  unpack-worth put m e d (files, some f) c = after_failure-worth put e d files f
  unpack-worth put m e d (files, none) c =
      record_done-worth put m (some put.extracted_path)
        (record e { extracted_size = sum_bytes files }) d c

  complete-worth :
      (put : Put) (m : Meta) (e : Entry) (d : Dict Entry)
      → e.is_claimed ≡ true
      → let r = complete lim is_zip file_id put m e d in
        weight (answered r.0) + free file_id r.1 ≤ 1
  unfolding complete move_data unlink_tmp
  complete-worth put m e d c = elim (Bool-cases (is_archive (is_zip m.filename) m.kind)) [
    | inl packed ↦ rw packed (unpack-worth put m (move_data put e) d put.extraction c)
    | inr plain ↦ rw plain (record_done-worth put m none (move_data put e) d c)
  ]

  free-open :
      (e : Entry) (d : Dict Entry)
      → Dict.lookup file_id d ≡ some e
      → e.is_claimed ≡ false
      → free file_id d ≡ 1
  unfolding free
  free-open e d h c = rw (h, free_of, c) refl

  free-unlink_tmp :
      (put : Put) (e : Entry) (d : Dict Entry)
      → Dict.lookup file_id d ≡ some e
      → free file_id (Dict.insert file_id (unlink_tmp put e) d) ≡ free file_id d
  unfolding free unlink_tmp
  free-unlink_tmp put e d h = free-insert (unlink_tmp put e) d ∙ rw h refl

  abbrev worth : Checked → ℕ
  worth (refuse a) = weight (answered a)
  worth (go_on m) = 0

  check_meta-worth : (put : Put) (m : Meta) (o : Option Done) → worth (check_meta put m o) ≡ 0
  unfolding check_meta
  check_meta-worth put m (some x) = refl
  check_meta-worth put m none = ground arith

  check-worth : (put : Put) (o : Option Meta) → worth (check put o) ≡ 0
  unfolding check
  check-worth put none = refl
  check-worth put (some m) = check_meta-worth put m m.ready

  read_meta-worth :
      (put : Put) (d : Dict Entry) (e : Entry) (c : Checked)
      → Dict.lookup file_id d ≡ some e
      → worth c ≡ 0
      → let r = read_meta lim is_zip file_id put d e c in
        weight r.0 + free file_id r.1 ≤ free file_id d
  unfolding read_meta
  read_meta-worth put d e (refuse a) h z = omega (arith, z, free-unlink_tmp put e d h)
  read_meta-worth put d e (go_on m) h z = omega arith

  take_claim-worth :
      (put : Put) (m : Meta) (d : Dict Entry) (e : Entry) (b : Bool)
      → Dict.lookup file_id d ≡ some e
      → e.is_claimed ≡ b
      → let r = take_claim lim is_zip file_id put m d (claim_of b e) in
        weight r.0 + free file_id r.1 ≤ free file_id d
  unfolding take_claim claim_of
  take_claim-worth put m d e true h c = omega (arith, free-unlink_tmp put e d h)
  take_claim-worth put m d e false h c =
      omega (arith, free-insert (record e { is_claimed = true }) d, free-open e d h c)

  -- The part of a request that comes next is worth no more than before, where at most one has the
  -- claim.
  advance-worth :
      (put : Put) (s : Stage) (d : Dict Entry) (o : Option Entry)
      → Dict.lookup file_id d ≡ o
      → weight s + free file_id d ≤ 1
      → let r = advance lim is_zip file_id put s d o in
        weight r.0 + free file_id r.1 ≤ weight s + free file_id d
  unfolding advance claim
  advance-worth put starting d none h b = omega arith
  advance-worth put starting d (some e) h b =
      omega (arith, read_meta-worth put d e (check put e.meta) h (check-worth put e.meta))
  advance-worth put (tested m) d none h b = omega arith
  advance-worth put (tested m) d (some e) h b =
      omega (arith, take_claim-worth put m d e e.is_claimed h refl)
  advance-worth put (holding m) d none h b = omega arith
  advance-worth put (holding m) d (some e) h b = elim (Bool-cases e.is_claimed) [
    | inl held ↦ omega (arith, complete-worth put m e d held)
    | inr open_ ↦ absurd (omega (arith, free-open e d h open_))
  ]
  advance-worth put (answered a) d o h b = omega arith
  advance-worth put crashed d o h b = omega arith

  weights-append : (xs ys : List (Put × Stage)) → weights (xs ++ ys) ≡ weights xs + weights ys
  unfolding weights
  weights-append [] ys = omega arith
  weights-append ((put, s) ∷ xs) ys = omega (arith, weights-append xs ys)

  Step-worth :
      {u v : World lim is_zip file_id}
      → Step lim is_zip file_id u v
      → weights u.0 + free file_id u.1 ≤ 1
      → weights v.0 + free file_id v.1 ≤ 1
  unfolding weights
  Step-worth (moves xs ys put s d) b =
      let r = advance lim is_zip file_id put s d (Dict.lookup file_id d) in
      let before = weights-append xs ((put, s) ∷ ys) in
      let after = weights-append xs ((put, r.0) ∷ ys) in
      omega (
        arith,
        b,
        before,
        after,
        advance-worth put s d (Dict.lookup file_id d) refl (omega (arith, b, before)),
      )
  Step-worth (deletes ts d) b = omega (arith, b, free-erase d)

  Reaches-worth :
      {u v : World lim is_zip file_id}
      → Reaches lim is_zip file_id u v
      → weights u.0 + free file_id u.1 ≤ 1
      → weights v.0 + free file_id v.1 ≤ 1
  Reaches-worth (stays w) b = b
  Reaches-worth (goes step rest) b = Reaches-worth rest (Step-worth step b)

  weights-all_starting : (ps : List Put) → weights (all_starting ps) ≡ 0
  unfolding weights all_starting
  weights-all_starting [] = refl
  weights-all_starting (p ∷ ps) = omega (arith, weights-all_starting ps)

  count_stored-le : (ts : List (Put × Stage)) → count_stored ts ≤ weights ts
  unfolding count_stored weights
  count_stored-le [] = omega arith
  count_stored-le ((put, s) ∷ ts) = ground (arith, count_stored-le ts)

  -- However many requests come with one upload URL, and in whatever order their parts run and the
  -- entry is deleted: at most one of them is told that its upload is stored.
  pub count_stored-Reaches :
      (ps : List Put) (d : Dict Entry) (v : World lim is_zip file_id)
      → Reaches lim is_zip file_id (all_starting ps, d) v
      → count_stored v.0 ≤ 1
  count_stored-Reaches ps d v h = omega (
    arith,
    count_stored-le v.0,
    Reaches-worth h (omega (arith, weights-all_starting ps, free-le d)),
  )
