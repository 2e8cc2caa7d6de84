-- ===== src/Transfer/Uploads/Outcomes.antt =====
-- What each answer of `finalize_upload` leaves behind.
use openstudio_mcp.Base.{
  ℕ, String, Bool, true, false, Option, none, some, List, ◌≡◌, ◌⊎◌, inl, inr, refl, ap, ◌∙◌, ◌==◌,
  ==_refl, ==_sound, string_eq, ℕ_eq, arith, Bool-cases,
}
use openstudio_mcp.Base.Dict
use openstudio_mcp.Base.Dict.{Dict}
use openstudio_mcp.Transfer.Archive.{Failure, raised, File}
use openstudio_mcp.Transfer.Archive.Bounds.{sum_bytes}
use openstudio_mcp.Transfer.Uploads.{Done, Meta, Entry, Limits, is_archive, is_over_quota}
use openstudio_mcp.Transfer.Uploads.Finalize.{
  Put, Answer, Checked, stored, unknown, already_completed, size_mismatch, sha_mismatch,
  bad_archive, over_quota, not_recorded, raises, Write, written, unopened, torn, unclosed,
  meta_after, write_answer, put_left, after_failure, refuse, go_on, check_meta, check, unlink_tmp,
  claim, claim_of, move_data, release, done_of, write_done, record_done, unpack, complete,
  after_claim, after_check, finalize_entry, finalize_upload,
}

-- What a PUT that came past its tests has found.
pub record Passed (put : Put) (e : Entry) (m : Meta) : Type 0 where
  pub found : e.meta ≡ some m
  pub pending : m.ready ≡ none
  pub sized : put.size ≡ m.expected_size
  pub digested : (m.expected_sha256 ≡ "") ⊎ (put.sha ≡ m.expected_sha256)

-- The entry that holds the moved file and the claim.
unfoldable pub claimed_entry : Put → Entry → ℕ → Entry
unfolding move_data
claimed_entry put e n = record (move_data put e) { is_claimed = true; extracted_size = n }

unfoldable pub stored_entry : Put → Entry → ℕ → Meta → Done → Entry
unfolding claimed_entry
stored_entry put e n m d = record (claimed_entry put e n) {
  meta = some (record m { ready = some d });
}

-- The entry with the claim, and with its meta.json as a failed write leaves it.
unfoldable pub unrecorded_entry : Put → Entry → ℕ → Meta → Done → Entry
unfolding claimed_entry
unrecorded_entry put e n m d = record (claimed_entry put e n) { meta = meta_after put.write m d }

-- How an answer goes with the entry before it and what is left of it.
unfoldable pub Leaves : Put → Entry → Answer → Option Entry → Type 0
Leaves put e (stored d) x =
    (m : Meta) × (n : ℕ) × Passed put e m
    × (e.is_claimed ≡ false)
    × (d.sha256 ≡ put.sha)
    × (d.size ≡ put.size)
    × (x ≡ some (stored_entry put e n m d))
Leaves put e unknown x = x ≡ some (unlink_tmp put e)
Leaves put e already_completed x = x ≡ some (unlink_tmp put e)
Leaves put e size_mismatch x = x ≡ some (unlink_tmp put e)
Leaves put e sha_mismatch x = x ≡ some (unlink_tmp put e)
Leaves put e (bad_archive f) x =
    (e.is_claimed ≡ false)
    × (x ≡ some (record (move_data put e) { extracted_size = put.extracted_left }))
Leaves put e over_quota x =
    (n : ℕ) × (e.is_claimed ≡ false) × (x ≡ put.entry_left (claimed_entry put e n))
Leaves put e not_recorded x =
    (m : Meta) × (n : ℕ) × (d : Done) × Passed put e m
    × (e.is_claimed ≡ false)
    × (x ≡ some (unrecorded_entry put e n m d))
Leaves put e raises x =
    (m : Meta) × (n : ℕ) × Passed put e m
    × (e.is_claimed ≡ false)
    × (x ≡ some (claimed_entry put e n))

released_entry :
    (put : Put) (e : Entry) (n : ℕ)
    → e.is_claimed ≡ false
    → release put (claimed_entry put e n)
      ≡ record (move_data put e) { extracted_size = put.extracted_left }
unfolding release claimed_entry move_data unlink_tmp
released_entry put e n h = ground (arith, h)

module _ (lim : Limits) (is_zip : String → Bool) (file_id : String) (put : Put)
    (d : Dict Entry) where
  lookup-here : (e : Entry) → Dict.lookup file_id (Dict.insert file_id e d) ≡ some e
  lookup-here e = rw (Dict.lookup-insert file_id file_id e d, ==_refl file_id) refl

  lookup-gone : Dict.lookup file_id (Dict.erase file_id d) ≡ none
  lookup-gone = rw (Dict.lookup-erase file_id file_id d, ==_refl file_id) refl

  module _ (e : Entry) (m : Meta) (h : Passed put e m) (open_ : e.is_claimed ≡ false) where
    write_answer-Leaves :
        (w : Write) (done : Done) (n : ℕ)
        → put.write ≡ w
        → done.sha256 ≡ put.sha
        → done.size ≡ put.size
        → (x : Option Entry) → x ≡ some (unrecorded_entry put e n m done)
        → Leaves put e (write_answer w done) x
    unfolding write_answer Leaves stored_entry unrecorded_entry meta_after
    write_answer-Leaves written done n w sha size x left = (m, n, h, open_, sha, size, rw w at left)
    write_answer-Leaves unopened done n w sha size x left = (m, n, done, h, open_, left)
    write_answer-Leaves torn done n w sha size x left = (m, n, done, h, open_, left)
    write_answer-Leaves unclosed done n w sha size x left = (m, n, done, h, open_, left)

    lookup-put_left : (o : Option Entry) → Dict.lookup file_id (put_left file_id o d) ≡ o
    unfolding put_left
    lookup-put_left none = lookup-gone
    lookup-put_left (some x) = lookup-here x

    write_done-Leaves :
        (extracted : Option String) (n : ℕ)
        → let r = write_done lim is_zip file_id put m extracted (claimed_entry put e n) d in
          Leaves put e r.0 (Dict.lookup file_id r.1)
    unfolding write_done unrecorded_entry
    write_done-Leaves extracted n =
        write_answer-Leaves put.write (done_of put extracted) n refl refl refl
          (Dict.lookup file_id
            (Dict.insert file_id (unrecorded_entry put e n m (done_of put extracted)) d))
          (lookup-here (unrecorded_entry put e n m (done_of put extracted)))

    record_done-Leaves :
        (extracted : Option String) (n : ℕ)
        → let r = record_done lim is_zip file_id put m extracted (claimed_entry put e n) d in
          Leaves put e r.0 (Dict.lookup file_id r.1)
    unfolding record_done Leaves
    record_done-Leaves extracted n =
        elim (Bool-cases (is_over_quota lim 0 (Dict.insert file_id (claimed_entry put e n) d))) [
          | inl over ↦ rw over (n, open_, lookup-put_left (put.entry_left (claimed_entry put e n)))
          | inr within ↦ rw within (write_done-Leaves extracted n)
        ]

    after_failure-Leaves :
        (n : ℕ) (files : List File) (f : Failure)
        → let r = after_failure lim is_zip file_id put (claimed_entry put e n) d files f in
          Leaves put e r.0 (Dict.lookup file_id r.1)
    unfolding after_failure Leaves claimed_entry
    after_failure-Leaves n files raised =
        (m, sum_bytes files, h, open_, lookup-here (claimed_entry put e (sum_bytes files)))
    after_failure-Leaves n files _ = (
      open_,
      lookup-here (release put (claimed_entry put e n)) ∙ ap some (released_entry put e n open_),
    )

    unpack-Leaves :
        (n : ℕ) (extraction : List File × Option Failure)
        → let r = unpack lim is_zip file_id put m (claimed_entry put e n) d extraction in
          Leaves put e r.0 (Dict.lookup file_id r.1)
    unfolding unpack Leaves release claimed_entry
    unpack-Leaves n (files, some failure) = after_failure-Leaves n files failure
    unpack-Leaves n (files, none) = record_done-Leaves (some put.extracted_path) (sum_bytes files)

    complete-Leaves :
        let r = complete lim is_zip file_id put m (record e { is_claimed = true }) d in
        Leaves put e r.0 (Dict.lookup file_id r.1)
    unfolding complete claimed_entry
    complete-Leaves = elim (Bool-cases (is_archive (is_zip m.filename) m.kind)) [
      | inl packed ↦ rw packed (unpack-Leaves e.extracted_size put.extraction)
      | inr plain ↦ rw plain (record_done-Leaves none e.extracted_size)
    ]

  after_claim_of-Leaves :
      (e : Entry) (m : Meta) (b : Bool)
      → Passed put e m
      → e.is_claimed ≡ b
      → let r = after_claim lim is_zip file_id put m d (claim_of b e) in
        Leaves put e r.0 (Dict.lookup file_id r.1)
  unfolding after_claim claim_of Leaves
  after_claim_of-Leaves e m true h c = lookup-here (unlink_tmp put e)
  after_claim_of-Leaves e m false h c = complete-Leaves e m h c

  after_claim-Leaves :
      (e : Entry) (m : Meta)
      → Passed put e m
      → let r = after_claim lim is_zip file_id put m d (claim e) in
        Leaves put e r.0 (Dict.lookup file_id r.1)
  unfolding claim
  after_claim-Leaves e m h = after_claim_of-Leaves e m e.is_claimed h refl

  -- What an answer needs where it is given before the claim.
  abbrev Early : Checked → Entry → Type 0
  Early (refuse a) e = (x : Option Entry) → x ≡ some (unlink_tmp put e) → Leaves put e a x
  Early (go_on m) e = Passed put e m

  check_meta-Early :
      (e : Entry) (m : Meta) (o : Option Done)
      → e.meta ≡ some m
      → m.ready ≡ o
      → Early (check_meta put m o) e
  unfolding check_meta Leaves
  check_meta-Early e m (some done) f r = λ x h. h
  check_meta-Early e m none f r = elim (Bool-cases (put.size == m.expected_size)) [
    | inr odd ↦ rw odd (λ x h. h)
    | inl sized ↦ elim (Bool-cases (m.expected_sha256 == "")) [
      | inl any_sha ↦
          rw (sized, any_sha)
            (record {
              found = f;
              pending = r;
              sized = ==_sound put.size m.expected_size sized;
              digested = inl (==_sound m.expected_sha256 "" any_sha);
            })
      | inr sha ↦ elim (Bool-cases (put.sha == m.expected_sha256)) [
        | inl same ↦
            rw (sized, sha, same)
              (record {
                found = f;
                pending = r;
                sized = ==_sound put.size m.expected_size sized;
                digested = inr (==_sound put.sha m.expected_sha256 same);
              })
        | inr wrong ↦ rw (sized, sha, wrong) (λ x h. h)
      ]
    ]
  ]

  check-Early : (e : Entry) (o : Option Meta) → e.meta ≡ o → Early (check put o) e
  unfolding check Leaves
  check-Early e none f = λ x h. h
  check-Early e (some m) f = check_meta-Early e m m.ready f refl

  after_check-Leaves :
      (e : Entry) (c : Checked)
      → Early c e
      → let r = after_check lim is_zip file_id put e d c in
        Leaves put e r.0 (Dict.lookup file_id r.1)
  unfolding after_check
  after_check-Leaves e (refuse a) h =
      h (Dict.lookup file_id (Dict.insert file_id (unlink_tmp put e) d))
        (lookup-here (unlink_tmp put e))
  after_check-Leaves e (go_on m) h = after_claim-Leaves e m h

  -- For every answer, what is left of the entry. A PUT that is refused takes only its temporary file
  -- away. After a bad archive the claim is free again; over the quota the entry is what its removal
  -- leaves. An upload is stored only by a PUT of the size and the digest asked for, into an entry that
  -- was pending and unclaimed. Where the meta.json of such a PUT cannot be written, or an exception
  -- leaves the extraction, the entry stays claimed; its meta.json is then what the write left of it, or
  -- the one that it had.
  pub finalize_upload-Leaves :
      (e : Entry)
      → Dict.lookup file_id d ≡ some e
      → let r = finalize_upload lim is_zip file_id put d in
        Leaves put e r.0 (Dict.lookup file_id r.1)
  unfolding finalize_upload finalize_entry
  finalize_upload-Leaves e h =
      rw h (after_check-Leaves e (check put e.meta) (check-Early e e.meta refl))
