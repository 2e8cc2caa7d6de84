-- ===== src/Transfer/Uploads/Quota.antt =====
-- The quota of a tenant in mcp_server/skills/file_transfer/operations.py.
use openstudio_mcp.Base.{
  ℕ, zero, suc, ◌+◌, ◌≤◌, ◌<◌, String, Bool, true, false, not, Option, none, some, List, [], ◌∷◌,
  ◌&&◌, ◌≡◌, inl, inr, refl, ltb, ◌==◌, string_eq, ℕ_eq, contains, arith, Bool-cases,
}
use openstudio_mcp.Base.Dict
use openstudio_mcp.Base.Dict.{Dict}
use openstudio_mcp.Transfer.Archive.{Failure, raised, File}
use openstudio_mcp.Transfer.Archive.Bounds.{sum_bytes}
use openstudio_mcp.Transfer.Uploads.{
  Done, Meta, Entry, Limits, granted, kinds, entry_size, dir_size, is_over_quota, is_archive,
  new_entry, new_meta, kind_or_auto, mint, request_upload_op,
}
use openstudio_mcp.Transfer.Uploads.Finalize.{
  Put, Answer, Checked, stored, refuse, go_on, check, check_meta, unlink_tmp, claim, move_data,
  done_of, Write, written, unopened, torn, unclosed, meta_after, write_answer, after_failure,
  write_done, record_done, unpack, complete, after_claim, after_check, finalize_entry,
  finalize_upload,
}

-- The bytes of an entry and of the directory, but for those of the meta.json files.
unfoldable pub payload : Entry → ℕ
payload e = e.data_size + (e.extracted_size + e.incoming)

unfoldable pub payloads : Dict Entry → ℕ
payloads [] = 0
payloads ((_, e) ∷ d) = payload e + payloads d

payloads-le : (lim : Limits) (d : Dict Entry) → payloads d ≤ dir_size lim d
unfolding payloads payload dir_size entry_size
payloads-le lim [] = omega arith
payloads-le lim ((k, e) ∷ d) = omega (arith, payloads-le lim d)

payloads-insert :
    (k : String) (e f : Entry) (d : Dict Entry)
    → payload e ≡ payload f
    → payloads (Dict.insert k e d) ≡ payloads (Dict.insert k f d)
unfolding payloads Dict.insert
payloads-insert k e f [] h = omega (arith, h)
payloads-insert k e f ((j, x) ∷ d) h = elim (Bool-cases (k == j)) [
  | inl y ↦ rw y (omega (arith, h))
  | inr n ↦ rw n (omega (arith, payloads-insert k e f d h))
]

-- What an answer says of the directory after it.
abbrev pub Bounded : Limits → Answer → Dict Entry → Type 0
Bounded lim (stored x) d = payloads d ≤ lim.quota
Bounded lim _ d = Unit

mint-granted :
    (lim : Limits) (writes : Bool) (id name : String) (n : ℕ) (sha kind got : String)
    (d : Dict Entry)
    → (mint lim writes id name n sha kind d).0 ≡ granted got
    → (n ≤ lim.max_bytes)
      × (contains kinds kind ≡ true)
      × (0 < lim.quota → dir_size lim d + n ≤ lim.quota)
      × ((mint lim writes id name n sha kind d).1
          ≡ Dict.insert id (new_entry (new_meta name kind n sha)) d)
unfolding mint is_over_quota
mint-granted lim writes id name n sha kind got d h = elim (Bool-cases (contains kinds kind)) [
  | inr odd ↦ absurd (ground (arith, odd))
  | inl known ↦ elim (Bool-cases (ltb lim.max_bytes n)) [
    | inl large ↦ absurd (ground (arith, known, large))
    | inr small ↦ elim (Bool-cases (is_over_quota lim n d)) [
      | inl over ↦ absurd (ground (arith, known, small, over))
      | inr room ↦ elim (Bool-cases writes) [
        | inr fails ↦ absurd (ground (arith, known, small, room, fails))
        | inl good ↦ (
          ground (arith, small),
          known,
          λ q. ground (arith, room, q),
          rw (known, small, room, good, mint) refl,
        )
      ]
    ]
  ]
]

module _ (lim : Limits) (is_zip : String → Bool) (file_id : String) (put : Put)
    (limited : 0 < lim.quota) where
  within : (d : Dict Entry) → is_over_quota lim 0 d ≡ false → payloads d ≤ lim.quota
  unfolding is_over_quota
  within d h = ground (arith, h, limited, payloads-le lim d)

  write_answer-Bounded :
      (w : Write) (x : Done) (d : Dict Entry)
      → payloads d ≤ lim.quota
      → Bounded lim (write_answer w x) d
  unfolding write_answer
  write_answer-Bounded written x d h = h
  write_answer-Bounded unopened x d h = tt
  write_answer-Bounded torn x d h = tt
  write_answer-Bounded unclosed x d h = tt

  write_done-Bounded :
      (m : Meta) (x : Option String) (e : Entry) (d : Dict Entry)
      → payloads (Dict.insert file_id e d) ≤ lim.quota
      → let r = write_done lim is_zip file_id put m x e d in Bounded lim r.0 r.1
  unfolding write_done payload
  write_done-Bounded m x e d h =
      let e' = record e { meta = meta_after put.write m (done_of put x) } in
      write_answer-Bounded put.write (done_of put x) (Dict.insert file_id e' d)
        (omega (arith, h, payloads-insert file_id e' e d refl))

  after_failure-Bounded :
      (e : Entry) (d : Dict Entry) (files : List File) (f : Failure)
      → let r = after_failure lim is_zip file_id put e d files f in Bounded lim r.0 r.1
  unfolding after_failure
  after_failure-Bounded e d files raised = tt
  after_failure-Bounded e d files _ = tt

  record_done-Bounded :
      (m : Meta) (x : Option String) (e : Entry) (d : Dict Entry)
      → let r = record_done lim is_zip file_id put m x e d in Bounded lim r.0 r.1
  unfolding record_done
  record_done-Bounded m x e d = elim (Bool-cases (is_over_quota lim 0 (Dict.insert file_id e d))) [
    | inl over ↦ rw over tt
    | inr in_quota ↦
        rw in_quota (write_done-Bounded m x e d (within (Dict.insert file_id e d) in_quota))
  ]

  unpack-Bounded :
      (m : Meta) (e : Entry) (d : Dict Entry) (x : List File × Option Failure)
      → let r = unpack lim is_zip file_id put m e d x in Bounded lim r.0 r.1
  unfolding unpack
  unpack-Bounded m e d (files, some f) = after_failure-Bounded e d files f
  unpack-Bounded m e d (files, none) =
      record_done-Bounded m (some put.extracted_path)
        (record e { extracted_size = sum_bytes files }) d

  complete-Bounded :
      (m : Meta) (e : Entry) (d : Dict Entry)
      → let r = complete lim is_zip file_id put m e d in Bounded lim r.0 r.1
  unfolding complete
  complete-Bounded m e d = elim (Bool-cases (is_archive (is_zip m.filename) m.kind)) [
    | inl packed ↦ rw packed (unpack-Bounded m (move_data put e) d put.extraction)
    | inr plain ↦ rw plain (record_done-Bounded m none (move_data put e) d)
  ]

  after_claim-Bounded :
      (m : Meta) (d : Dict Entry) (c : Bool × Entry)
      → let r = after_claim lim is_zip file_id put m d c in Bounded lim r.0 r.1
  unfolding after_claim
  after_claim-Bounded m d (true, e) = complete-Bounded m e d
  after_claim-Bounded m d (false, e) = tt

  -- The answers of the tests are never a stored upload.
  abbrev Quiet : Checked → Type 0
  Quiet (refuse a) = (d : Dict Entry) → Bounded lim a d
  Quiet (go_on m) = Unit

  check_meta-Quiet : (m : Meta) (o : Option Done) → Quiet (check_meta put m o)
  unfolding check_meta
  check_meta-Quiet m (some x) = λ d. tt
  check_meta-Quiet m none = elim (Bool-cases (put.size == m.expected_size)) [
    | inr odd ↦ rw odd (λ d. tt)
    | inl sized ↦
        elim (Bool-cases (not (m.expected_sha256 == "") && not (put.sha == m.expected_sha256))) [
          | inl wrong ↦ rw (sized, wrong) (λ d. tt)
          | inr right ↦ rw (sized, right) tt
        ]
  ]

  check-Quiet : (o : Option Meta) → Quiet (check put o)
  unfolding check
  check-Quiet none = λ d. tt
  check-Quiet (some m) = check_meta-Quiet m m.ready

  after_check-Bounded :
      (e : Entry) (d : Dict Entry) (c : Checked)
      → Quiet c
      → let r = after_check lim is_zip file_id put e d c in Bounded lim r.0 r.1
  unfolding after_check
  after_check-Bounded e d (refuse a) q = q (Dict.insert file_id (unlink_tmp put e) d)
  after_check-Bounded e d (go_on m) q = after_claim-Bounded m d (claim e)

  finalize_entry-Bounded :
      (d : Dict Entry) (o : Option Entry)
      → let r = finalize_entry lim is_zip file_id put d o in Bounded lim r.0 r.1
  unfolding finalize_entry
  finalize_entry-Bounded d none = tt
  finalize_entry-Bounded d (some e) =
      after_check-Bounded e d (check put e.meta) (check-Quiet e.meta)

  -- Where a quota is set, whatever an archive expands to: after a PUT that stored its upload, what
  -- the tenant has under `uploads`, but for the meta.json files, is within the quota.
  pub finalize_upload-quota :
      (d : Dict Entry) (x : Done)
      → (finalize_upload lim is_zip file_id put d).0 ≡ stored x
      → payloads (finalize_upload lim is_zip file_id put d).1 ≤ lim.quota
  unfolding finalize_upload
  finalize_upload-quota d x h = rw h at (finalize_entry-Bounded d (Dict.lookup file_id d))

-- An upload URL is granted only for a positive size within the cap, of a known kind, and where a quota
-- is set, only if the tenant's files and the new one fit in it; and then the new entry is pending.
pub request_upload_op-granted :
    (lim : Limits) (writes : Bool) (id name : String) (size : Option ℕ) (sha kind got : String)
    (d : Dict Entry)
    → (request_upload_op lim writes id name size sha kind d).0 ≡ granted got
    → (n : ℕ) × (size ≡ some n)
      × (0 < n)
      × (n ≤ lim.max_bytes)
      × (contains kinds (kind_or_auto kind) ≡ true)
      × (0 < lim.quota → dir_size lim d + n ≤ lim.quota)
      × ((request_upload_op lim writes id name size sha kind d).1
          ≡ Dict.insert id (new_entry (new_meta name (kind_or_auto kind) n sha)) d)
unfolding request_upload_op
request_upload_op-granted lim writes id name none sha kind got d h = absurd (ground arith)
request_upload_op-granted lim writes id name (some zero) sha kind got d h = absurd (ground arith)
request_upload_op-granted lim writes id name (some (suc k)) sha kind got d h =
    let (size, known, room, after) =
      mint-granted lim writes id name (suc k) sha (kind_or_auto kind) got d h in
    (suc k, refl, omega arith, size, known, room, after)
