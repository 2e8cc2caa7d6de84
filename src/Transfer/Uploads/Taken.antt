-- ===== src/Transfer/Uploads/Taken.antt =====
-- An entry whose claim `finalize_upload` of mcp_server/skills/file_transfer/operations.py keeps.
use openstudio_mcp.Base.{
  All, [], ◌∷◌, String, Bool, true, Option, some, List, ◌≡◌, refl, string_eq, ℕ_eq, arith,
}
use openstudio_mcp.Base.Dict
use openstudio_mcp.Base.Dict.{Dict}
use openstudio_mcp.Transfer.Uploads.{Entry, Limits}
use openstudio_mcp.Transfer.Uploads.Finalize.{
  Put, Answer, stored, unknown, already_completed, size_mismatch, sha_mismatch, bad_archive,
  over_quota, not_recorded, raises, unlink_tmp, finalize_upload,
}
use openstudio_mcp.Transfer.Uploads.Outcomes.{
  Leaves, claimed_entry, unrecorded_entry, finalize_upload-Leaves,
}

-- The answers of a PUT that changes nothing but its temporary file.
abbrev pub IsRefused : Answer → Type 0
IsRefused unknown = Unit
IsRefused already_completed = Unit
IsRefused size_mismatch = Unit
IsRefused sha_mismatch = Unit
IsRefused _ = ⊥

-- The answer 500, and an exception.
abbrev pub KeepsClaim : Answer → Type 0
KeepsClaim not_recorded = Unit
KeepsClaim raises = Unit
KeepsClaim _ = ⊥

-- PUTs one after the other: their answers, and what is left.
unfoldable pub put_all :
    Limits → (String → Bool) → String → List Put → Dict Entry → List Answer × Dict Entry
unfolding finalize_upload
put_all lim is_zip id [] d = ([], d)
put_all lim is_zip id (p ∷ ps) d =
    let (a, d') = finalize_upload lim is_zip id p d in
    let (rest, after) = put_all lim is_zip id ps d' in (a ∷ rest, after)

-- The entry is there with its claim taken.
abbrev pub IsTaken : String → Dict Entry → Type 0
IsTaken id d = (e : Entry) × (Dict.lookup id d ≡ some e) × (e.is_claimed ≡ true)

Leaves-claimed :
    (put : Put) (e : Entry) (a : Answer) (x : Option Entry)
    → e.is_claimed ≡ true
    → Leaves put e a x
    → IsRefused a × (x ≡ some (unlink_tmp put e))
unfolding Leaves
Leaves-claimed put e (stored d) x c (m, n, p, o, _, _, _) = absurd (ground (arith, c, o))
Leaves-claimed put e unknown x c h = (tt, h)
Leaves-claimed put e already_completed x c h = (tt, h)
Leaves-claimed put e size_mismatch x c h = (tt, h)
Leaves-claimed put e sha_mismatch x c h = (tt, h)
Leaves-claimed put e (bad_archive f) x c (o, _) = absurd (ground (arith, c, o))
Leaves-claimed put e over_quota x c (n, o, _) = absurd (ground (arith, c, o))
Leaves-claimed put e not_recorded x c (m, n, d, p, o, _) = absurd (ground (arith, c, o))
Leaves-claimed put e raises x c (m, n, p, o, _) = absurd (ground (arith, c, o))

Leaves-IsTaken :
    (put : Put) (e : Entry) (a : Answer) (id : String) (d : Dict Entry)
    → KeepsClaim a
    → Leaves put e a (Dict.lookup id d)
    → IsTaken id d
unfolding Leaves claimed_entry unrecorded_entry
Leaves-IsTaken put e not_recorded id d k (m, n, x, p, o, left) =
    (unrecorded_entry put e n m x, left, refl)
Leaves-IsTaken put e raises id d k (m, n, p, o, left) = (claimed_entry put e n, left, refl)
Leaves-IsTaken put e (stored x) id d k h = absurd k
Leaves-IsTaken put e unknown id d k h = absurd k
Leaves-IsTaken put e already_completed id d k h = absurd k
Leaves-IsTaken put e size_mismatch id d k h = absurd k
Leaves-IsTaken put e sha_mismatch id d k h = absurd k
Leaves-IsTaken put e (bad_archive f) id d k h = absurd k
Leaves-IsTaken put e over_quota id d k h = absurd k

put_all-IsTaken :
    (lim : Limits) (is_zip : String → Bool) (id : String) (ps : List Put) (d : Dict Entry)
    → IsTaken id d
    → let r = put_all lim is_zip id ps d in All IsRefused r.0 × IsTaken id r.1
unfolding put_all unlink_tmp
put_all-IsTaken lim is_zip id [] d taken = (tt, taken)
put_all-IsTaken lim is_zip id (p ∷ ps) d (e, here, c) =
    let r = finalize_upload lim is_zip id p d in
    let (refused, left) =
      Leaves-claimed p e r.0 (Dict.lookup id r.1) c
        (finalize_upload-Leaves lim is_zip id p d e here) in
    let (rest, after) = put_all-IsTaken lim is_zip id ps r.1 (unlink_tmp p e, left, c) in
    ((refused, rest), after)

-- An entry whose upload was answered with the status 500, or left by an exception of its extraction,
-- takes no other upload: the claim stays through any further PUTs, each of which is refused.
pub finalize_upload-IsTaken :
    (lim : Limits) (is_zip : String → Bool) (id : String) (put : Put) (later : List Put)
    (d : Dict Entry) (e : Entry)
    → Dict.lookup id d ≡ some e
    → KeepsClaim (finalize_upload lim is_zip id put d).0
    → let r = put_all lim is_zip id later (finalize_upload lim is_zip id put d).1 in
      All IsRefused r.0 × IsTaken id r.1
finalize_upload-IsTaken lim is_zip id put later d e here keeps =
    let r = finalize_upload lim is_zip id put d in
    put_all-IsTaken lim is_zip id later r.1
      (Leaves-IsTaken put e r.0 id r.1 keeps (finalize_upload-Leaves lim is_zip id put d e here))
