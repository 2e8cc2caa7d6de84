-- ===== src/Transfer/Routes/Signed.antt =====
-- What the upload route of mcp_server/skills/file_transfer/routes.py changes.
use openstudio_mcp.Base.{
  ℕ, ◌*◌, ◌≤◌, String, Bool, Option, none, some, List, ◌≡◌, ◌≢◌, ◌⊎◌, inl, inr, refl, sym, ap, ◌∙◌,
  ◌==◌, ==_false, ==_sound, string_eq, arith, Bool-cases,
}
use openstudio_mcp.Base.Dict
use openstudio_mcp.Base.Dict.{Dict}
use openstudio_mcp.Paths.{Roots, run_root_for}
use openstudio_mcp.Transfer.{
  Payload, Codec, Verified, verified, malformed_token, bad_signature, malformed_payload, expired,
  wrong_op, verify_token, second,
}
use openstudio_mcp.Transfer.Signing.{IsCoded, KnowsOnly, verify_token-signed}
use openstudio_mcp.Transfer.Uploads.{Meta, Entry, Limits}
use openstudio_mcp.Transfer.Uploads.Finalize.{finalize_upload}
use openstudio_mcp.Transfer.Uploads.Frame.{lookup-finalize_upload}
use openstudio_mcp.Transfer.Routes.{
  Upload, Response, Tenants, is_file_id, set_tenant, stream, put_of, with_incoming, after_stream,
  with_meta, into_entry, at_root, with_ids, with_token, upload_route,
}
use mathlib.Core.List.{Memᴰ}
use text.Mathlib.TextEquality.{eq_iff}

module _ (c : Codec) (roots : Roots) (lim : Limits) (is_zip : String → Bool) (u : Upload)
    (ts : Tenants) (k id : String) where
  -- The entry is as it was, or it is the one that is named.
  Touches : String → String → Tenants → Type 0
  Touches key file after =
      (Dict.lookup id (after k) ≡ Dict.lookup id (ts k)) ⊎ ((k ≡ key) × (id ≡ file))

  set_tenant-Touches :
      (key file : String) (d : Dict Entry)
      → (id ≢ file → Dict.lookup id d ≡ Dict.lookup id (ts key))
      → Touches key file (set_tenant key d ts)
  unfolding set_tenant Touches
  set_tenant-Touches key file d h = elim (Bool-cases (k == key)) [
    | inr other ↦ inl (rw other refl)
    | inl same ↦ elim (Bool-cases (id == file)) [
      | inl one ↦ inr (==_sound k key same, ==_sound id file one)
      | inr two ↦ inl (
          rw same (
            h (λ e. absurd (ground (arith, two, eq_iff id file, e)))
            ∙ ap (λ x. Dict.lookup id (ts x)) (sym (==_sound k key same))))
    ]
  ]

  after_stream-Touches :
      (key file : String) (e : Entry) (s : ℕ × Option Response)
      → Touches key file (after_stream c roots lim is_zip u key file e ts s).1
  unfolding after_stream Touches
  after_stream-Touches key file e (size, some r) = inl refl
  after_stream-Touches key file e (size, none) =
      set_tenant-Touches key file
        (finalize_upload lim is_zip file (put_of u size)
          (Dict.insert file (with_incoming size e) (ts key))).1
        (λ ne.
          lookup-finalize_upload lim is_zip file id (put_of u size) ne
            (Dict.insert file (with_incoming size e) (ts key))
          ∙ rw (Dict.lookup-insert id file (with_incoming size e) (ts key), ==_false id file ne)
              refl)

  with_meta-Touches :
      (key file : String) (e : Entry) (m : Option Meta)
      → Touches key file (with_meta c roots lim is_zip u key file e ts m).1
  unfolding with_meta Touches
  with_meta-Touches key file e none = inl refl
  with_meta-Touches key file e (some m) =
      after_stream-Touches key file e (stream lim.max_bytes u.ending u.chunks 0)

  into_entry-Touches :
      (key file : String) (o : Option Entry)
      → Touches key file (into_entry c roots lim is_zip u key file ts o).1
  unfolding into_entry Touches
  into_entry-Touches key file none = inl refl
  into_entry-Touches key file (some e) = with_meta-Touches key file e e.meta

  at_root-Touches :
      (key file : String) (o : Option (List String))
      → Touches key file (at_root c roots lim is_zip u key file ts o).1
  unfolding at_root Touches
  at_root-Touches key file none = inl refl
  at_root-Touches key file (some root) = elim (Bool-cases (is_file_id file)) [
    | inl good ↦ rw good (into_entry-Touches key file (Dict.lookup file (ts key)))
    | inr bad ↦ inl (rw bad refl)
  ]

  named :
      (key file : String) (after : Tenants)
      → Touches key file after
      → (Dict.lookup id (after k) ≡ Dict.lookup id (ts k))
        ⊎ ((◌≡◌ {A = Option String} (some key) (some k))
            × (◌≡◌ {A = Option String} (some file) (some id)))
  unfolding Touches
  named key file after (inl kept) = inl kept
  named key file after (inr (a, b)) = inr (ap some (sym a), ap some (sym b))

  with_ids-Names :
      (user file : Option String)
      → let after = (with_ids c roots lim is_zip u ts user file).1 in
        (Dict.lookup id (after k) ≡ Dict.lookup id (ts k)) ⊎ ((user ≡ some k) × (file ≡ some id))
  unfolding with_ids
  with_ids-Names none f = inl refl
  with_ids-Names (some key) none = inl refl
  with_ids-Names (some key) (some file) = elim (Bool-cases (u.path_id == file)) [
    | inr odd ↦ inl (rw odd refl)
    | inl same ↦ rw same (
        named key file (at_root c roots lim is_zip u key file ts (run_root_for roots key)).1
          (at_root-Touches key file (run_root_for roots key)))
  ]

  with_token-signed :
      (now : ℕ) (v : Verified) (signed : List Payload)
      → ((q : Payload)
          → v ≡ verified q
          → Memᴰ q signed
            × (q.op ≡ some "u")
            × ((exp : ℕ) × (q.exp ≡ some exp) × (now ≤ exp * second)))
      → let after = (with_token c roots lim is_zip u ts v).1 in
        (Dict.lookup id (after k) ≡ Dict.lookup id (ts k))
        ⊎ ((q : Payload) × Memᴰ q signed
            × (q.op ≡ some "u")
            × ((exp : ℕ) × (q.exp ≡ some exp) × (now ≤ exp * second))
            × (q.user ≡ some k)
            × (q.file ≡ some id))
  unfolding with_token
  with_token-signed now (verified p) signed h = elim (with_ids-Names p.user p.file) [
    | inl kept ↦ inl kept
    | inr (a, b) ↦ (let (mem, op, exp) = h p refl in inr (p, mem, op, exp, a, b))
  ]
  with_token-signed now malformed_token signed h = inl refl
  with_token-signed now bad_signature signed h = inl refl
  with_token-signed now malformed_payload signed h = inl refl
  with_token-signed now expired signed h = inl refl
  with_token-signed now wrong_op signed h = inl refl

  -- Where the caller knows no signature but those of the server: a PUT changes an entry of a tenant
  -- only if the server signed an upload of that very entry for that tenant, and it is not past its
  -- expiry. So no one writes into another tenant's uploads, or with a download URL.
  pub upload_route-signed :
      (signed : List Payload) (now : ℕ) (token : String)
      → ((p : Payload) → Memᴰ p signed → IsCoded c p)
      → KnowsOnly c signed token
      → let after = (upload_route c roots lim is_zip now token u ts).1 in
        (Dict.lookup id (after k) ≡ Dict.lookup id (ts k))
        ⊎ ((q : Payload) × Memᴰ q signed
            × (q.op ≡ some "u")
            × ((exp : ℕ) × (q.exp ≡ some exp) × (now ≤ exp * second))
            × (q.user ≡ some k)
            × (q.file ≡ some id))
  unfolding upload_route
  upload_route-signed signed now token law only =
      with_token-signed now (verify_token c now token (some "u")) signed
        (λ q h. verify_token-signed c signed now token "u" q law only h)
