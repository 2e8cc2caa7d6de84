-- ===== src/Transfer/Routes/Served.antt =====
-- What the download route of mcp_server/skills/file_transfer/operations.py hands out.
use openstudio_mcp.Base.{
  ℕ, ◌*◌, ◌≤◌, String, Bool, true, false, not, Option, none, some, List, ◌&&◌, ◌||◌, ◌≡◌, inl, inr,
  refl, sym, ap, ◌∙◌, ◌==◌, string_eq, arith, Bool-cases, Option-cases,
}
use openstudio_mcp.Paths.{Roots, run_root_for, is_path_allowed_for}
use openstudio_mcp.Transfer.{
  Payload, Codec, Verified, verified, malformed_token, bad_signature, malformed_payload, expired,
  wrong_op, verify_token, second,
}
use openstudio_mcp.Transfer.Signing.{IsCoded, KnowsOnly, verify_token-signed}
use openstudio_mcp.Transfer.Routes.Download.{
  Disk, exists, file_at, serve_at, serve_allowed, serve_resolved, serve_root, serve_fields,
  serve_verified, verify_download,
}
use mathlib.Core.List.{Memᴰ}

module _ (roots : Roots) (disk : Disk) (target : List String) (path : String) (bundle : Bool)
    (user : String) where
  serve_at-served :
      (key text : String) (b : Bool) (t : List String)
      → serve_at roots disk key text b t ≡ file_at target path bundle user
      → (t ≡ target) × (text ≡ path) × (key ≡ user) × (exists disk t ≡ true)
  unfolding serve_at
  serve_at-served key text b t h = elim (Bool-cases (exists disk t)) [
    | inr gone ↦ absurd (ground (arith, gone))
    | inl there ↦
        elim (Bool-cases
          (b && disk.is_file t && (disk.is_symlink text || not (disk.is_absolute text)))) [
            | inl link ↦ absurd (ground (arith, there, link))
            | inr plain ↦ (
              ground (arith, there, plain),
              ground (arith, there, plain),
              ground (arith, there, plain),
              there,
            )
          ]
  ]

  serve_allowed-served :
      (key text : String) (b : Bool) (t : List String) (o : Option Bool)
      → serve_allowed roots disk key text b t o ≡ file_at target path bundle user
      → (o ≡ some true) × (t ≡ target) × (text ≡ path) × (key ≡ user) × (exists disk t ≡ true)
  unfolding serve_allowed
  serve_allowed-served key text b t none h = absurd (ground arith)
  serve_allowed-served key text b t (some false) h = absurd (ground arith)
  serve_allowed-served key text b t (some true) h =
      let (same, one, who, there) = serve_at-served key text b t h in (refl, same, one, who, there)

  -- What the route has checked of a file that it serves.
  abbrev pub Checked : Type 0
  Checked =
      (disk.resolve path ≡ some target)
      × (is_path_allowed_for roots user target false ≡ some true)
      × (exists disk target ≡ true)

  serve_resolved-served :
      (key text : String) (b : Bool) (o : Option (List String))
      → disk.resolve text ≡ o
      → serve_resolved roots disk key text b o ≡ file_at target path bundle user
      → (key ≡ user) × (text ≡ path) × Checked
  unfolding serve_resolved
  serve_resolved-served key text b none r h = absurd (ground arith)
  serve_resolved-served key text b (some t) r h =
      let (allowed, same, one, who, there) =
        serve_allowed-served key text b t (is_path_allowed_for roots key t false) h in
      (
        who,
        one,
        (
          ap disk.resolve (sym one) ∙ r ∙ ap some same,
          ap (λ x. is_path_allowed_for roots x target false) (sym who)
              ∙ ap (λ x. is_path_allowed_for roots key x false) (sym same)
              ∙ allowed,
          ap (exists disk) (sym same) ∙ there,
        ),
      )

  serve_fields-served :
      (b : Bool) (u p : Option String)
      → serve_fields roots disk b u p ≡ file_at target path bundle user
      → (u ≡ some user) × (p ≡ some path) × Checked
  unfolding serve_fields serve_root
  serve_fields-served b none p h = absurd (ground arith)
  serve_fields-served b (some key) none h = absurd (ground arith)
  serve_fields-served b (some key) (some text) h = elim (Bool-cases (key == "" || text == "")) [
    | inl empty ↦ absurd (ground (arith, empty))
    | inr full ↦ elim (Option-cases (run_root_for roots key)) [
      | inl bad ↦ absurd (ground (arith, full, bad))
      | inr (root, good) ↦
          let (who, one, ok) =
            serve_resolved-served key text b (disk.resolve text) refl (rw (full, good) at h) in
          (ap some who, ap some one, ok)
    ]
  ]

  serve_verified-served :
      (v : Verified)
      → serve_verified roots disk v ≡ file_at target path bundle user
      → (q : Payload) × (v ≡ verified q) × (q.user ≡ some user) × (q.path ≡ some path) × Checked
  unfolding serve_verified
  serve_verified-served (verified p) h =
      let (who, one, ok) = serve_fields-served p.is_bundle p.user p.path h in
      (p, refl, who, one, ok)
  serve_verified-served malformed_token h = absurd (ground arith)
  serve_verified-served bad_signature h = absurd (ground arith)
  serve_verified-served malformed_payload h = absurd (ground arith)
  serve_verified-served expired h = absurd (ground arith)
  serve_verified-served wrong_op h = absurd (ground arith)

  -- Where the caller knows no signature but those of the server: the download route hands out a file
  -- only for a download that the server signed, of that path and for that user, before its expiry;
  -- and the path still resolves to a file that the policy allows this user to read.
  pub verify_download-allowed :
      (c : Codec)
      → (signed : List Payload) (now : ℕ) (token : String)
      → ((p : Payload) → Memᴰ p signed → IsCoded c p)
      → KnowsOnly c signed token
      → verify_download roots disk c now token ≡ file_at target path bundle user
      → (q : Payload) × Memᴰ q signed
        × (q.op ≡ some "d")
        × ((exp : ℕ) × (q.exp ≡ some exp) × (now ≤ exp * second))
        × (q.user ≡ some user)
        × (q.path ≡ some path)
        × Checked
  unfolding verify_download
  verify_download-allowed c signed now token law only h =
      let (q, v, who, one, ok) = serve_verified-served (verify_token c now token (some "d")) h in
      let (known, op, in_time) = verify_token-signed c signed now token "d" q law only v in
      (q, known, op, in_time, who, one, ok)
