-- ===== src/Transfer/Routes/Offered.antt =====
-- A download that `request_download_op` of mcp_server/skills/file_transfer/operations.py offers, at the
-- download route.
use openstudio_mcp.Base.{
  ℕ, ◌+◌, ◌*◌, ◌/◌, ◌≤◌, String, Bool, true, false, Option, none, some, List, ◌≡◌, ◌≢◌, inl, inr,
  refl, ltb, ◌==◌, ==_false, string_eq, arith, Bool-cases, Option-cases,
}
use openstudio_mcp.Paths.{Roots, run_root_for, is_path_allowed_for}
use openstudio_mcp.Transfer.{Codec, make_token, payload_of, second}
use openstudio_mcp.Transfer.Signing.{IsCoded, verify_token-make_token}
use openstudio_mcp.Transfer.Routes.Download.{
  Disk, exists, file_at, offered, serve_at, serve_allowed, serve_resolved, serve_root, serve_fields,
  serve_verified, verify_download, offer, offer_file, request_file, request_download_op,
}

exists-file : (disk : Disk) (t : List String) → disk.is_file t ≡ true → exists disk t ≡ true
exists-file disk t h = rw h refl

not_late : (now exp : ℕ) → now ≤ exp → ltb exp now ≡ false
not_late now exp h = ground arith

offered_inj : (a b : String) → offered b ≡ offered a → a ≡ b
offered_inj a b h = cc

-- The text of a path is not empty, and still resolves to it.
pub record IsShown (disk : Disk) (text : String) (t : List String) : Type 0 where
  pub shown : text ≢ ""
  pub inverse : disk.resolve text ≡ some t

module _ (c : Codec) (minted ttl : ℕ) (roots : Roots) (disk : Disk) (key : String)
    (named : key ≢ "") where
  serve_at-plain :
      (text : String) (t : List String)
      → disk.is_file t ≡ true
      → serve_at roots disk key text false t ≡ file_at t text false key
  unfolding serve_at
  serve_at-plain text t h = rw (exists-file disk t h) refl

  run_root_for-allowed :
      (t : List String) (b : Bool)
      → is_path_allowed_for roots key t false ≡ some b
      → (root : List String) × (run_root_for roots key ≡ some root)
  unfolding is_path_allowed_for
  run_root_for-allowed t b h = elim (Option-cases (run_root_for roots key)) [
    | inl bad ↦ absurd (ground (arith, bad))
    | inr good ↦ good
  ]

  serve_fields-allowed :
      (text : String) (t : List String)
      → IsShown disk text t
      → disk.is_file t ≡ true
      → is_path_allowed_for roots key t false ≡ some true
      → serve_fields roots disk false (some key) (some text) ≡ file_at t text false key
  unfolding serve_fields serve_root serve_resolved serve_allowed
  serve_fields-allowed text t law file ok =
      let (root, good) = run_root_for-allowed t true ok in
      rw
        (
          ==_false key "" named,
          ==_false text "" law.shown,
          good,
          serve_root,
          law.inverse,
          serve_resolved,
          ok,
        )
        (serve_at-plain text t file)

  verify_download-minted :
      (text : String) (t : List String) (now : ℕ)
      → IsCoded c (payload_of minted key "-" "d" ttl (some (text)) false)
      → IsShown disk text t
      → disk.is_file t ≡ true
      → is_path_allowed_for roots key t false ≡ some true
      → now ≤ (minted / second + ttl) * second
      → verify_download roots disk c now
          (make_token c (payload_of minted key "-" "d" ttl (some (text)) false))
        ≡ file_at t (text) false key
  unfolding verify_download serve_verified payload_of
  verify_download-minted text t now coded law file ok in_time =
      rw
        (
          verify_token-make_token c minted now key "-" "d" "d" ttl (some (text)) false coded,
          not_late now ((minted / second + ttl) * second) in_time,
        )
        (serve_fields-allowed text t law file ok)

module _ (c : Codec) (minted ttl : ℕ) (roots : Roots) (disk : Disk) (key : String)
    (named : key ≢ "") where
  request_file-offered :
      (token : String) (o : Option (List String))
      → request_file c minted ttl roots disk key o ≡ offered token
      → (t : List String) × (o ≡ some t)
        × (disk.is_file t ≡ true)
        × (is_path_allowed_for roots key t false ≡ some true)
        × (token ≡ make_token c (payload_of minted key "-" "d" ttl (some (disk.show t)) false))
  unfolding request_file offer_file offer
  request_file-offered token none h = absurd (ground arith)
  request_file-offered token (some t) h = elim (Bool-cases (disk.is_file t)) [
    | inr gone ↦ absurd (ground (arith, gone))
    | inl file ↦ elim (Option-cases (is_path_allowed_for roots key t false)) [
      | inl bad ↦ absurd (ground (arith, file, bad))
      | inr (false, no_) ↦ absurd (ground (arith, file, no_))
      | inr (true, ok) ↦ (t, refl, file, ok, offered_inj token _ (rw (file, ok) at h))
    ]
  ]

  -- A download of a single file that was offered to a caller is served to whoever brings the URL, as
  -- the file that the caller's path resolved to, until the time to live is over: on any disk and with any
  -- roots, as long as that path still names this file and the caller may still read it there.
  pub verify_download-request_download_op :
      (later : Disk) (later_roots : Roots) (path token : String) (now : ℕ)
      → ((t : List String)
          → disk.resolve path ≡ some t
          → IsCoded c (payload_of minted key "-" "d" ttl (some (disk.show t)) false)
            × IsShown later (disk.show t) t
            × (later.is_file t ≡ true)
            × (is_path_allowed_for later_roots key t false ≡ some true))
      → request_download_op c minted ttl roots disk key path "" false ≡ offered token
      → now ≤ (minted / second + ttl) * second
      → (t : List String) × (disk.resolve path ≡ some t)
        × (verify_download later_roots later c now token ≡ file_at t (disk.show t) false key)
  unfolding request_download_op
  verify_download-request_download_op later later_roots path token now law h in_time =
      elim (Bool-cases (path == "")) [
        | inl empty ↦ absurd (ground (arith, empty))
        | inr full ↦
            let (t, r, _, _, same) =
              request_file-offered token (disk.resolve path) (rw full at h) in
            let (coded, shown, file, ok) = law t r in
            (
              t,
              r,
              rw same (
                  verify_download-minted c minted ttl later_roots later key named (disk.show t) t
                    now coded shown file ok in_time),
            )
      ]
