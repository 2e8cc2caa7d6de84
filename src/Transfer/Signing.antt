-- ===== src/Transfer/Signing.antt =====
-- What a token of mcp_server/skills/file_transfer/signing.py is worth.
use openstudio_mcp.Base.{
  ℕ, ◌+◌, ◌*◌, ◌/◌, ◌≤◌, String, Bool, true, false, not, Option, none, some, List, ◌≡◌, inl, inr,
  refl, sym, ap, subst, ◌∙◌, if◌then◌else◌, ltb, ◌==◌, string_eq, ℕ_eq, ◌<>◌, arith, ==_refl,
  ==_sound, Bool-cases,
}
use openstudio_mcp.Identity.{every}
use openstudio_mcp.Transfer.{
  Payload, Codec, second, split_dot, verified, expired, wrong_op, payload_of, is_wrong_op,
  check_exp, check_payload, check_parts, make_token, verify_token,
}
use Prim.Native.String.append
use mathlib.Core.List.{Memᴰ}
use mathlib.Core.Option.{some_inj}

-- What Python documents of base64 and JSON, at a payload: no dot in its text, and it comes back.
pub record IsCoded (c : Codec) (p : Payload) : Type 0 where
  pub undotted : every (λ n. not (n == 46)) (c.encode p) ≡ true
  pub inverse : c.decode (c.encode p) ≡ some p

split_dot-append :
    (body sig : String)
    → every (λ n. not (n == 46)) body ≡ true
    → split_dot (body <> String.◌∷◌ "." sig) ≡ some (body, sig)
unfolding split_dot every
split_dot-append (String.[]) sig h = rw append.nil refl
split_dot-append (String.◌∷◌ c s) sig h =
    rw (append.cons c s (String.◌∷◌ "." sig)) (ground (arith, split_dot-append s sig))

module _ (c : Codec) where
  verify_token-payload :
      (now : ℕ) (p : Payload) (op : Option String)
      → IsCoded c p
      → verify_token c now (make_token c p) op ≡ check_exp now op p p.exp
  unfolding verify_token make_token check_parts check_payload
  verify_token-payload now p op law =
      rw
        (
          split_dot-append (c.encode p) (c.mac (c.encode p)) law.undotted,
          check_parts,
          ==_refl (c.mac (c.encode p)),
          law.inverse,
        )
        refl

  -- A token comes back from its check as the payload that was signed, until its time to live is over
  -- and for its own operation; otherwise it is expired, or of the wrong operation.
  pub verify_token-make_token :
      (minted now : ℕ) (user file op wanted : String) (ttl : ℕ) (path : Option String) (b : Bool)
      → IsCoded c (payload_of minted user file op ttl path b)
      → let p = payload_of minted user file op ttl path b in
        verify_token c now (make_token c p) (some wanted) ≡ (
          if ltb ((minted / second + ttl) * second) now
          then expired
          else if op == wanted
          then verified p
          else wrong_op)
  unfolding payload_of check_exp is_wrong_op
  verify_token-make_token minted now user file op wanted ttl path b law =
      verify_token-payload now (payload_of minted user file op ttl path b) (some wanted) law
      ∙ ground (arith)

is_wrong_op-false :
    (op : String) (got : Option String) → is_wrong_op (some op) got ≡ false → got ≡ some op
unfolding is_wrong_op
is_wrong_op-false op none h = absurd (ground arith)
is_wrong_op-false op (some got) h = ap some (==_sound got op (ground arith))

check_exp-verified :
    (now : ℕ) (op : String) (p q : Payload) (e : Option ℕ)
    → check_exp now (some op) p e ≡ verified q
    → (q ≡ p) × (p.op ≡ some op) × ((exp : ℕ) × (e ≡ some exp) × (now ≤ exp * second))
unfolding check_exp
check_exp-verified now op p q none h = absurd (ground arith)
check_exp-verified now op p q (some exp) h = elim (Bool-cases (ltb (exp * second) now)) [
  | inl late ↦ absurd (ground (arith, late))
  | inr in_time ↦ elim (Bool-cases (is_wrong_op (some op) p.op)) [
    | inl wrong ↦ absurd (ground (arith, wrong, in_time))
    | inr right ↦ (
      ground (arith, right, in_time),
      is_wrong_op-false op p.op right,
      (exp, refl, ground (arith, in_time)),
    )
  ]
]

module _ (c : Codec) where
  check_payload-verified :
      (now : ℕ) (op : String) (q : Payload) (d : Option Payload)
      → check_payload now (some op) d ≡ verified q
      → (d ≡ some q) × (q.op ≡ some op) × ((exp : ℕ) × (q.exp ≡ some exp) × (now ≤ exp * second))
  unfolding check_payload
  check_payload-verified now op q none h = absurd (ground arith)
  check_payload-verified now op q (some p) h =
      let (same, right, in_time) = check_exp-verified now op p q p.exp h in
      rw same (refl, right, in_time)

  check_parts-verified :
      (now : ℕ) (op : String) (q : Payload) (o : Option (String × String))
      → check_parts c now (some op) o ≡ verified q
      → (body : String) × (sig : String) × (o ≡ some (body, sig))
        × (sig ≡ c.mac body)
        × (check_payload now (some op) (c.decode body) ≡ verified q)
  unfolding check_parts
  check_parts-verified now op q none h = absurd (ground arith)
  check_parts-verified now op q (some (body, sig)) h = elim (Bool-cases (sig == c.mac body)) [
    | inl good ↦ (body, sig, refl, ==_sound sig (c.mac body) good, rw good at h)
    | inr bad ↦ absurd (ground (arith, bad))
  ]

  -- The caller knows no signature but those of the payloads that the server signed.
  abbrev pub KnowsOnly : List Payload → String → Type 0
  KnowsOnly signed token =
      (body sig : String)
      → split_dot token ≡ some (body, sig)
      → sig ≡ c.mac body
      → (p : Payload) × Memᴰ p signed × (body ≡ c.encode p)

  -- Where a caller knows no signature but those that the server made, what the check lets through is
  -- a payload that the server signed, for that operation, and not past its expiry.
  pub verify_token-signed :
      (signed : List Payload) (now : ℕ) (token op : String) (q : Payload)
      → ((p : Payload) → Memᴰ p signed → IsCoded c p)
      → KnowsOnly signed token
      → verify_token c now token (some op) ≡ verified q
      → Memᴰ q signed × (q.op ≡ some op) × ((exp : ℕ) × (q.exp ≡ some exp) × (now ≤ exp * second))
  unfolding verify_token
  verify_token-signed signed now token op q law only h =
      let (body, sig, parts, good, rest) = check_parts-verified now op q (split_dot token) h in
      let (p, known, e) = only body sig parts good in
      let (decoded, right, in_time) = check_payload-verified now op q (c.decode body) rest in
      let same = sym (law p known).inverse ∙ sym (ap c.decode e) ∙ decoded in
      (subst (λ x. Memᴰ x signed) (some_inj.0 same) known, right, in_time)
