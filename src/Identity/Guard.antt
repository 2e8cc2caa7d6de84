-- ===== src/Identity/Guard.antt =====
-- The outermost middleware of mcp_server/identity_guard.py, around what a tool call does to the
-- state of the server. The messages of the exceptions are left out.
use openstudio_mcp.Base.{String, Option, none, some, List, [], ◌∷◌, ◌++◌, ◌≡◌, arith}
use openstudio_mcp.Identity.{Request, user_key}

-- The exceptions that the guard tells apart; a ToolError may have a cause.
pub data Cause : Type 0 where
  invalid_principal invalid_user_key other_error : Cause

pub data Raised : Type 0 where
  direct : Cause → Raised
  tool_error : Option Cause → Raised

-- What a call comes to: a result, the refusal of `_refused`, or an exception.
pub data Outcome {ℓ} (A : Type ℓ) : Type ℓ where
  result : A → Outcome A
  refused : Cause → Outcome A
  raises : Raised → Outcome A

module _ {ℓ} {A : Type ℓ} where
  -- The two `except` clauses.
  unfoldable pub convert : Outcome A → Outcome A
  convert (result a) = result a
  convert (refused c) = refused c
  convert (raises (direct invalid_principal)) = refused invalid_principal
  convert (raises (direct invalid_user_key)) = refused invalid_user_key
  convert (raises (direct other_error)) = raises (direct other_error)
  convert (raises (tool_error none)) = raises (tool_error none)
  convert (raises (tool_error (some invalid_principal))) = refused invalid_principal
  convert (raises (tool_error (some invalid_user_key))) = refused invalid_user_key
  convert (raises (tool_error (some other_error))) = raises (tool_error (some other_error))

  pub convert-identity :
      (out : Outcome A) (c : Cause) → convert out ≡ raises (direct c) → c ≡ other_error
  unfolding convert
  convert-identity (result a) c h = ground arith
  convert-identity (refused d) c h = ground arith
  convert-identity (raises (direct d)) c h = ground arith
  convert-identity (raises (tool_error d)) c h = ground arith

  pub convert-wrapped :
      (out : Outcome A) (c : Cause) → convert out ≡ raises (tool_error (some c)) → c ≡ other_error
  unfolding convert
  convert-wrapped (result a) c h = ground arith
  convert-wrapped (refused d) c h = ground arith
  convert-wrapped (raises (direct d)) c h = ground arith
  convert-wrapped (raises (tool_error d)) c h = ground arith

module _ {ℓ κ} {A : Type ℓ} {S : Type κ} where
  -- The state is that of the server and the lines of the audit log.
  unfoldable pub guarded :
      String → (S → Outcome A × S) → Option String → S → List String → Outcome A × S × List String
  unfolding convert
  guarded tool call_next none s log = (refused invalid_principal, s, log ++ (tool ∷ []))
  guarded tool call_next (some key) s log =
      let (out, after) = call_next s in (convert out, after, log)

  unfoldable pub on_call_tool :
      (String → String)
      → Request
      → String
      → (S → Outcome A × S)
      → S
      → List String
      → Outcome A × S × List String
  unfolding guarded
  on_call_tool digest r tool call_next s log = guarded tool call_next (user_key digest r) s log
