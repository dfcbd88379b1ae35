-- ===== src/Security/Perimeter.antt =====
-- src/model_dispatcher/security/perimeter.py: the checks at the trust edge.
pub mod Accepts
use Prim.Native.String.{len}
use model_dispatcher.Prelude.{
  ℕ, ◌+◌, String, Bool, true, false, not, ◌&&◌, Option, none, some, List, [], ◌∷◌, ◌==◌, ltb,
  if◌then◌else◌, any,
}
use model_dispatcher.Prelude.Text.{characters, is_nonempty}
use model_dispatcher.Types.{ToolSpec, ToolResult, Message, content_or_empty, CompletionRequest}
use model_dispatcher.Types.Json.{fields_length}
use model_dispatcher.Errors.{Res, ok, raised, dispatcher, PerimeterViolation}
use model_dispatcher.Onboarding.Handoff.{Text, text, quoted, number}
use model_dispatcher.Config.{SecuritySettings}
use model_dispatcher.Quota.Tenant.{TenantContext, metadata_get}

-- The bytes of a tool's reply in UTF-8.
abbrev result_bytes : Option ToolResult → ℕ
result_bytes none = 0
result_bytes (some r) = len r.content

messages_bytes : List Message → ℕ
messages_bytes [] = 0
messages_bytes (m ∷ ms) = len (content_or_empty m) + result_bytes m.tool_result + messages_bytes ms

-- `json.dumps` prints ASCII, so its bytes are its characters.
tools_bytes : List ToolSpec → ℕ
tools_bytes [] = 0
tools_bytes (t ∷ ts) =
    characters t.name + characters t.description + fields_length t.parameters + tools_bytes ts

-- `_estimate_payload_bytes`
pub payload_bytes : CompletionRequest → ℕ
unfolding messages_bytes tools_bytes
payload_bytes r = messages_bytes r.messages + tools_bytes r.tools

-- `name in allowed`, where None is in no set of names
listed : Option String → List String → Bool
listed none allowed = false
listed (some name) allowed = any (λ a. name == a) allowed

-- The provider that the tenant is pinned to and that the allowlist does not have.
pub forbidden : SecuritySettings → TenantContext → Option String
unfolding listed
forbidden settings tenant =
    let forced = metadata_get "forced_provider" tenant.metadata in
    elim settings.allowed_providers [
      | [] ↦ none
      | _ ∷ _ ↦ if listed forced settings.allowed_providers then none else forced
    ]

violation : Text → Res (Unit {0})
violation message = raised (dispatcher (PerimeterViolation message))

check_allowlist : Option String → Res (Unit {0})
unfolding violation
check_allowlist none = ok tt
check_allowlist (some forced) =
    violation (text "provider " ∷ quoted forced ∷ text " is not on the egress allowlist" ∷ [])

unfoldable pub validate : SecuritySettings → CompletionRequest → TenantContext → Res (Unit {0})
unfolding check_allowlist violation forbidden payload_bytes
validate settings request tenant =
    if settings.require_tenant_auth && not (is_nonempty tenant.tenant_id)
    then violation (text "request is missing a tenant identity" ∷ [])
    else if not (any (λ _. true) request.messages)
    then violation (text "request carries no messages" ∷ [])
    else if ltb settings.max_payload_bytes (payload_bytes request)
    then violation (
        text "payload "
        ∷ number (payload_bytes request)
        ∷ text " bytes exceeds limit "
        ∷ number settings.max_payload_bytes
        ∷ [])
    else check_allowlist (forbidden settings tenant)
